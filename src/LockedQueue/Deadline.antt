-- ===== src/LockedQueue/Deadline.antt =====
-- The deadline and the wait loop of `xbdev_request_wait` of src/libxbdev/queue.c.
use native.Mathlib.Nat.{mod-lt, div-add-mod'}
use native.Mathlib.Decide.{dec_le}
use nblock.Prelude.{
  ℕ, zero, suc, ◌+◌, ◌*◌, ◌<◌, ◌≡◌, ◌≢◌, refl, ◌⊎◌, inl, inr, arith, Bool, true, false, List, [],
  ◌∷◌, Option, none, some, if◌then◌else◌, ◌==◌, not, ◌&&◌, ◌≤◌, Bool-cases,
}
use nblock.Prelude.Errno.{etimedout, other, Rc, ok, fail}
use nblock.LockedQueue.Wait.{deadline, timed_out, await_loop, Meanwhile, request_wait}
use nblock.LockedQueue.System.{Sys}
use nblock.LockedQueue.Client.{request_at}

-- The deadline is a valid time, its nanoseconds below 10^9, and lies exactly `timeout_us`
-- microseconds after a valid time.
pub deadline_lem :
    (timeout_us sec nsec : ℕ)
    → nsec < 1000000000
    → let (sec', nsec') = deadline timeout_us (sec, nsec) in
      (nsec' < 1000000000)
      × (sec' * 1000000000 + nsec' ≡ sec * 1000000000 + nsec + timeout_us * 1000)
unfolding deadline
deadline_lem timeout_us sec nsec valid =
    ground (arith, mod-lt timeout_us {m = 1000000}, div-add-mod' timeout_us 1000000)

-- The wake-up that ends a wait: the first that finds the request done or has an error code.
abbrev pub ending : List (ℕ × Bool) → Option (ℕ × Bool)
ending [] = none
ending ((rc, done) ∷ later) =
    let rest = ending later in if not done && rc == 0 then rest else some (rc, done)

await_loop-ending :
    (wakeups : List (ℕ × Bool))
    → ((ending wakeups ≡ none) × (await_loop false 0 wakeups ≡ none))
      ⊎ ((rc : ℕ) × (done : Bool) × (ending wakeups ≡ some (rc, done))
          × (await_loop false 0 wakeups ≡ some rc)
          × ((rc ≢ 0) ⊎ (done ≡ true)))
unfolding await_loop
await_loop-ending [] = inl (refl, refl)
await_loop-ending ((zero, false) ∷ later) = await_loop-ending later
await_loop-ending ((zero, true) ∷ []) = inr (0, true, refl, refl, inr refl)
await_loop-ending ((zero, true) ∷ w ∷ later) = inr (0, true, refl, refl, inr refl)
await_loop-ending ((suc rc, done) ∷ []) =
    inr (suc rc, done, ground arith, ground arith, inl (omega arith))
await_loop-ending ((suc rc, done) ∷ w ∷ later) =
    inr (suc rc, done, ground arith, ground arith, inl (omega arith))

await_loop_done : (wakeups : List (ℕ × Bool)) → await_loop true 0 wakeups ≡ some 0
unfolding await_loop
await_loop_done [] = refl
await_loop_done (w ∷ later) = refl

-- The code of `xbdev_request_wait` for the code `rc` of a wait that failed.
abbrev pub wait_error : ℕ → Rc
wait_error rc = if rc == timed_out then fail etimedout else fail (other rc)

-- The deadline of a wait that begins at a time: there is none for a time limit of 0; otherwise it is a valid
-- time that lies exactly `timeout_us` microseconds after that.
abbrev pub IsDeadline : ℕ → ℕ × ℕ → Option (ℕ × ℕ) → Type 0
IsDeadline timeout_us clock none = timeout_us ≡ 0
IsDeadline timeout_us clock (some until) =
    (1 ≤ timeout_us)
    × (until.1 < 1000000000)
    × (until.0 * 1000000000 + until.1 ≡ clock.0 * 1000000000 + clock.1 + timeout_us * 1000)

-- The deadline that the code calculates.
abbrev pub until_of : ℕ → ℕ × ℕ → Option (ℕ × ℕ)
until_of timeout_us clock = if timeout_us == 0 then none else some (deadline timeout_us clock)

until_of-IsDeadline :
    (timeout_us : ℕ) (clock : ℕ × ℕ)
    → clock.1 < 1000000000
    → IsDeadline timeout_us clock (until_of timeout_us clock)
until_of-IsDeadline timeout_us clock valid = elim (Bool-cases (timeout_us == 0)) [
  | inl unlimited ↦ rw unlimited (ground (arith, unlimited))
  | inr limited ↦
      let (small, exact) = deadline_lem timeout_us clock.0 clock.1 valid in
      rw limited (ground (arith, limited), small, exact)
]

-- A call of `xbdev_request_wait` for a request that is not done when it is first looked at, on a
-- started system. The deadline of its waits, if it has a time limit, is a valid time that lies exactly
-- the limit after the time of the clock, which is valid too. If the request is done once the lock is
-- held, the call returns 0. Otherwise it still waits exactly if no wake-up that comes for the deadline
-- finds the request done or has an error code; the first that does ends the call: an error code is
-- what it returns, also if the request is done by then, and without one the request is done and the
-- call returns 0.
pub request_wait_lem :
    (meanwhile : Meanwhile) (clock : ℕ × ℕ) (p timeout_us : ℕ) (s : Sys)
    → clock.1 < 1000000000
    → s.initialized ≡ true
    → (request_at s.req_pool p).done ≡ false
    → let until = until_of timeout_us clock in
      let result = request_wait meanwhile clock (some p) timeout_us s in
      IsDeadline timeout_us clock until
      × (((meanwhile.done_at_lock ≡ true) × (result ≡ some ok))
          ⊎ ((meanwhile.done_at_lock ≡ false)
              × (((ending (meanwhile.wakeups until) ≡ none) × (result ≡ none))
                  ⊎ ((rc : ℕ) × (done : Bool) × (ending (meanwhile.wakeups until) ≡ some (rc, done))
                      × (((rc ≢ 0) × (result ≡ some (wait_error rc)))
                          ⊎ ((rc ≡ 0) × (done ≡ true) × (result ≡ some ok)))))))
unfolding request_wait
request_wait_lem meanwhile clock p timeout_us s valid up waiting =
    let until = until_of timeout_us clock in
    (
      until_of-IsDeadline timeout_us clock valid,
      elim (Bool-cases meanwhile.done_at_lock) [
        | inl early ↦
            let ended = await_loop_done (meanwhile.wakeups until) in
            inl (early, ground (arith, up, waiting, early, ended))
        | inr late ↦ inr (
          late,
          elim (await_loop-ending (meanwhile.wakeups until)) [
            | inl (e, still) ↦ inl (e, ground (arith, up, waiting, late, still))
            | inr (rc, done, e, ended, why) ↦ inr (
              rc,
              done,
              e,
              (elim (dec_le 1 rc) [
                | yes bad ↦ inl (omega arith, ground (arith, up, waiting, late, ended))
                | no fine ↦
                    inr (omega arith, ground (arith, why), ground (arith, up, waiting, late, ended))
              ]),
            )
          ],
        )
      ],
    )
