-- ===== src/LockedQueue/Wait.antt =====
-- Waiting for a request in src/libxbdev/queue.c: `xbdev_request_wait` and the synchronous call. What
-- other threads and the clock do is a parameter.
use nblock.Prelude.{
  ℕ, ◌+◌, ◌-◌, ◌*◌, ◌/◌, ◌%◌, ◌==◌, leb, if◌then◌else◌, Bool, not, ◌&&◌, List, [], ◌∷◌, Option,
  none, some,
}
use nblock.Prelude.Errno.{einval, etimedout, other, Rc, ok, fail}
use nblock.Ring.{Ptr}
use nblock.LockedQueue.System.{Sys}
use nblock.LockedQueue.Client.{request_at, request_submit}

-- The absolute time, in seconds and nanoseconds, that lies `timeout_us` microseconds after the time
-- that `clock_gettime` gave.
unfoldable pub deadline : ℕ → ℕ × ℕ → ℕ × ℕ
deadline timeout_us (sec, nsec) =
    let late = nsec + timeout_us % 1000000 * 1000 in
    if leb 1000000000 late
    then (sec + timeout_us / 1000000 + 1, late - 1000000000)
    else (sec + timeout_us / 1000000, late)

-- ETIMEDOUT, as `pthread_cond_timedwait` returns it.
abbrev pub timed_out : ℕ
timed_out = 110

-- The wait loop. Each wake-up has the code that `pthread_cond_wait` or `pthread_cond_timedwait`
-- returned and what `done` is then. `none` where the loop still waits.
unfoldable pub await_loop : Bool → ℕ → List (ℕ × Bool) → Option ℕ
await_loop done rc [] = if not done && rc == 0 then none else some rc
await_loop done rc ((rc', done') ∷ later) =
    let rest = await_loop done' rc' later in if not done && rc == 0 then rest else some rc

-- What other threads do during a wait: what `done` is once the lock is held, where it may have been set
-- since it was looked at without the lock, and the wake-ups, given the deadline, if there is one.
pub record Meanwhile : Type 0 where
  pub done_at_lock : Bool
  pub wakeups : Option (ℕ × ℕ) → List (ℕ × Bool)

unfoldable pub request_wait : Meanwhile → ℕ × ℕ → Ptr → ℕ → Sys → Option Rc
request_wait meanwhile clock none timeout_us s = some (fail einval)
request_wait meanwhile clock (some p) timeout_us s =
    let until = if timeout_us == 0 then none else some (deadline timeout_us clock) in
    if not s.initialized
    then some (fail einval)
    else (if (request_at s.req_pool p).done
        then some ok
        else elim (await_loop meanwhile.done_at_lock 0 (meanwhile.wakeups until)) [
          | none ↦ none
          | some rc ↦ some (
              if rc == timed_out then fail etimedout else (if rc == 0 then ok else fail (other rc)))
        ])

-- `xbdev_sync_request_execute`, in its second definition. `limit` is XBDEV_SYNC_IO_TIMEOUT_US, which
-- no header defines; `result` is what the request's `result` is when the wait is over.
unfoldable pub sync_request_execute :
    Meanwhile → ℕ × ℕ → ℕ → Rc → ℕ → ℕ → Ptr → Sys → Option Rc × Sys
sync_request_execute meanwhile clock limit result self now none s = (some (fail einval), s)
sync_request_execute meanwhile clock limit result self now (some p) s =
    let (rc, t) = request_submit self now (some p) s in
    if not (request_at s.req_pool p).sync_req then (some (fail einval), s) else elim rc [
      | fail e ↦ (some (fail e), t)
      | ok ↦ (
        elim (request_wait meanwhile clock (some p) limit t) [
          | none ↦ none
          | some ended ↦ elim ended [ ok ↦ some result | fail e ↦ some (fail e) ]
        ],
        t,
      )
    ]
