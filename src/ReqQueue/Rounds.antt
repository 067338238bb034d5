-- ===== src/ReqQueue/Rounds.antt =====
-- One call of `xbdev_process_request_queues`: what becomes of each queue.
use nblock.Prelude.{
  ℕ, zero, suc, ◌+◌, ◌≤◌, ◌<◌, ◌≡◌, ◌≢◌, refl, sym, ◌∙◌, ◌⊎◌, inl, inr, arith, true, false, List,
  [], some, set, length, length-set, get_or-set_self, get_or-set_ne, Bool-cases,
}
use mathlib.Core.Path.{subst}
use native.Mathlib.Decide.{ℕ_discrete}
use nblock.Ring
use nblock.Ring.Inv.{IsValid}
use nblock.Ring.Refine.{Holds}
use nblock.Request.{Request, Handler}
use nblock.ReqQueue.State.{Queue, Sys, is_ready, queue_at}
use nblock.ReqQueue.Process.{Work, process_queue, process_from, process}
use nblock.ReqQueue.Drain.{serve_all, drain-serve_all}

-- What a queue is like before and after its turn: a ready queue is emptied, any other is untouched.
abbrev pub Turn : ℕ → Queue → Queue → Type 0
Turn k before after =
    ((is_ready before.status ≡ true)
      × IsValid k after.ring
      × Holds k after.ring []
      × (after.status ≡ before.status))
    ⊎ ((is_ready before.status ≡ false) × (after ≡ before))

-- The ring of the queue is valid, and holds some requests.
abbrev pub Loaded : ℕ → Queue → Type 0
Loaded k queue = (q : List ℕ) × IsValid k queue.ring × Holds k queue.ring q

module _ (call : Handler → Request → Request) (now k : ℕ) where
  process_queue-Turn :
      (i : ℕ) (s : Sys)
      → i < length s.queues
      → Loaded k (queue_at s i)
      → (t : Sys) × (process_queue call now i s ≡ some t)
        × Turn k (queue_at s i) (queue_at t i)
        × ((j : ℕ) → j ≢ i → queue_at t j ≡ queue_at s j)
        × (length t.queues ≡ length s.queues)
  unfolding process_queue
  process_queue-Turn i s l (q, v, h) = elim (Bool-cases (is_ready (queue_at s i).status)) [
    | inl up ↦
        let (ring, e, v', h') =
          drain-serve_all call now k ((queue_at s i).ring.size + 1) q start v h
            (omega (arith, h.room, v.size_pow)) in
        let at : queue_at (after ring) i ≡ done ring = get_or-set_self s.queues i (done ring) _ l in
        (
          after ring,
          rw (up, e) refl,
          inl (up, rw at v', rw at h', rw at refl),
          (λ j ne. get_or-set_ne s.queues i j (done ring) _ (λ p. ne (sym p))),
          length-set s.queues i (done ring),
        )
    | inr down ↦ (s, rw down refl, inr (down, refl), (λ j ne. refl), refl)
  ]
    where
      start : Work
      start = record {
        ring = (queue_at s i).ring;
        pending = (queue_at s i).pending;
        requests = s.pool.requests;
        log = s.log;
      }

      served : Work
      served = serve_all call now q start

      done : Ring.Ring → Queue
      done ring = record (queue_at s i) { ring = ring; pending = served.pending }

      after : Ring.Ring → Sys
      after ring = record s {
        queues = set s.queues i (done ring);
        pool = record s.pool { requests = served.requests };
        log = served.log;
      }

  process_from-Turn :
      (n i : ℕ) (s : Sys)
      → i + n ≤ length s.queues
      → ((j : ℕ) → i ≤ j → j < i + n → Loaded k (queue_at s j))
      → (t : Sys) × (process_from call now n i s ≡ some t)
        × ((j : ℕ) → i ≤ j → j < i + n → Turn k (queue_at s j) (queue_at t j))
        × ((j : ℕ) → j < i → queue_at t j ≡ queue_at s j)
  unfolding process_from
  process_from-Turn zero i s l loaded = (s, refl, (λ j a b. absurd (omega arith)), (λ j a. refl))
  process_from-Turn (suc n) i s l loaded =
      let (t, e, turn, rest, len) =
        process_queue-Turn i s (omega arith) (loaded i (omega arith) (omega arith)) in
      let (u, e', turns, rest') =
        process_from-Turn n (i + 1) t (omega (arith, len))
          (λ j a b. rw (rest j (omega arith)) (loaded j (omega arith) (omega arith))) in
      (
        u,
        rw (e, process_from) e',
        (λ j a b. elim (ℕ_discrete j i) [
          | yes same ↦
              rw same (subst (λ x. Turn k (queue_at s i) x) (sym (rest' i (omega arith))) turn)
          | no ne ↦
              subst (λ x. Turn k x (queue_at u j)) (rest j ne) (turns j (omega arith) (omega arith))
        ]),
        (λ j a. rest' j (omega arith) ∙ rest j (omega arith)),
      )

  -- If every queue in use has a valid ring, the call ends. Each queue that is ready is then empty
  -- and stays ready, and each queue that is not ready is as it was.
  pub process-Turn :
      (s : Sys)
      → s.initialized ≡ true
      → s.num_queues ≤ length s.queues
      → ((j : ℕ) → j < s.num_queues → Loaded k (queue_at s j))
      → (t : Sys) × (process call now s ≡ some t)
        × ((j : ℕ) → j < s.num_queues → Turn k (queue_at s j) (queue_at t j))
  unfolding process
  process-Turn s up l loaded =
      let (t, e, turns, _) =
        process_from-Turn s.num_queues 0 s (omega arith) (λ j a b. loaded j (omega arith)) in
      (t, ground (arith, e), (λ j a. turns j (omega arith) (omega arith)))
