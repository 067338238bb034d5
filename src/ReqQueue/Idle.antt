-- ===== src/ReqQueue/Idle.antt =====
-- What the functions of src/libxbdev/request_queue.c do while no queue is ready: none changes the
-- pending count of a queue or makes a queue ready.
use nblock.Prelude.{
  ℕ, zero, suc, ◌+◌, ◌%◌, ◌^◌, ◌≡◌, refl, sym, ap, ◌∙◌, ◌⊎◌, inl, inr, arith, Bool, true, false,
  List, [], ◌∷◌, none, some, get_or, set, leb, Option-cases, Bool-cases,
}
use mathlib.Core.Path.{subst}
use nblock.Prelude.Errno.{ebusy, fail}
use nblock.Ring.{Ptr, add32}
use nblock.Request.{Request, Handler}
use nblock.Flags.{first_unused}
use nblock.ReqQueue.State.{Queue, Sys, is_ready, zero_queue, queue_at, current_queue}
use nblock.ReqQueue.Setup.{total_pending, stop_queues}
use nblock.ReqQueue.Client.{
  claim, alloc_internal, request_alloc, sync_request_alloc, request_submit, submit_to, request_free,
  free_index,
}
use nblock.ReqQueue.Process.{process_queue, process_from, process}

abbrev pub NoneReady : List Queue → Type 0
NoneReady [] = Unit {0}
NoneReady (q ∷ qs) = (is_ready q.status ≡ false) × NoneReady qs

-- The queues that are not in use are not ready.
abbrev pub RestIdle : ℕ → List Queue → Type 0
RestIdle zero qs = NoneReady qs
RestIdle (suc n) [] = Unit {0}
RestIdle (suc n) (q ∷ qs) = RestIdle n qs

pub stop_queues-NoneReady : (n : ℕ) (qs : List Queue) → RestIdle n qs → NoneReady (stop_queues n qs)
unfolding stop_queues
stop_queues-NoneReady zero qs h = h
stop_queues-NoneReady (suc n) [] h = tt
stop_queues-NoneReady (suc n) (q ∷ qs) h = (refl, stop_queues-NoneReady n qs h)

pub total_pending-stop_queues :
    (n m : ℕ) (qs : List Queue) → total_pending m (stop_queues n qs) ≡ total_pending m qs
unfolding stop_queues total_pending
total_pending-stop_queues zero m qs = refl
total_pending-stop_queues (suc n) zero [] = refl
total_pending-stop_queues (suc n) (suc m) [] = refl
total_pending-stop_queues (suc n) zero (q ∷ qs) = refl
total_pending-stop_queues (suc n) (suc m) (q ∷ qs) =
    ap (add32 q.pending) (total_pending-stop_queues n m qs)

queue-NoneReady :
    (qs : List Queue) (i : ℕ) → NoneReady qs → is_ready (get_or qs i zero_queue).status ≡ false
queue-NoneReady [] i h = refl
queue-NoneReady (q ∷ qs) zero h = h.0
queue-NoneReady (q ∷ qs) (suc i) h = queue-NoneReady qs i h.1

module _ (call : Handler → Request → Request) where
  process_queue-NoneReady :
      (now i : ℕ) (s : Sys) → NoneReady s.queues → process_queue call now i s ≡ some s
  unfolding process_queue
  process_queue-NoneReady now i s h = rw (queue-NoneReady s.queues i h)

  process_from-NoneReady :
      (now n i : ℕ) (s : Sys) → NoneReady s.queues → process_from call now n i s ≡ some s
  unfolding process_from
  process_from-NoneReady now zero i s h = refl
  process_from-NoneReady now (suc n) i s h =
      rw (process_queue-NoneReady now i s h, process_from)
        (process_from-NoneReady now n (i + 1) s h)

  pub process-NoneReady : (now : ℕ) (s : Sys) → NoneReady s.queues → process call now s ≡ some s
  unfolding process
  process-NoneReady now s h = ground (arith, process_from-NoneReady now s.num_queues 0 s h)

-- What the wait looks at: no queue is ready, and the pending counts.
abbrev pub Same : Sys → Sys → Type 0
Same s t =
    NoneReady t.queues
    × (t.num_queues ≡ s.num_queues)
    × ((n : ℕ) → total_pending n t.queues ≡ total_pending n s.queues)

set_counter :
    (qs : List Queue) (i c : ℕ)
    → NoneReady qs
    → let qs' = set qs i (record (get_or qs i zero_queue) { req_id_counter = c }) in
      NoneReady qs' × ((n : ℕ) → total_pending n qs' ≡ total_pending n qs)
unfolding total_pending
set_counter [] i c h = (tt, λ n. refl)
set_counter (q ∷ qs) zero c h = (h, λ n. first n)
  where
    first :
        (n : ℕ) → total_pending n (record q { req_id_counter = c } ∷ qs) ≡ total_pending n (q ∷ qs)
    first zero = refl
    first (suc n) = refl
set_counter (q ∷ qs) (suc i) c h =
    let (none_ready, same) = set_counter qs i c h.1 in ((h.0, none_ready), λ n. first n same)
  where
    changed : List Queue
    changed = set qs i (record (get_or qs i zero_queue) { req_id_counter = c })

    first :
        (n : ℕ)
        → ((m : ℕ) → total_pending m changed ≡ total_pending m qs)
        → total_pending n (q ∷ changed) ≡ total_pending n (q ∷ qs)
    first zero same = refl
    first (suc n) same = ap (add32 q.pending) (same n)

pub Same-refl : (s : Sys) → NoneReady s.queues → Same s s
Same-refl s h = (h, refl, λ n. refl)

pub Same-trans : (s t u : Sys) → Same s t → Same t u → Same s u
Same-trans s t u (_, n, p) (h, n', p') = (h, n' ∙ n, λ m. p' m ∙ p m)

queues-current_queue :
    (tid : ℕ) (s : Sys)
    → ((current_queue tid s).1.queues ≡ s.queues)
      × ((current_queue tid s).1.num_queues ≡ s.num_queues)
unfolding current_queue
queues-current_queue tid s = ground arith

claim-Same :
    (sync_req : Bool) (tid now p : ℕ) (s : Sys)
    → NoneReady s.queues
    → Same s (claim sync_req tid now p s)
unfolding claim
claim-Same sync_req tid now p s h =
    let t = (current_queue tid s).1 in
    let i = (current_queue tid s).0 in
    let (qs, n) = queues-current_queue tid s in
    let h' : NoneReady t.queues = rw qs h in
    let (none_ready, same) =
      set_counter t.queues i (((queue_at t i).req_id_counter + 1) % 2 ^ 64) h' in
    (none_ready, n, λ m. same m ∙ ap (total_pending m) qs)

Same-of_queues :
    (s t : Sys) → NoneReady s.queues → t.queues ≡ s.queues → t.num_queues ≡ s.num_queues → Same s t
Same-of_queues s t h qs n = (rw qs h, n, λ m. ap (total_pending m) qs)

alloc_internal-cases :
    (sync_req : Bool) (tid now : ℕ) (s : Sys)
    → (alloc_internal sync_req tid now s ≡ (none, s))
      ⊎ ((p : ℕ) × (alloc_internal sync_req tid now s ≡ (some p, claim sync_req tid now p s)))
unfolding alloc_internal
alloc_internal-cases sync_req tid now s = elim (Bool-cases (leb s.pool.size s.pool.count)) [
  | inl full ↦ inl (rw full refl)
  | inr room ↦ elim (Option-cases (first_unused 0 s.pool.used_flags)) [
    | inl e ↦ inl (rw (room, e) refl)
    | inr (p, e) ↦ inr (p, rw (room, e) refl)
  ]
]

alloc_internal-Same :
    (sync_req : Bool) (tid now : ℕ) (s : Sys)
    → NoneReady s.queues
    → Same s (alloc_internal sync_req tid now s).1
alloc_internal-Same sync_req tid now s h = elim (alloc_internal-cases sync_req tid now s) [
  | inl e ↦ subst (λ r. Same s r.1) (sym e) (Same-refl s h)
  | inr (p, e) ↦ subst (λ r. Same s r.1) (sym e) (claim-Same sync_req tid now p s h)
]

pub alloc-Same : (tid now : ℕ) (s : Sys) → NoneReady s.queues → Same s (request_alloc tid now s).1
unfolding request_alloc
alloc-Same tid now s h = elim (Bool-cases s.initialized) [
  | inl up ↦ simp up (alloc_internal-Same false tid now s h)
  | inr down ↦ simp down (Same-refl s h)
]

pub sync_alloc-Same :
    (tid now : ℕ) (s : Sys) → NoneReady s.queues → Same s (sync_request_alloc tid now s).1
unfolding sync_request_alloc
sync_alloc-Same tid now s h = elim (Bool-cases s.initialized) [
  | inl up ↦ simp up (alloc_internal-Same true tid now s h)
  | inr down ↦ simp down (Same-refl s h)
]

submit_to-down :
    (i p : ℕ) (s : Sys) → is_ready (queue_at s i).status ≡ false → submit_to i p s ≡ (fail ebusy, s)
unfolding submit_to
submit_to-down i p s h = rw h refl

pub submit-Same :
    (tid : ℕ) (req : Ptr) (s : Sys) → NoneReady s.queues → Same s (request_submit tid req s).1
unfolding request_submit
submit-Same tid none s h =
    Same-of_queues s (request_submit tid none s).1 h (ground arith) (ground arith)
submit-Same tid (some p) s h =
    let (qs, n) = queues-current_queue tid s in
    let t = (current_queue tid s).1 in
    let refused : submit_to (current_queue tid s).0 p t ≡ (fail ebusy, t) =
      submit_to-down (current_queue tid s).0 p t
        (queue-NoneReady t.queues (current_queue tid s).0 (rw qs h)) in
    Same-of_queues s (request_submit tid (some p) s).1 h (ground (arith, refused, qs))
      (ground (arith, refused, n))

pub free-Same : (req : Ptr) (s : Sys) → NoneReady s.queues → Same s (request_free req s).1
unfolding request_free free_index
free-Same none s h = Same-of_queues s (request_free none s).1 h (ground arith) (ground arith)
free-Same (some p) s h =
    Same-of_queues s (request_free (some p) s).1 h (ground arith) (ground arith)
