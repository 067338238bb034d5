-- ===== src/ReqQueue/Submit.antt =====
-- Which queue a thread submits to, and what the submission does to it.
use native.Mathlib.Nat.{mod-lt}
use nblock.Prelude.{
  ℕ, ◌-◌, ◌^◌, ◌≤◌, ◌<◌, ◌≡◌, ◌≢◌, refl, sym, ap, ◌∙◌, arith, true, List, some, get_or, length,
  get_or-set_self,
}
use mathlib.Core.Path.{subst}
use nblock.Prelude.Errno.{Errno, Rc, ok, fail, enospc}
use nblock.Ring
use nblock.Ring.{add32}
use nblock.Ring.Inv.{IsValid, enqueue-IsValid}
use nblock.Ring.Refine.{Holds, enqueue_refines}
use nblock.Fifo
use nblock.ReqQueue.State.{Sys, Queue, is_ready, zero_queue, queue_at, current_queue}
use nblock.ReqQueue.Client.{request_submit, submit_to}

-- Every index that the thread-local values stand for is in range.
abbrev pub IndicesInRange : Sys → Type 0
IndicesInRange s = (tid : ℕ) → s.thread_queue tid ≤ s.num_queues

-- If there is a queue and every index that a thread keeps is in range, which stays so: a thread gets a
-- queue in range at its first call, the same one at each later call, and its call
-- does not change the queue of any other thread that has one.
pub current_queue_lem :
    (tid : ℕ) (s : Sys)
    → 0 < s.num_queues
    → IndicesInRange s
    → let (i, t) = current_queue tid s in
      (i < s.num_queues)
      × (current_queue tid t ≡ (i, t))
      × IndicesInRange t
      × ((other : ℕ)
          → other ≢ tid
          → s.thread_queue other ≢ 0
          → (current_queue other t).0 ≡ (current_queue other s).0)
unfolding current_queue
current_queue_lem tid s pos h = (
  ground (arith, h tid, mod-lt s.next_queue_idx pos),
  ground arith,
  (λ other. ground (arith, h other, mod-lt s.next_queue_idx pos)),
  λ other ne taken. ground (arith, ne, taken),
)

enqueue_refused :
    (ring r : Ring.Ring) (req : Ring.Ptr) (e : Errno)
    → Ring.enqueue ring req ≡ (fail e, r)
    → r ≡ ring
unfolding Ring.enqueue
enqueue_refused ring r req e p = ground arith

-- The pending count goes up with each request that is accepted.
abbrev pub counted : Rc → ℕ → ℕ
counted ok n = add32 n 1
counted (fail e) n = n

submit_to-enqueue :
    (i p : ℕ) (s : Sys)
    → i < length s.queues
    → is_ready (queue_at s i).status ≡ true
    → let (rc, t) = submit_to i p s in
      let (rc', ring) = Ring.enqueue (queue_at s i).ring (some p) in
      (rc ≡ rc')
      × ((queue_at t i).ring ≡ ring)
      × ((queue_at t i).pending ≡ counted rc' (queue_at s i).pending)
      × ((queue_at t i).status ≡ (queue_at s i).status)
unfolding submit_to
submit_to-enqueue i p s l up = go (r.0) (r.1) refl
  where
    r : Rc × Ring.Ring
    r = Ring.enqueue (queue_at s i).ring (some p)

    go :
        (rc' : Rc) (ring : Ring.Ring)
        → r ≡ (rc', ring)
        → let (rc, t) = submit_to i p s in
          (rc ≡ r.0)
          × ((queue_at t i).ring ≡ r.1)
          × ((queue_at t i).pending ≡ counted r.0 (queue_at s i).pending)
          × ((queue_at t i).status ≡ (queue_at s i).status)
    go ok ring e =
        let stored : Queue = record (queue_at s i) {
          ring = ring;
          pending = add32 (queue_at s i).pending 1;
        } in
        ground (arith, e, get_or-set_self s.queues i stored zero_queue l)
    go (fail c) ring e = ground (arith, e, enqueue_refused (queue_at s i).ring ring (some p) c e)

-- What a submission to queue `i` of `s` must come to, when the queue holds `q`.
abbrev pub Submitted : ℕ → ℕ → ℕ → Queue → List ℕ → Rc × Sys → Type 0
Submitted k i p before q (rc, t) =
    let (rc', q') = Fifo.push enospc (2 ^ k - 1) q p in
    (rc ≡ rc')
    × Holds k (queue_at t i).ring q'
    × IsValid k (queue_at t i).ring
    × ((queue_at t i).pending ≡ counted rc' before.pending)

submit_to-Submitted :
    (k i p : ℕ) (s : Sys) (q : List ℕ)
    → i < length s.queues
    → is_ready (queue_at s i).status ≡ true
    → IsValid k (queue_at s i).ring
    → Holds k (queue_at s i).ring q
    → Submitted k i p (queue_at s i) q (submit_to i p s)
submit_to-Submitted k i p s q l up v h =
    let (rc, ring, pending, _) = submit_to-enqueue i p s l up in
    let (rc', held) = enqueue_refines k (queue_at s i).ring q p v h in
    (
      rc ∙ rc',
      rw ring held,
      rw ring (enqueue-IsValid k (some p) v),
      pending ∙ ap (λ c. counted c (queue_at s i).pending) rc',
    )

request_submit-submit_to :
    (tid p : ℕ) (s : Sys)
    → s.initialized ≡ true
    → request_submit tid (some p) s ≡ submit_to (current_queue tid s).0 p (current_queue tid s).1
unfolding request_submit
request_submit-submit_to tid p s up = ground arith

queues-current_queue : (tid : ℕ) (s : Sys) → s.queues ≡ (current_queue tid s).1.queues
unfolding current_queue
queues-current_queue tid s = ground arith

-- A submission by a thread whose queue is ready: the return code and the requests that the ring then
-- holds are those of the bounded queue, and the pending count goes up if the request is accepted.
pub request_submit_refines :
    (k tid p : ℕ) (s : Sys) (q : List ℕ)
    → s.initialized ≡ true
    → (current_queue tid s).0 < length s.queues
    → is_ready (queue_at s (current_queue tid s).0).status ≡ true
    → IsValid k (queue_at s (current_queue tid s).0).ring
    → Holds k (queue_at s (current_queue tid s).0).ring q
    → Submitted k
        (current_queue tid s).0
        p
        (queue_at s (current_queue tid s).0)
        q
        (request_submit tid (some p) s)
request_submit_refines k tid p s q up l ready v h =
    let i = (current_queue tid s).0 in
    let t = (current_queue tid s).1 in
    let same : queue_at s i ≡ queue_at t i =
      ap (λ qs. get_or qs i zero_queue) (queues-current_queue tid s) in
    subst (Submitted k i p (queue_at s i) q) (sym (request_submit-submit_to tid p s up)) (
      subst (λ b. Submitted k i p b q (submit_to i p t)) (sym same)
        (submit_to-Submitted k i p t q (subst (λ qs. i < length qs) (queues-current_queue tid s) l)
          (subst (λ b. is_ready b.status ≡ true) same ready) (subst (λ b. IsValid k b.ring) same v)
          (subst (λ b. Holds k b.ring q) same h)))
