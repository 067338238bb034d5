-- ===== src/LockedQueue/Batch.antt =====
-- `xbdev_batch_requests` of src/libxbdev/queue.c against the bounded queue: all of the requests go in
-- behind those that are there, or none.
use native.Mathlib.Decide.{dec_le}
use mathlib.Core.Path.{subst}
use nblock.Prelude.{
  ℕ, ◌+◌, ◌^◌, ◌≤◌, ◌<◌, ◌≡◌, ◌≢◌, refl, sym, ◌⊎◌, inl, inr, arith, true, List, [], ◌∷◌, ◌++◌,
  append-nil, append_assoc, none, some, length, length-append, get_or-set_self,
}
use nblock.Prelude.Errno.{eagain, ok, fail}
use nblock.Ring.{Ptr}
use nblock.LockedQueue.{Queue, zero_queue, store}
use nblock.LockedQueue.System.{Sys, queue_at, get_queue_index}
use nblock.LockedQueue.Client.{Batch, store_all, batch_requests, mark_submitted}
use nblock.LockedQueue.Refine.{Holds, store-Holds}

-- The requests of an array, without its NULLs.
abbrev pub present : List Ptr → List ℕ
present [] = []
present (none ∷ reqs) = present reqs
present (some p ∷ reqs) = p ∷ present reqs

length-present : (reqs : List Ptr) → length (present reqs) ≤ length reqs
length-present [] = omega arith
length-present (none ∷ reqs) = omega (arith, length-present reqs)
length-present (some p ∷ reqs) = omega (arith, length-present reqs)

capacity-store_all :
    (now : ℕ) (reqs : List Ptr) (b : Batch)
    → (store_all now reqs b).queue.capacity ≡ b.queue.capacity
unfolding store_all store
capacity-store_all now [] b = refl
capacity-store_all now (none ∷ reqs) b = capacity-store_all now reqs b
capacity-store_all now (some p ∷ reqs) b = capacity-store_all now reqs _

capacity-store : (queue : Queue) (req : Ptr) → (store queue req).capacity ≡ queue.capacity
unfolding store
capacity-store queue req = refl

store_all-Holds :
    (now : ℕ) (reqs : List Ptr) (b : Batch) (q : List ℕ)
    → Holds b.queue q
    → length q + length (present reqs) ≤ b.queue.capacity
    → Holds (store_all now reqs b).queue (q ++ present reqs)
      × ((store_all now reqs b).submitted ≡ b.submitted + length (present reqs))
unfolding store_all
store_all-Holds now [] b q h l = (subst (Holds b.queue) (sym (append-nil q)) h, omega arith)
store_all-Holds now (none ∷ reqs) b q h l = store_all-Holds now reqs b q h l
store_all-Holds now (some p ∷ reqs) b q h l =
    let next : Batch = record {
      submitted = b.submitted + 1;
      requests = mark_submitted now p b.requests;
      queue = store b.queue (some p);
    } in
    let (held, count) =
      store_all-Holds now reqs next (q ++ p ∷ []) (store-Holds h p (omega arith))
        (omega (arith, length-append q (p ∷ []), capacity-store b.queue (some p))) in
    (
      subst (Holds (store_all now reqs next).queue) (append_assoc q (p ∷ []) (present reqs)) held,
      omega (arith, count),
    )

-- A batch on a started system, where the index of the calling thread's queue is in range, that queue
-- holds `q` and the sizes do not wrap.
-- If the queue has no room for as many entries as the array has, NULLs included, the call fails and
-- changes no queue and no request. Otherwise the queue holds the requests of the array behind `q`,
-- and the call returns their number.
pub batch_requests_lem :
    (self now : ℕ) (reqs : List Ptr) (s : Sys) (q : List ℕ)
    → s.initialized ≡ true
    → length reqs ≢ 0
    → length q + length reqs < 2 ^ 32
    → let (i, t) = get_queue_index self s in
      i < length t.req_queues
      → Holds (queue_at t i) q
      → let (rc, submitted, u) = batch_requests self now reqs s in
        (((queue_at t i).capacity < length q + length reqs) × (rc ≡ fail eagain) × (u ≡ t))
        ⊎ ((length q + length reqs ≤ (queue_at t i).capacity)
            × (rc ≡ ok)
            × (submitted ≡ length (present reqs))
            × Holds (queue_at u i) (q ++ present reqs))
unfolding batch_requests
batch_requests_lem self now reqs s q up some_reqs fits l h =
    let (i, t) = get_queue_index self s in
    let queue = queue_at t i in
    let b : Batch = record { submitted = 0; requests = t.req_pool.entries; queue = queue } in
    elim (dec_le (length q + length reqs) queue.capacity) [
      | yes room ↦
          let (held, count) = store_all-Holds now reqs b q h (omega (arith, length-present reqs)) in
          inr (
            room,
            ground (arith, h.size_is),
            ground (arith, h.size_is, count),
            subst (λ v. Holds v (q ++ present reqs))
                (ground (
                  arith,
                  h.size_is,
                  get_or-set_self t.req_queues i (store_all now reqs b).queue zero_queue l,
                ))
                held,
          )
      | no full ↦ inl (omega (arith, full), ground (arith, h.size_is), ground (arith, h.size_is))
    ]
