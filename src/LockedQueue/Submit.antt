-- ===== src/LockedQueue/Submit.antt =====
-- Which queue a thread of src/libxbdev/queue.c works on, and what a submission does to it.
use native.Mathlib.Nat.{mod-lt, mod-eq_of_lt}
use mathlib.Core.Path.{subst}
use nblock.Prelude.{
  ℕ, ◌%◌, ◌^◌, ◌<◌, ◌≡◌, ◌≢◌, refl, sym, ap, ◌∙◌, ◌↔◌, arith, true, List, some, length, get_or, set,
  get_or-set_self, get_or-set_ne,
}
use nblock.Prelude.Errno.{eagain}
use nblock.Fifo
use nblock.LockedQueue.{zero_queue, enqueue_request}
use nblock.LockedQueue.Refine.{Holds, enqueue_request_refines}
use nblock.LockedQueue.System.{Sys, queue_at, get_queue_index}
use nblock.LockedQueue.Client.{request_submit, mark_submitted}

-- On a system with at least one queue and fewer than 2 ^ 32, the queue of a thread is one of the queues
-- there are exactly if the index that the thread keeps,
-- perhaps from an earlier start with more queues, is less than their number.
pub get_queue_index-range :
    (self : ℕ) (s : Sys)
    → 0 < s.num_queues
    → s.num_queues < 2 ^ 32
    → ((get_queue_index self s).0 < s.num_queues) ↔ (s.thread_queue_idx self < s.num_queues)
unfolding get_queue_index
get_queue_index-range self s some_queues fits =
    let l = mod-lt self {m = s.num_queues} some_queues in
    ground (arith, l, mod-eq_of_lt {n = self % s.num_queues} {m = 2 ^ 32} (omega arith))

submitted-request_submit :
    (self now p : ℕ) (s : Sys)
    → s.initialized ≡ true
    → let (i, t) = get_queue_index self s in
      let (rc, queue) = enqueue_request (some p) (queue_at t i) in
      ((request_submit self now (some p) s).0 ≡ rc)
      × ((request_submit self now (some p) s).1.req_queues ≡ set t.req_queues i queue)
      × ((request_submit self now (some p) s).1.req_pool.entries
          ≡ mark_submitted now p t.req_pool.entries)
unfolding request_submit
submitted-request_submit self now p s up = ground arith

-- A submission on a started system, where the calling thread's queue holds `q`: it returns what the
-- bounded queue returns, the queue then holds what the bounded queue holds, and no other queue
-- changes. The request is marked as submitted even where the queue is full.
pub locked_request_submit_refines :
    (self now p : ℕ) (s : Sys) (q : List ℕ)
    → s.initialized ≡ true
    → let (i, t) = get_queue_index self s in
      i < length t.req_queues
      → Holds (queue_at t i) q
      → let (rc, u) = request_submit self now (some p) s in
        let (rc', q') = Fifo.push eagain (queue_at t i).capacity q p in
        (rc ≡ rc')
        × Holds (queue_at u i) q'
        × ((j : ℕ) → i ≢ j → queue_at u j ≡ queue_at t j)
        × (u.req_pool.entries ≡ mark_submitted now p t.req_pool.entries)
locked_request_submit_refines self now p s q up l h =
    let (i, t) = get_queue_index self s in
    let queue = (enqueue_request (some p) (queue_at t i)).1 in
    let (code, queues, entries) = submitted-request_submit self now p s up in
    let (rc, h') = enqueue_request_refines (queue_at t i).capacity (queue_at t i) q p refl h in
    (
      code ∙ rc,
      subst (λ v. Holds v (Fifo.push eagain (queue_at t i).capacity q p).1)
          (sym (
            ap (λ qs. get_or qs i zero_queue) queues
            ∙ get_or-set_self t.req_queues i queue zero_queue l))
          h',
      λ j ne.
          ap (λ qs. get_or qs j zero_queue) queues
          ∙ get_or-set_ne t.req_queues i j queue zero_queue ne,
      entries,
    )
