-- ===== src/LockedQueue/Client.antt =====
-- The functions of src/libxbdev/queue.c on the request pool, and those that submit requests.
-- `self` is what `pthread_self` returns in the calling thread, `now` what `spdk_get_ticks` returns. A
-- request pointer is its place in the pool.
use nblock.Prelude.{
  ℕ, ◌+◌, ◌-◌, ◌%◌, ◌^◌, ◌==◌, ltb, leb, if◌then◌else◌, Bool, true, false, not, List, [], ◌∷◌,
  Option, none, some, get_or, set, length,
}
use nblock.Prelude.Errno.{einval, eagain, Rc, ok, fail}
use nblock.Flags.{first_unused}
use nblock.Ring.{Ptr, add32}
use nblock.Request.{
  Request, zero_request, fresh, submitted, completed, error, Event, broadcast, callback,
}
use nblock.LockedQueue.{Queue, store, enqueue_request, dequeue_request, Wakeup}
use nblock.LockedQueue.System.{Pool, Sys, queue_at, get_queue_index}

abbrev pub request_at : Pool → ℕ → Request
request_at pool p = get_or pool.entries p zero_request

-- What allocation stores in a request. The type stays as it was.
unfoldable pub fresh_request : Bool → ℕ → Request → Request
fresh_request sync id r = record r {
  req_id = id;
  status = fresh;
  result = ok;
  sync_req = sync;
  done = false;
  ctx = none;
  cb = none;
  cb_arg = none;
  submit_tsc = 0;
  complete_tsc = 0;
}

-- The body of the search for a free place, once it is found: `p` is taken.
unfoldable pub claim : Bool → ℕ → Sys → Sys
unfolding fresh_request
claim sync p s = record s {
  next_req_id = (s.next_req_id + 1) % 2 ^ 64;
  req_pool = record s.req_pool {
    entries = set s.req_pool.entries p (fresh_request sync s.next_req_id (request_at s.req_pool p));
    used = set s.req_pool.used p true;
    used_count = add32 s.req_pool.used_count 1;
  };
}

-- The flags are an array of `capacity` entries, which the loop goes through.
unfoldable pub alloc_request_from_pool : Bool → Sys → Ptr × Sys
alloc_request_from_pool sync s =
    if not s.initialized then (none, s) else elim (first_unused 0 s.req_pool.used) [
      | none ↦ (none, s)
      | some p ↦ (some p, claim sync p s)
    ]

unfoldable pub release_index : ℕ → Sys → Rc × Sys
release_index idx s =
    if leb s.req_pool.capacity idx
    then (fail einval, s)
    else (if not (get_or s.req_pool.used idx false) then (fail einval, s) else (
      ok,
      record s {
        req_pool = record s.req_pool {
          used = set s.req_pool.used idx false;
          used_count = (s.req_pool.used_count + 2 ^ 32 - 1) % 2 ^ 32;
        };
      },
    ))

unfoldable pub free_request_to_pool : Ptr → Sys → Rc × Sys
free_request_to_pool req s =
    if not s.initialized
    then (fail einval, s)
    else elim req [ none ↦ (fail einval, s) | some p ↦ release_index (p % 2 ^ 32) s ]

-- The two stores that mark a request as submitted.
unfoldable pub mark_submitted : ℕ → ℕ → List Request → List Request
mark_submitted now p requests =
    set requests p
      (record (get_or requests p zero_request) { submit_tsc = now; status = submitted })

-- `xbdev_request_submit`, in its second definition. The request is marked before the insertion is
-- tried.
unfoldable pub request_submit : ℕ → ℕ → Ptr → Sys → Rc × Sys
request_submit self now none s = (fail einval, s)
request_submit self now (some p) s =
    let (i, t) = get_queue_index self s in
    let (rc, queue) = enqueue_request (some p) (queue_at t i) in
    if not s.initialized then (fail einval, s) else (
      rc,
      record t {
        req_pool = record t.req_pool { entries = mark_submitted now p t.req_pool.entries };
        req_queues = set t.req_queues i queue;
      },
    )

-- `xbdev_request_dequeue` with a place for the request. `none` where the call still waits.
unfoldable pub request_dequeue : ℕ → Bool → List Wakeup → Sys → Option (Rc × Ptr × Sys)
request_dequeue self wait wakeups s =
    let (i, t) = get_queue_index self s in
    if not s.initialized
    then some (fail einval, none, s)
    else elim (dequeue_request wait wakeups (queue_at t i)) [
      | none ↦ none
      | some (rc, out, queue) ↦ some (rc, out, record t { req_queues = set t.req_queues i queue })
    ]

-- The queue, the requests and the number submitted, in the loop of `xbdev_batch_requests`.
pub record Batch : Type 0 where
  pub submitted : ℕ
  pub requests : List Request
  pub queue : Queue

-- The loop. A NULL is passed over.
unfoldable pub store_all : ℕ → List Ptr → Batch → Batch
store_all now [] b = b
store_all now (none ∷ reqs) b = store_all now reqs b
store_all now (some p ∷ reqs) b = store_all now reqs (record {
  submitted = b.submitted + 1;
  requests = mark_submitted now p b.requests;
  queue = store b.queue (some p);
})

-- `xbdev_batch_requests` for an array that is not NULL. The sum is a `uint32_t` sum. The number is
-- what the function returns where the code is 0.
unfoldable pub batch_requests : ℕ → ℕ → List Ptr → Sys → Rc × ℕ × Sys
batch_requests self now reqs s =
    let (i, t) = get_queue_index self s in
    let queue = queue_at t i in
    let b =
      store_all now reqs (record { submitted = 0; requests = t.req_pool.entries; queue = queue }) in
    if length reqs == 0
    then (fail einval, 0, s)
    else (if not s.initialized
        then (fail einval, 0, s)
        else (if ltb queue.capacity (add32 queue.size (length reqs)) then (fail eagain, 0, t) else (
          ok,
          b.submitted,
          record t {
            req_pool = record t.req_pool { entries = b.requests };
            req_queues = set t.req_queues i b.queue;
          },
        )))

-- The request after `xbdev_mark_request_complete`, and what it sets off. The flag that a caller
-- passes in `done` gets the value of the request's own flag.
unfoldable pub mark_request_complete : ℕ → Rc → Request → Request × List Event
mark_request_complete now status r =
    let finished = record r {
      complete_tsc = now;
      result = status;
      status = elim status [ ok ↦ completed | fail _ ↦ error ];
      done = true;
    } in
    if r.sync_req then (finished, broadcast ∷ []) else elim r.cb [
      | none ↦ (finished, [])
      | some cb ↦ (finished, callback cb r.req_id status r.cb_arg ∷ [])
    ]
