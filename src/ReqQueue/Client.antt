-- ===== src/ReqQueue/Client.antt =====
-- The functions of src/libxbdev/request_queue.c that user threads call. `tid` is the calling
-- thread, `now` what `spdk_get_ticks` returns. A request pointer is its place in the pool.
use nblock.Prelude.{
  ℕ, ◌+◌, ◌-◌, ◌%◌, ◌^◌, leb, if◌then◌else◌, Bool, true, false, not, ◌||◌, ◌&&◌, List, [], ◌∷◌,
  Option, none, some, get_or, set,
}
use nblock.Prelude.Errno.{einval, ebusy, eagain, ecanceled, Rc, ok, fail}
use nblock.Flags.{first_unused}
use nblock.Ring
use nblock.Ring.{Ptr, add32}
use nblock.Request.{Request, zero_request, submitted, fresh}
use nblock.ReqQueue.State.{Pool, Sys, QueueStatus, is_ready, current_queue, queue_at}

abbrev pub request_at : Pool → ℕ → Request
request_at pool p = get_or pool.requests p zero_request

-- Takes the place `p`, and gives the request its number from the queue of the calling thread.
unfoldable pub claim : Bool → ℕ → ℕ → ℕ → Sys → Sys
unfolding current_queue
claim sync_req tid now p s =
    let (i, t) = current_queue tid s in
    let queue = queue_at t i in
    let request : Request = record zero_request {
      req_id = queue.req_id_counter;
      status = fresh;
      sync_req = sync_req;
      submit_tsc = now;
    } in
    record t {
      queues =
          set t.queues i (record queue { req_id_counter = (queue.req_id_counter + 1) % 2 ^ 64 });
      pool = record t.pool {
        requests = set t.pool.requests p request;
        used_flags = set t.pool.used_flags p true;
        count = add32 t.pool.count 1;
      };
    }

unfoldable pub alloc_internal : Bool → ℕ → ℕ → Sys → Ptr × Sys
unfolding first_unused claim
alloc_internal sync_req tid now s =
    if leb s.pool.size s.pool.count then (none, s) else elim (first_unused 0 s.pool.used_flags) [
      | none ↦ (none, s)
      | some p ↦ (some p, claim sync_req tid now p s)
    ]

unfoldable pub request_alloc : ℕ → ℕ → Sys → Ptr × Sys
request_alloc tid now s = if not s.initialized then (none, s) else alloc_internal false tid now s

unfoldable pub sync_request_alloc : ℕ → ℕ → Sys → Ptr × Sys
sync_request_alloc tid now s =
    if not s.initialized then (none, s) else alloc_internal true tid now s

-- From the index on. A pointer that is not into the pool has the index that the subtraction gives.
unfoldable pub free_index : ℕ → Sys → Rc × Sys
free_index idx s =
    if leb s.pool.size idx
    then (fail einval, s)
    else (if not (get_or s.pool.used_flags idx false) then (fail einval, s) else (
      ok,
      record s {
        pool = record s.pool {
          used_flags = set s.pool.used_flags idx false;
          count = (s.pool.count + 2 ^ 32 - 1) % 2 ^ 32;
        };
      },
    ))

unfoldable pub request_free : Ptr → Sys → Rc × Sys
request_free req s =
    if not s.initialized
    then (fail einval, s)
    else elim req [ none ↦ (fail einval, s) | some p ↦ free_index (p % 2 ^ 32) s ]

-- The status is stored before the insertion is tried.
unfoldable pub submit_to : ℕ → ℕ → Sys → Rc × Sys
submit_to i p s =
    let queue = queue_at s i in
    let marked = record s.pool {
      requests = set s.pool.requests p (record (request_at s.pool p) { status = submitted });
    } in
    let (rc, ring) = Ring.enqueue queue.ring (some p) in
    if not (is_ready queue.status) then (fail ebusy, s) else elim rc [
      | ok ↦ (
        ok,
        record s {
          pool = marked;
          queues = set s.queues i (record queue { ring = ring; pending = add32 queue.pending 1 });
        },
      )
      | fail e ↦ (fail e, record s { pool = marked })
    ]

unfoldable pub request_submit : ℕ → Ptr → Sys → Rc × Sys
request_submit tid req s = if not s.initialized then (fail einval, s) else elim req [
  | none ↦ (fail einval, s)
  | some p ↦ let (i, t) = current_queue tid s in submit_to i p t
]

-- The wait of `xbdev_sync_request_execute`: what it sees of `done` and of the queue's status at the
-- start and after each wake-up. `none` where it still waits.
unfoldable pub await_done : List (Bool × QueueStatus) → Option Rc
await_done [] = none
await_done ((done, status) ∷ later) =
    let rest = await_done later in
    if not done && is_ready status
    then rest
    else some (if is_ready status then ok else fail ecanceled)

-- `seen` is what the wait sees while other threads run; the state is the one after the submission.
unfoldable pub sync_request_execute : ℕ → Ptr → List (Bool × QueueStatus) → Sys → Option Rc × Sys
unfolding await_done
sync_request_execute tid req seen s =
    if not s.initialized then (some (fail einval), s) else elim req [
      | none ↦ (some (fail einval), s)
      | some p ↦
          let (rc, t) = request_submit tid (some p) s in
          if not (request_at s.pool p).sync_req
          then (some (fail einval), s)
          else elim rc [ ok ↦ (await_done seen, t) | fail e ↦ (some (fail e), t) ]
    ]

unfoldable pub response_receive : Ptr → Sys → Rc
response_receive req s = if not s.initialized then fail einval else elim req [
  | none ↦ fail einval
  | some p ↦ if not (request_at s.pool p).done then fail eagain else ok
]

-- `xbdev_queue_stats_t`
pub record QueueStats : Type 0 where
  pub size : ℕ
  pub used : ℕ
  pub pending : ℕ
  pub id_counter : ℕ
  pub status : QueueStatus

-- `none` where nothing is stored through `stats`; `room` says whether `stats` is not NULL.
unfoldable pub queue_get_stats : ℕ → Bool → Sys → Rc × Option QueueStats
queue_get_stats queue_idx room s =
    if not s.initialized
    then (fail einval, none)
    else (if not room || leb s.num_queues queue_idx then (fail einval, none) else (
      ok,
      some (record {
        size = (queue_at s queue_idx).ring.size;
        used = Ring.used (queue_at s queue_idx).ring;
        pending = (queue_at s queue_idx).pending;
        id_counter = (queue_at s queue_idx).req_id_counter;
        status = (queue_at s queue_idx).status;
      }),
    ))
