-- ===== src/IoBatch.antt =====
-- src/libxbdev/io.c: batches of I/O requests, which take their requests from the pool of
-- src/libxbdev/queue.c and go to its queues together.
pub mod Wait
pub mod Undo
pub mod Submit
pub mod Tests
use nblock.Prelude.{
  ℕ, ◌+◌, ◌-◌, ◌*◌, ◌/◌, ◌%◌, ◌^◌, ◌==◌, ltb, leb, if◌then◌else◌, Bool, true, false, not, ◌&&◌,
  ◌||◌, List, [], ◌∷◌, ◌++◌, Option, none, some, map, length, get_or, set,
}
use nblock.Prelude.Errno.{einval, enomem, eperm, Rc, ok, fail}
use nblock.Request.{Kind, read, write, flush, unmap, reset, Request, zero_request}
use nblock.LockedQueue.System.{Pool, Sys}
use nblock.LockedQueue.Client.{
  request_at, alloc_request_from_pool, free_request_to_pool, batch_requests,
}

-- `op_type`; `other_op` is a number that is none of the constants.
pub data OpType : Type 0 where
  op_read op_write op_flush op_unmap op_reset : OpType
  other_op : ℕ → OpType

-- `buf` is an address.
pub record IoRequest : Type 0 where
  pub fd : ℕ
  pub buf : Option ℕ
  pub count : ℕ
  pub offset : ℕ
  pub op_type : OpType
  pub status : Rc
  pub completed : Bool

-- `reqs` are the first `num_requests` places of the array.
pub record IoBatch : Type 0 where
  pub max_requests : ℕ
  pub reqs : List IoRequest
  pub submitted : Bool

-- The two flags are the answers of `calloc`. A negative number is 0 here.
unfoldable pub io_batch_create : Bool → Bool → ℕ → Option IoBatch
io_batch_create batch_allocated reqs_allocated max_requests =
    if max_requests == 0
    then none
    else (if not batch_allocated || not reqs_allocated
        then none
        else (some (record { max_requests = max_requests; reqs = []; submitted = false })))

unfoldable pub io_batch_add : ℕ → Option ℕ → ℕ → ℕ → OpType → Option IoBatch → Rc × Option IoBatch
io_batch_add fd buf count offset op_type none = (fail einval, none)
io_batch_add fd buf count offset op_type (some batch) =
    let req : IoRequest = record {
      fd = fd;
      buf = buf;
      count = count;
      offset = offset;
      op_type = op_type;
      status = ok;
      completed = false;
    } in
    if batch.submitted
    then (fail eperm, some batch)
    else (if leb batch.max_requests (length batch.reqs)
        then (fail enomem, some batch)
        else (ok, some (record batch { reqs = batch.reqs ++ req ∷ [] })))

-- The switch on the type.
abbrev pub kind_of : OpType → Option Kind
kind_of op_read = some read
kind_of op_write = some write
kind_of op_flush = some flush
kind_of op_unmap = some unmap
kind_of op_reset = some reset
kind_of (other_op n) = none

-- The type and the context that are stored in a request. The context points to a request of the
-- batch and is its index.
unfoldable pub set_up : ℕ → Kind → ℕ → Sys → Sys
set_up p kind i s = record s {
  req_pool = record s.req_pool {
    entries =
        set s.req_pool.entries p (record (request_at s.req_pool p) { kind = kind; ctx = some i });
  };
}

-- `xbdev_request_free` on each of some requests, whose results are not looked at.
unfoldable pub free_all : List ℕ → Sys → Sys
free_all [] s = s
free_all (p ∷ ps) s = free_all ps (free_request_to_pool (some p) s).1

-- The loop over the requests of the batch, from the index i on; `reqs` are those allocated so far.
unfoldable pub prepare : ℕ → List IoRequest → List ℕ → Sys → Rc × List ℕ × Sys
prepare i [] reqs s = (ok, reqs, s)
prepare i (io_req ∷ io_reqs) reqs s =
    let (req, t) = alloc_request_from_pool false s in
    elim req [
      | none ↦ (fail enomem, [], free_all reqs t)
      | some p ↦ elim (kind_of io_req.op_type) [
        | none ↦ (fail einval, [], free_all reqs (free_request_to_pool (some p) t).1)
        | some kind ↦ prepare (i + 1) io_reqs (reqs ++ p ∷ []) (set_up p kind i t)
      ]
    ]

-- The part after the loop. The number is what the function returns where the code is 0.
unfoldable pub send_batch : ℕ → ℕ → IoBatch → Rc × List ℕ × Sys → Rc × ℕ × Option IoBatch × Sys
send_batch self now batch (fail e, reqs, s) = (fail e, 0, some batch, s)
send_batch self now batch (ok, reqs, s) =
    let (rc, number, t) = batch_requests self now (map some reqs) s in
    elim rc [
      | fail e ↦ (fail e, 0, some batch, free_all reqs t)
      | ok ↦ (ok, length reqs, some (record batch { submitted = true }), t)
    ]

-- `allocated` is whether the array of pointers is allocated.
unfoldable pub io_batch_submit : ℕ → ℕ → Bool → Option IoBatch → Sys → Rc × ℕ × Option IoBatch × Sys
io_batch_submit self now allocated none s = (fail einval, 0, none, s)
io_batch_submit self now allocated (some batch) s =
    if batch.submitted
    then (fail eperm, 0, some batch, s)
    else (if length batch.reqs == 0
        then (ok, 0, some batch, s)
        else (if not allocated
            then (fail enomem, 0, some batch, s)
            else send_batch self now batch (prepare 0 batch.reqs [] s)))

unfoldable pub all_completed : List IoRequest → Bool
all_completed [] = true
all_completed (req ∷ reqs) =
    let rest = all_completed reqs in if not req.completed then false else rest

unfoldable pub io_batch_is_complete : Option IoBatch → Bool
io_batch_is_complete none = false
io_batch_is_complete (some batch) = if not batch.submitted then false else all_completed batch.reqs

-- The results that are copied, or an error.
unfoldable pub io_batch_get_results : Bool → Option IoBatch → Rc × List Rc
io_batch_get_results has_results none = (fail einval, [])
io_batch_get_results has_results (some batch) =
    if not has_results
    then (fail einval, [])
    else (if not batch.submitted
        then (fail eperm, [])
        else (ok, map (λ (r : IoRequest). r.status) batch.reqs))

-- What one round of `xbdev_io_batch_wait` reads: for each request its flag, twice, and the ticks.
pub record Round : Type 0 where
  pub flags : List (Bool × Bool)
  pub ticks : ℕ

-- How many requests the loop over them counts: those not completed at the first look and completed
-- at the second.
unfoldable pub count_round : List (Bool × Bool) → ℕ
count_round [] = 0
count_round ((first, second) ∷ flags) =
    let rest = count_round flags in if not first then (if second then 1 + rest else rest) else rest

-- `elapsed_us >= timeout_us`, in `uint64_t` arithmetic. `hz` is what `spdk_get_ticks_hz` returns.
abbrev pub is_expired : ℕ → ℕ → ℕ → ℕ → Bool
is_expired hz timeout_us start ticks =
    ltb 0 timeout_us
    && leb timeout_us ((((ticks + 2 ^ 64) - start) % 2 ^ 64 * 1000000) % 2 ^ 64 / hz)

-- The loop; `none` where the rounds end and it still waits.
unfoldable pub wait_loop : ℕ → ℕ → ℕ → ℕ → ℕ → List Round → Option ℕ
wait_loop hz timeout_us start number completed [] =
    if ltb completed number then none else some completed
wait_loop hz timeout_us start number completed (round ∷ rounds) =
    let now = completed + count_round round.flags in
    let rest = wait_loop hz timeout_us start number now rounds in
    if not (ltb completed number)
    then some completed
    else (if now == number
        then some now
        else (if is_expired hz timeout_us start round.ticks then some now else rest))

-- An error, or the number that is returned.
unfoldable pub io_batch_wait : ℕ → ℕ → ℕ → Option IoBatch → List Round → Option (Rc × ℕ)
io_batch_wait hz timeout_us start none rounds = some (fail einval, 0)
io_batch_wait hz timeout_us start (some batch) rounds =
    if not batch.submitted
    then some (fail eperm, 0)
    else (elim (wait_loop hz timeout_us start (length batch.reqs) 0 rounds) [
      | none ↦ none
      | some number ↦ some (ok, number)
    ])
