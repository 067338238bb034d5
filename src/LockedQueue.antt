-- ===== src/LockedQueue.antt =====
-- src/libxbdev/queue.c: the request queue under a mutex, `xbdev_queue_t`, with its own pool and its
-- own queue system. This module holds the operations of one queue; the children model the rest.
-- A queue pointer is never NULL: every call passes an element of `req_queues`. A request pointer
-- is the request's place in the pool, and NULL is `none`.
pub mod Refine
pub mod Tests
pub mod System
pub mod Client
pub mod Wait
pub mod Process
pub mod Stats
pub mod Batch
pub mod Serve
pub mod Deadline
pub mod Pool
pub mod Start
pub mod Submit
pub mod Totals
use nblock.Prelude.{
  ℕ, zero, suc, ◌+◌, ◌-◌, ◌%◌, ◌^◌, ◌==◌, ltb, leb, Bool, true, false, not, ◌&&◌, if◌then◌else◌,
  List, [], ◌∷◌, Option, none, some, get_or, set, replicate, length,
}
use nblock.Prelude.Errno.{einval, enomem, eagain, other, Rc, ok, fail}
use nblock.Ring.{Ptr, add32}

-- `xbdev_queue_t` without the mutex and the condition.
pub record Queue : Type 0 where
  pub entries : List Ptr
  pub capacity : ℕ
  pub head : ℕ
  pub tail : ℕ
  pub size : ℕ
  pub initialized : Bool

-- What `pthread_mutex_init`, `pthread_cond_init` and `calloc` do.
pub record Env : Type 0 where
  pub mutex_init : ℕ
  pub cond_init : ℕ
  pub allocated : Bool

unfoldable pub init_queue : Env → ℕ → Queue → Rc × Queue
init_queue env capacity q =
    if capacity == 0
    then (fail einval, q)
    else (if not (env.mutex_init == 0)
        then (fail (other env.mutex_init), q)
        else (if not (env.cond_init == 0)
            then (fail (other env.cond_init), q)
            else (if not env.allocated then (fail enomem, record q { entries = [] }) else (
              ok,
              record {
                entries = replicate capacity none;
                capacity = capacity;
                head = 0;
                tail = 0;
                size = 0;
                initialized = true;
              },
            ))))

unfoldable pub destroy_queue : Queue → Queue
destroy_queue q =
    if not q.initialized
    then q
    else record { entries = []; capacity = 0; head = 0; tail = 0; size = 0; initialized = false }

-- The three assignments that put a request in; `enqueue_request` and `xbdev_batch_requests` have
-- them in common.
unfoldable pub store : Queue → Ptr → Queue
store q req = record q {
  entries = set q.entries q.tail req;
  tail = add32 q.tail 1 % q.capacity;
  size = add32 q.size 1;
}

unfoldable pub enqueue_request : Ptr → Queue → Rc × Queue
enqueue_request none q = (fail einval, q)
enqueue_request (some p) q =
    if leb q.capacity q.size then (fail eagain, q) else (ok, store q (some p))

-- One return of `pthread_cond_wait`: its code, and what other threads did to the queue meanwhile.
pub record Wakeup : Type 0 where
  pub rc : ℕ
  pub others : Queue → Queue

-- From the second test of the size on. The middle part is what `*req_out` holds.
unfoldable pub take_entry : Queue → Rc × Ptr × Queue
take_entry q = if q.size == 0 then (fail eagain, none, q) else (
  ok,
  get_or q.entries q.head none,
  record q {
    entries = set q.entries q.head none;
    head = add32 q.head 1 % q.capacity;
    size = q.size - 1;
  },
)

-- `none` where the call still waits after the given wake-ups.
unfoldable pub dequeue_request : Bool → List Wakeup → Queue → Option (Rc × Ptr × Queue)
dequeue_request wait [] q = if (q.size == 0) && wait then none else some (take_entry q)
dequeue_request wait (w ∷ later) q =
    let rest = dequeue_request wait later (w.others q) in
    if (q.size == 0) && wait
    then (if w.rc == 0 then rest else some (fail (other w.rc), none, w.others q))
    else some (take_entry q)

-- What `calloc` leaves.
abbrev pub zero_queue : Queue
zero_queue = record {
  entries = [];
  capacity = 0;
  head = 0;
  tail = 0;
  size = 0;
  initialized = false;
}
