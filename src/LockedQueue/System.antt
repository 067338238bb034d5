-- ===== src/LockedQueue/System.antt =====
-- The queue system of src/libxbdev/queue.c, `g_queue_system`: its state, start and end. Locks are
-- not modelled: each function runs alone. `thread_queue_idx` is the thread-local variable of
-- `get_queue_index`, by the value of `pthread_self`.
use nblock.Prelude.{
  ℕ, zero, suc, ◌+◌, ◌*◌, ◌%◌, ◌^◌, ◌==◌, Bool, true, false, not, ◌||◌, if◌then◌else◌, List, [],
  ◌∷◌, get_or, replicate,
}
use nblock.Prelude.Errno.{einval, enomem, ealready, other, Rc, ok, fail}
use nblock.Request.{Request, zero_request, Event}
use nblock.LockedQueue.{Queue, Env, init_queue, zero_queue}

pub record Pool : Type 0 where
  pub entries : List Request
  pub used : List Bool
  pub capacity : ℕ
  pub used_count : ℕ
  pub initialized : Bool

pub record Sys : Type 0 where
  pub req_queues : List Queue
  pub num_queues : ℕ
  pub req_pool : Pool
  pub next_req_id : ℕ
  pub initialized : Bool
  pub thread_queue_idx : ℕ → ℕ
  pub log : List Event

-- What the calls outside the library do: `queue i` for those of the queue `i`, the others for the
-- array of queues and the pool.
pub record SysEnv : Type 0 where
  pub queues_allocated : Bool
  pub queue : ℕ → Env
  pub pool_mutex : ℕ
  pub entries_allocated : Bool
  pub used_allocated : Bool

abbrev pub queue_at : Sys → ℕ → Queue
queue_at s i = get_or s.req_queues i zero_queue

-- A pointer to freed memory is an empty list here. The loop writes the values that `calloc` has
-- left already.
unfoldable pub init_request_pool : SysEnv → ℕ → Pool → Rc × Pool
init_request_pool env capacity pool =
    if capacity == 0
    then (fail einval, pool)
    else (if not (env.pool_mutex == 0)
        then (fail (other env.pool_mutex), pool)
        else (if not env.entries_allocated
            then (fail enomem, record pool { entries = [] })
            else (if not env.used_allocated
                then (fail enomem, record pool { entries = []; used = [] })
                else (
                  ok,
                  record {
                    entries = replicate capacity zero_request;
                    used = replicate capacity false;
                    capacity = capacity;
                    used_count = 0;
                    initialized = true;
                  },
                ))))

unfoldable pub destroy_request_pool : Pool → Pool
destroy_request_pool pool =
    if not pool.initialized
    then pool
    else record { entries = []; used = []; capacity = 0; used_count = 0; initialized = false }

-- The loop over the queues, `n` of them from `i` on. When one fails, those before it are destroyed
-- and the array is freed, so that none is left.
unfoldable pub init_queues : SysEnv → ℕ → ℕ → ℕ → Rc × List Queue
init_queues env capacity zero i = (ok, [])
init_queues env capacity (suc n) i =
    let (rc, q) = init_queue (env.queue i) capacity zero_queue in
    let (rc', qs) = init_queues env capacity n (i + 1) in
    elim rc [ ok ↦ elim rc' [ ok ↦ (ok, q ∷ qs) | fail e ↦ (fail e, []) ] | fail e ↦ (fail e, []) ]

-- What the two functions that start the system have in common: from the `calloc` of the array on.
unfoldable pub start : SysEnv → ℕ → ℕ → ℕ → Sys → Rc × Sys
start env queue_capacity num_queues pool_capacity s =
    let (rc, queues) = init_queues env queue_capacity num_queues 0 in
    let (rc', pool) = init_request_pool env pool_capacity s.req_pool in
    if not env.queues_allocated then (fail enomem, record s { req_queues = [] }) else elim rc [
      | fail e ↦ (fail e, record s { req_queues = [] })
      | ok ↦ elim rc' [
        | fail e ↦ (fail e, record s { req_queues = []; req_pool = pool })
        | ok ↦ (
          ok,
          record s {
            req_queues = queues;
            req_pool = pool;
            num_queues = num_queues;
            next_req_id = 1;
            initialized = true;
          },
        )
      ]
    ]

unfoldable pub queue_system_init : SysEnv → ℕ → ℕ → ℕ → Sys → Rc × Sys
queue_system_init env queue_capacity num_queues pool_capacity s =
    if s.initialized
    then (fail ealready, s)
    else (if queue_capacity == 0 || num_queues == 0 || pool_capacity == 0
        then (fail einval, s)
        else start env queue_capacity num_queues pool_capacity s)

-- `xbdev_queue_init`. The pool's size is a `uint32_t` product.
unfoldable pub queue_init : SysEnv → ℕ → ℕ → Sys → Rc × Sys
queue_init env queue_size num_queues s =
    if s.initialized
    then (fail ealready, s)
    else (if queue_size == 0 || num_queues == 0
        then (fail einval, s)
        else start env queue_size num_queues (queue_size * num_queues * 2 % 2 ^ 32) s)

-- `xbdev_queue_fini`, and `xbdev_queue_system_fini`, which does the same. The array of queues is
-- freed after each has been destroyed.
unfoldable pub queue_fini : Sys → Sys
queue_fini s = if not s.initialized then s else record s {
  req_queues = [];
  req_pool = destroy_request_pool s.req_pool;
  num_queues = 0;
  next_req_id = 0;
  initialized = false;
}

-- The thread's queue. An index of 0 counts as not chosen yet, and is chosen again.
unfoldable pub get_queue_index : ℕ → Sys → ℕ × Sys
get_queue_index self s =
    if s.thread_queue_idx self == 0
    then (
      self % s.num_queues % 2 ^ 32,
      record s {
        thread_queue_idx =
            λ t. if t == self then self % s.num_queues % 2 ^ 32 else s.thread_queue_idx t;
      },
    )
    else (s.thread_queue_idx self, s)
