-- ===== src/LockedQueue/Stats.antt =====
-- `xbdev_get_queue_stats` of src/libxbdev/queue.c.
use nblock.Prelude.{
  ℕ, zero, suc, ◌*◌, ◌/◌, ◌%◌, ◌^◌, ltb, if◌then◌else◌, Bool, not, List, [], ◌∷◌, Option, none,
  some,
}
use nblock.Prelude.Errno.{einval, Rc, ok, fail}
use nblock.Ring.{add32}
use nblock.LockedQueue.{Queue}
use nblock.LockedQueue.System.{Sys}

-- `struct xbdev_queue_stats`, without the fields that stay 0.
pub record QueueStats : Type 0 where
  pub num_queues : ℕ
  pub queue_capacity : ℕ
  pub queue_used : ℕ
  pub queue_usage_percent : ℕ
  pub request_pool_capacity : ℕ
  pub request_pool_used : ℕ
  pub pool_usage_percent : ℕ

-- The loop over the queues: the two sums, in `uint32_t`.
unfoldable pub sum_queues : ℕ → List Queue → ℕ → ℕ → ℕ × ℕ
sum_queues zero queues capacity used = (capacity, used)
sum_queues (suc n) [] capacity used = (capacity, used)
sum_queues (suc n) (q ∷ queues) capacity used =
    sum_queues n queues (add32 capacity q.capacity) (add32 used q.size)

-- The percentage in `uint32_t`, which stays 0 for a capacity of 0.
unfoldable pub usage_percent : ℕ → ℕ → ℕ
usage_percent used capacity = if ltb 0 capacity then used * 100 % 2 ^ 32 / capacity else 0

-- `none` where nothing is stored through `stats`; `room` says whether `stats` is not NULL.
unfoldable pub get_queue_stats : Bool → Sys → Rc × Option QueueStats
get_queue_stats room s =
    let (capacity, used) = sum_queues s.num_queues s.req_queues 0 0 in
    if not room
    then (fail einval, none)
    else (if not s.initialized then (fail einval, none) else (
      ok,
      some (record {
        num_queues = s.num_queues;
        queue_capacity = capacity;
        queue_used = used;
        queue_usage_percent = usage_percent used capacity;
        request_pool_capacity = s.req_pool.capacity;
        request_pool_used = s.req_pool.used_count;
        pool_usage_percent = usage_percent s.req_pool.used_count s.req_pool.capacity;
      }),
    ))
