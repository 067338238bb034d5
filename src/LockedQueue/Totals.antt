-- ===== src/LockedQueue/Totals.antt =====
-- The statistics of src/libxbdev/queue.c against the requests that the queues hold.
use native.Mathlib.Nat.{mod-eq_of_lt, div-le_of_le-mul}
use nblock.Prelude.{
  ℕ, ◌+◌, ◌*◌, ◌/◌, ◌^◌, ◌≤◌, ◌<◌, ◌≡◌, ap, ap₂, ◌∙◌, arith, true, List, [], ◌∷◌, some, length,
  length-append,
}
use nblock.Prelude.Errno.{ok}
use nblock.Ring.{add32}
use nblock.LockedQueue.{Queue}
use nblock.LockedQueue.System.{Sys}
use nblock.LockedQueue.Serve.{AllHold, nil, cons, in_order}
use nblock.LockedQueue.Stats.{QueueStats, sum_queues, usage_percent, get_queue_stats}

-- The sum of the capacities, which does not wrap.
abbrev pub total_capacity : List Queue → ℕ
total_capacity [] = 0
total_capacity (q ∷ queues) = q.capacity + total_capacity queues

sum_queues_lem :
    (queues : List Queue) (qs : List (List ℕ)) (capacity used : ℕ)
    → AllHold queues qs
    → capacity + total_capacity queues < 2 ^ 32
    → used ≤ capacity
    → let sums = sum_queues (length queues) queues capacity used in
      (sums.0 ≡ capacity + total_capacity queues)
      × (sums.1 ≡ used + length (in_order qs))
      × (used + length (in_order qs) ≤ capacity + total_capacity queues)
unfolding sum_queues
sum_queues_lem [] [] capacity used nil fits l = (omega arith, omega arith, omega arith)
sum_queues_lem [] (_ ∷ _) capacity used h fits l = elim h [ ]
sum_queues_lem (_ ∷ _) [] capacity used h fits l = elim h [ ]
sum_queues_lem (queue ∷ queues) (q ∷ qs) capacity used (cons h hs) fits l =
    let (sum, sum', le) =
      sum_queues_lem queues qs (capacity + queue.capacity) (used + queue.size) hs (omega arith)
        (omega (arith, h.size_is, h.bounded)) in
    let here =
      ap₂ (λ c u. sum_queues (length queues) queues c u) {x = add32 capacity queue.capacity}
        {y = capacity + queue.capacity} {u = add32 used queue.size} {v = used + queue.size}
        (omega arith) (omega (arith, h.size_is, h.bounded)) in
    (
      ap (λ r. r.0) here ∙ (sum ∙ omega arith),
      ap (λ r. r.1) here ∙ (sum' ∙ omega (arith, h.size_is, length-append q (in_order qs))),
      omega (arith, le, h.size_is, length-append q (in_order qs)),
    )

at_most : (used capacity : ℕ) → used ≤ capacity → 0 < capacity → used * 100 / capacity ≤ 100
at_most used capacity l some_room = div-le_of_le-mul capacity (omega arith)

-- What `xbdev_get_queue_stats` reports of a started system whose queues hold `qs`, when a hundred
-- times the sum of the capacities is less than 2^32: the number of requests in the queues, the sum of the
-- capacities, and the first as a percentage of the second, rounded down, which is at most 100.
pub get_queue_stats_lem :
    (s : Sys) (qs : List (List ℕ))
    → s.initialized ≡ true
    → s.num_queues ≡ length s.req_queues
    → AllHold s.req_queues qs
    → 0 < total_capacity s.req_queues
    → total_capacity s.req_queues * 100 < 2 ^ 32
    → (stats : QueueStats) × (get_queue_stats true s ≡ (ok, some stats))
      × (stats.queue_used ≡ length (in_order qs))
      × (stats.queue_capacity ≡ total_capacity s.req_queues)
      × (stats.queue_usage_percent ≤ 100)
      × (stats.queue_usage_percent ≡ stats.queue_used * 100 / stats.queue_capacity)
unfolding get_queue_stats usage_percent
get_queue_stats_lem s qs up count h some_room fits =
    let sums = sum_queues (length s.req_queues) s.req_queues 0 0 in
    let (capacity, used, le) = sum_queues_lem s.req_queues qs 0 0 h (omega arith) (omega arith) in
    let percent : usage_percent sums.1 sums.0 ≡ sums.1 * 100 / sums.0 =
      ground (arith, capacity, used, le, mod-eq_of_lt {n = sums.1 * 100} {m = 2 ^ 32}) in
    let stats : QueueStats = record {
      num_queues = s.num_queues;
      queue_capacity = sums.0;
      queue_used = sums.1;
      queue_usage_percent = usage_percent sums.1 sums.0;
      request_pool_capacity = s.req_pool.capacity;
      request_pool_used = s.req_pool.used_count;
      pool_usage_percent = usage_percent s.req_pool.used_count s.req_pool.capacity;
    } in
    (
      stats,
      ground (arith, count),
      used ∙ omega arith,
      capacity ∙ omega arith,
      omega (
        arith,
        percent,
        at_most sums.1 sums.0 (omega (arith, capacity, used, le)) (omega (arith, capacity)),
      ),
      percent,
    )
