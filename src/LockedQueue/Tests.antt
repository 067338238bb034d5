-- ===== src/LockedQueue/Tests.antt =====
-- The theorems on src/libxbdev/queue.c at a system with one queue of three entries, which holds two
-- requests across the end of its array, and a pool of four requests.
use mathlib.Core.Path.{subst, ◌∙◌}
use nblock.Prelude.{
  ℕ, zero, suc, ◌≤◌, ◌<◌, ◌≡◌, ◌≢◌, ◌⊎◌, refl, sym, arith, Bool, true, false, List, [], ◌∷◌, ◌++◌,
  none, some, get_or, replicate,
}
use nblock.Prelude.Errno.{ok, eagain, fail}
use nblock.Fifo
use nblock.Fifo.{Op, put, get}
use nblock.Request.{Request, zero_request, Handler}
use nblock.Flags.{none_used}
use nblock.LockedQueue.{Queue}
use nblock.LockedQueue.Refine.{Holds, calls, calls_refine}
use nblock.LockedQueue.System.{Pool, Sys, SysEnv, queue_at, get_queue_index}
use nblock.LockedQueue.Client.{claim, alloc_request_from_pool, batch_requests}
use nblock.LockedQueue.Wait.{Meanwhile, request_wait}
use nblock.LockedQueue.Process.{process_request_queues}
use nblock.LockedQueue.Batch.{batch_requests_lem}
use nblock.LockedQueue.Serve.{AllHold, nil, cons, in_order, serve_all, process_request_queues_lem}
use nblock.LockedQueue.Deadline.{IsDeadline, until_of, ending, wait_error, request_wait_lem}
use nblock.LockedQueue.Pool.{IsValid, InUse, alloc_request_from_pool_lem}

abbrev wrapped_queue : Queue
wrapped_queue = record {
  entries = some 1 ∷ none ∷ some 0 ∷ [];
  capacity = 3;
  head = 2;
  tail = 1;
  size = 2;
  initialized = true;
}

wrapped_queue-Holds : Holds wrapped_queue (0 ∷ 1 ∷ [])
wrapped_queue-Holds = record {
  has_room = omega arith;
  in_word = omega arith;
  storage = refl;
  head_in = omega arith;
  tail_at = refl;
  size_is = refl;
  bounded = omega arith;
  slots = refl;
}

-- The second request does not fit.
abbrev calls_made : List Op
calls_made = put 2 ∷ put 3 ∷ get ∷ put 3 ∷ []

calls_refine_example :
    let (replies, q') = Fifo.run eagain 3 (0 ∷ 1 ∷ []) calls_made in
    (queue' : Queue) × (calls wrapped_queue calls_made ≡ some (replies, queue')) × Holds queue' q'
calls_refine_example = calls_refine 3 calls_made wrapped_queue (0 ∷ 1 ∷ []) refl wrapped_queue-Holds

-- The request 0 is in use.
abbrev small_pool : Pool
small_pool = record {
  entries = replicate 4 zero_request;
  used = true ∷ replicate 3 false;
  capacity = 4;
  used_count = 1;
  initialized = true;
}

abbrev pub running : Sys
running = record {
  req_queues = wrapped_queue ∷ [];
  num_queues = 1;
  req_pool = small_pool;
  next_req_id = 1;
  initialized = true;
  thread_queue_idx = λ _. 0;
  log = [];
}

running-AllHold : AllHold running.req_queues ((0 ∷ 1 ∷ []) ∷ [])
running-AllHold = cons wrapped_queue-Holds nil

only_first : (p : ℕ) → InUse small_pool p → p ≡ 0
only_first zero on = refl
only_first (suc p) on = absurd (cc (on, none_used 3 p))

pub running-IsValid : IsValid running
running-IsValid = record {
  entries_size = refl;
  used_size = refl;
  counted = refl;
  in_word = omega arith;
  below = λ p on.
      subst (λ q. (get_or small_pool.entries q zero_request).req_id < 1) (sym (only_first p on))
        (omega arith);
  distinct = λ p q on on' _. only_first p on ∙ sym (only_first q on');
}

-- A handler that stores its result.
abbrev finish : Handler → Request → Request
finish h r = record r { done = true }

abbrev no_custom : ℕ → Request → Request
no_custom f r = r

process_request_queues_lem_example :
    (rest : List (List ℕ)) × ((0 ∷ 1 ∷ []) ++ in_order rest ≡ 0 ∷ 1 ∷ [])
    × (queues : List Queue) × AllHold queues rest
    × (process_request_queues finish no_custom 9 running
        ≡ record (serve_all finish no_custom 9 (0 ∷ 1 ∷ []) running) { req_queues = queues })
process_request_queues_lem_example =
    process_request_queues_lem finish no_custom 9 running ((0 ∷ 1 ∷ []) ∷ []) refl refl
      running-AllHold

batch_requests_lem_example :
    let (i, t) = get_queue_index 5 running in
    let (rc, submitted, u) = batch_requests 5 7 (some 2 ∷ []) running in
    (((queue_at t i).capacity < 3) × (rc ≡ fail eagain) × (u ≡ t))
    ⊎ ((3 ≤ (queue_at t i).capacity)
        × (rc ≡ ok)
        × (submitted ≡ 1)
        × Holds (queue_at u i) (0 ∷ 1 ∷ 2 ∷ []))
unfolding get_queue_index
batch_requests_lem_example =
    batch_requests_lem 5 7 (some 2 ∷ []) running (0 ∷ 1 ∷ []) refl (λ e. omega (arith, e))
      (omega arith) (omega arith) wrapped_queue-Holds

alloc_request_from_pool_lem_example :
    ((running.req_pool.used_count ≡ 4) × (alloc_request_from_pool true running ≡ (none, running)))
    ⊎ ((p : ℕ) × (alloc_request_from_pool true running ≡ (some p, claim true p running))
        × (p < 4)
        × (get_or small_pool.used p true ≡ false)
        × ((j : ℕ) → j < p → InUse small_pool j)
        × IsValid (claim true p running))
alloc_request_from_pool_lem_example =
    alloc_request_from_pool_lem true running running-IsValid refl (omega arith)

-- A wake-up without reason, then one that finds the request done.
abbrev two_wakeups : Meanwhile
two_wakeups = record { done_at_lock = false; wakeups = λ until. (0, false) ∷ (0, true) ∷ [] }

request_wait_lem_example :
    let result = request_wait two_wakeups (7, 0) (some 0) 500 running in
    IsDeadline 500 (7, 0) (until_of 500 (7, 0))
    × (((false ≡ true) × (result ≡ some ok))
        ⊎ ((false ≡ false)
            × (((ending ((0, false) ∷ (0, true) ∷ []) ≡ none) × (result ≡ none))
                ⊎ ((rc : ℕ) × (done : Bool) × (ending ((0, false) ∷ (0, true) ∷ [])
                      ≡ some (rc, done))
                    × (((rc ≢ 0) × (result ≡ some (wait_error rc)))
                        ⊎ ((rc ≡ 0) × (done ≡ true) × (result ≡ some ok)))))))
request_wait_lem_example = request_wait_lem two_wakeups (7, 0) 0 500 running (omega arith) refl refl

-- The calls outside the library succeed.
abbrev calm : SysEnv
calm = record {
  queues_allocated = true;
  queue = λ _. record { mutex_init = 0; cond_init = 0; allocated = true };
  pool_mutex = 0;
  entries_allocated = true;
  used_allocated = true;
}

abbrev down : Sys
down = record running { initialized = false; req_queues = []; num_queues = 0 }
