-- ===== src/ReqQueue/Tests.antt =====
-- The theorems on the queue system of src/libxbdev/request_queue.c at a system with one ready queue
-- of four slots, which holds two requests across the end of its ring, and a pool of four requests.
use nblock.Prelude.{
  ℕ, zero, suc, ◌<◌, ◌≡◌, refl, arith, true, false, [], ◌∷◌, none, some, replicate,
}
use nblock.Ring
use nblock.Ring.Inv.{IsValid}
use nblock.Ring.Refine.{Holds}
use nblock.Ring.Tests.{wrapped_ring, wrapped_ring-IsValid, wrapped_ring-Holds}
use nblock.Request.{Request, zero_request, Handler}
use nblock.ReqQueue.State.{Queue, Sys, ready, stopping, zero_queue, current_queue, queue_at}
use nblock.ReqQueue.State as State
use nblock.ReqQueue.Align.{align, IsAligned}
use nblock.ReqQueue.Setup.{Env, init, init_aligned, init_queues, init_queue, init_pool}
use nblock.ReqQueue.Process.{Work, drain, process}
use nblock.ReqQueue.Init.{IsUp, init-IsUp}
use nblock.ReqQueue.Pool as Pool
use nblock.ReqQueue.Drain.{serve_all, drain-serve_all}
use nblock.ReqQueue.Rounds.{Turn, Loaded, process-Turn}

abbrev small_pool : State.Pool
small_pool = record {
  requests = replicate 8 zero_request;
  used_flags = true ∷ replicate 7 false;
  size = 8;
  count = 1;
}

small_pool-IsValid : Pool.IsValid small_pool
small_pool-IsValid = record {
  requests_size = refl;
  flags_size = refl;
  counted = refl;
  in_word = omega arith;
}

abbrev busy_queue : Queue
busy_queue = record { status = ready; ring = wrapped_ring; pending = 2; req_id_counter = 9 }

abbrev running : Sys
running = record {
  initialized = true;
  queues = busy_queue ∷ replicate 15 zero_queue;
  num_queues = 1;
  queue_size = 4;
  thread_queue = λ _. 0;
  next_queue_idx = 0;
  pool = small_pool;
  log = [];
}

-- A handler that completes its request.
abbrev finish : Handler → Request → Request
finish h r = record r { done = true }

abbrev work : Work
work = record { ring = wrapped_ring; pending = 2; requests = replicate 8 zero_request; log = [] }

drain-serve_all_example :
    (ring : Ring.Ring) × (drain finish 9 3 work
      ≡ some (record (serve_all finish 9 (5 ∷ 6 ∷ []) work) { ring = ring }))
    × IsValid 2 ring
    × Holds 2 ring []
drain-serve_all_example =
    drain-serve_all finish 9 2 3 (5 ∷ 6 ∷ []) work wrapped_ring-IsValid wrapped_ring-Holds
      (omega arith)

running-Loaded : (j : ℕ) → j < 1 → Loaded 2 (queue_at running j)
running-Loaded zero l = (5 ∷ 6 ∷ [], wrapped_ring-IsValid, wrapped_ring-Holds)
running-Loaded (suc j) l = absurd (omega arith)

process-Turn_example :
    (t : Sys) × (process finish 9 running ≡ some t)
    × ((j : ℕ) → j < 1 → Turn 2 (queue_at running j) (queue_at t j))
process-Turn_example = process-Turn finish 9 2 running refl (omega arith) running-Loaded

-- The calls outside the library succeed.
abbrev calm : Env
calm = record {
  key_create = 0;
  mutex_init = 0;
  ring_allocated = λ _. true;
  requests_allocated = true;
  flags_allocated = true;
}

abbrev down : Sys
down = record running { initialized = false }

-- The state of a system that was set up with two queues for 3 requests each.
abbrev started : Sys
unfolding init
started = elim (init calm 3 2 down) [ none ↦ down | some r ↦ r.1 ]

init-IsUp_example : (k : ℕ) × IsAligned 3 k × IsUp k 2 started
unfolding init align init_aligned init_queues init_queue Ring.init init_pool
init-IsUp_example = init-IsUp calm 3 2 down started refl
