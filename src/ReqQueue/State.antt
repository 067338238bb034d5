-- ===== src/ReqQueue/State.antt =====
-- The types and globals of src/libxbdev/request_queue.c. Locks are not modelled: each function
-- runs alone. `thread_queue` is the thread-local value under `thread_queue_key`, by thread.
use nblock.Prelude.{ℕ, ◌+◌, ◌-◌, ◌%◌, ◌==◌, if◌then◌else◌, Bool, true, false, List, [], get_or}
use nblock.Ring.{Ring, add32}
use nblock.Request.{Request, Event}

pub data QueueStatus : Type 0 where
  uninitialized ready stopping : QueueStatus

abbrev pub is_ready : QueueStatus → Bool
is_ready uninitialized = false
is_ready ready = true
is_ready stopping = false

pub record Queue : Type 0 where
  pub status : QueueStatus
  pub ring : Ring
  pub pending : ℕ
  pub req_id_counter : ℕ

abbrev pub zero_ring : Ring
zero_ring = record { head = 0; tail = 0; size = 0; mask = 0; buffer = [] }

abbrev pub zero_queue : Queue
zero_queue = record { status = uninitialized; ring = zero_ring; pending = 0; req_id_counter = 0 }

pub record Pool : Type 0 where
  pub requests : List Request
  pub used_flags : List Bool
  pub size : ℕ
  pub count : ℕ

pub record Sys : Type 0 where
  pub initialized : Bool
  pub queues : List Queue
  pub num_queues : ℕ
  pub queue_size : ℕ
  pub thread_queue : ℕ → ℕ
  pub next_queue_idx : ℕ
  pub pool : Pool
  pub log : List Event

-- XBDEV_MAX_QUEUES
abbrev pub max_queues : ℕ
max_queues = 16

-- `get_current_thread_queue` for the thread `tid`: the index of its queue. A thread keeps the queue
-- that it got at its first call.
unfoldable pub current_queue : ℕ → Sys → ℕ × Sys
current_queue tid s =
    if s.thread_queue tid == 0
    then (
      s.next_queue_idx % s.num_queues,
      record s {
        next_queue_idx = add32 s.next_queue_idx 1;
        thread_queue =
            λ t. if t == tid then s.next_queue_idx % s.num_queues + 1 else s.thread_queue t;
      },
    )
    else (s.thread_queue tid - 1, s)

abbrev pub queue_at : Sys → ℕ → Queue
queue_at s i = get_or s.queues i zero_queue
