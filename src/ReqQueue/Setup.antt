-- ===== src/ReqQueue/Setup.antt =====
-- `xbdev_queue_init` and `xbdev_queue_fini` of src/libxbdev/request_queue.c.
use nblock.Prelude.{
  ℕ, zero, suc, ◌+◌, ◌*◌, ◌%◌, ◌^◌, ◌==◌, ltb, if◌then◌else◌, Bool, true, false, not, ◌||◌, List,
  [], ◌∷◌, Option, none, some, replicate,
}
use nblock.Prelude.Errno.{einval, eexist, enomem, other, Rc, ok, fail}
use nblock.Ring
use nblock.Ring.{add32}
use nblock.Request.{zero_request}
use nblock.ReqQueue.State.{Queue, Sys, ready, stopping, zero_queue, max_queues}
use nblock.ReqQueue.Align.{align}

-- What the calls outside the library return: 0 or an error number of the two `pthread` calls, and
-- whether each allocation succeeds (`ring_allocated i` for the ring of queue `i`).
pub record Env : Type 0 where
  pub key_create : ℕ
  pub mutex_init : ℕ
  pub ring_allocated : ℕ → Bool
  pub requests_allocated : Bool
  pub flags_allocated : Bool

unfoldable pub init_queue : Env → ℕ → ℕ → Queue → Rc × Queue
init_queue env aligned i q =
    let (rc, ring) = Ring.init (env.ring_allocated i) aligned q.ring in
    elim rc [
      | ok ↦ (
        ok,
        record {
          status = ready;
          ring = ring;
          pending = 0;
          req_id_counter = (i * 2 ^ 32 + 1) % 2 ^ 64;
        },
      )
      | fail e ↦ (fail e, record q { ring = ring })
    ]

unfoldable pub fini_queue : Queue → Queue
fini_queue q = record q { ring = Ring.fini q.ring }

-- The loop over the first `n` queues of the list, which starts at queue `i`. When one fails, those
-- before it are cleaned up.
unfoldable pub init_queues : Env → ℕ → ℕ → ℕ → List Queue → Rc × List Queue
init_queues env aligned zero i qs = (ok, qs)
init_queues env aligned (suc n) i [] = (ok, [])
init_queues env aligned (suc n) i (q ∷ qs) =
    let (rc, q') = init_queue env aligned i q in
    let (rc', qs') = init_queues env aligned n (i + 1) qs in
    elim rc [
      | ok ↦ elim rc' [ ok ↦ (ok, q' ∷ qs') | fail e ↦ (fail e, fini_queue q' ∷ qs') ]
      | fail e ↦ (fail e, q' ∷ qs)
    ]

-- The clean-up of the first `n` queues.
unfoldable pub fini_queues : ℕ → List Queue → List Queue
unfolding fini_queue
fini_queues zero qs = qs
fini_queues (suc n) [] = []
fini_queues (suc n) (q ∷ qs) = fini_queue q ∷ fini_queues n qs

-- The request pool, once the queues stand.
unfoldable pub init_pool : Env → ℕ → ℕ → Sys → Rc × Sys
init_pool env aligned num_queues s =
    let pool_size = aligned * num_queues * 2 % 2 ^ 32 in
    if not env.requests_allocated
    then (
      fail enomem,
      record s {
        queues = fini_queues num_queues s.queues;
        pool = record s.pool { size = pool_size; count = 0; requests = [] };
      },
    )
    else (if not env.flags_allocated
        then (
          fail enomem,
          record s {
            queues = fini_queues num_queues s.queues;
            pool = record { size = pool_size; count = 0; requests = []; used_flags = [] };
          },
        )
        else (
          ok,
          record s {
            initialized = true;
            pool = record {
              size = pool_size;
              count = 0;
              requests = replicate pool_size zero_request;
              used_flags = replicate pool_size false;
            };
          },
        ))

-- From the `memset` on. Each early return leaves the state as it was then.
unfoldable pub init_aligned : Env → ℕ → ℕ → Sys → Rc × Sys
init_aligned env aligned num_queues s =
    let cleared : Sys = record {
      initialized = false;
      queues = replicate max_queues zero_queue;
      num_queues = num_queues;
      queue_size = aligned;
      thread_queue = λ _. 0;
      next_queue_idx = 0;
      pool = s.pool;
      log = s.log;
    } in
    let (rc, qs) = init_queues env aligned num_queues 0 cleared.queues in
    if not (env.key_create == 0)
    then (fail (other env.key_create), cleared)
    else (if not (env.mutex_init == 0) then (fail (other env.mutex_init), cleared) else elim rc [
      | ok ↦ init_pool env aligned num_queues (record cleared { queues = qs })
      | fail e ↦ (fail e, record cleared { queues = qs })
    ])

-- `none` where the alignment loop does not end.
unfoldable pub init : Env → ℕ → ℕ → Sys → Option (Rc × Sys)
init env queue_size num_queues s =
    if queue_size == 0 || num_queues == 0 || ltb max_queues num_queues
    then some (fail einval, s)
    else (if s.initialized then some (fail eexist, s) else elim (align queue_size) [
      | none ↦ none
      | some aligned ↦ some (init_aligned env aligned num_queues s)
    ])

-- The first loop of `xbdev_queue_fini`.
unfoldable pub stop_queues : ℕ → List Queue → List Queue
stop_queues zero qs = qs
stop_queues (suc n) [] = []
stop_queues (suc n) (q ∷ qs) = record q { status = stopping } ∷ stop_queues n qs

-- A `uint32_t` sum.
unfoldable pub total_pending : ℕ → List Queue → ℕ
total_pending zero qs = 0
total_pending (suc n) [] = 0
total_pending (suc n) (q ∷ qs) = add32 q.pending (total_pending n qs)

-- The loop that waits for the pending requests, with fuel. Between two counts the other threads
-- run: `others round` is what they do to the state.
unfoldable pub await_pending : (ℕ → Sys → Sys) → ℕ → ℕ → Sys → Option Sys
await_pending others zero round s = none
await_pending others (suc fuel) round s =
    let rest = await_pending others fuel (round + 1) (others round s) in
    if total_pending s.num_queues s.queues == 0 then some s else rest

-- `none` where the wait does not end within the fuel.
unfoldable pub fini : (ℕ → Sys → Sys) → ℕ → Sys → Option Sys
fini others fuel s =
    let stopped = record s { queues = stop_queues s.num_queues s.queues } in
    if not s.initialized then some s else elim (await_pending others fuel 0 stopped) [
      | none ↦ none
      | some t ↦ some (record t {
        initialized = false;
        queues = fini_queues t.num_queues t.queues;
        pool = record t.pool { requests = []; used_flags = [] };
      })
    ]
