-- ===== src/LockedQueue/Start.antt =====
-- What a call of `xbdev_queue_init` in src/libxbdev/queue.c sets up, and when it succeeds.
use nblock.Prelude.{
  ℕ, zero, suc, ◌+◌, ◌*◌, ◌%◌, ◌^◌, ◌≤◌, ◌<◌, ◌≡◌, ◌≢◌, refl, sym, ap, ◌∙◌, ◌⊎◌, inl, inr, arith,
  Bool, true, false, List, [], ◌∷◌, length, replicate, length-replicate,
}
use native.Mathlib.Decide.{ℕ_discrete}
use native.Mathlib.Nat.{mod-lt}
use nblock.Prelude.Errno.{einval, Rc, ok, fail}
use nblock.Flags.{count_used-replicate, none_used}
use nblock.Request.{Request, zero_request}
use nblock.LockedQueue.{Queue, init_queue, zero_queue}
use nblock.LockedQueue.Refine.{init_queue-Holds}
use nblock.LockedQueue.Serve.{AllHold, nil, cons}
use nblock.LockedQueue.System.{Sys, SysEnv, init_request_pool, init_queues, start, queue_init}
use nblock.LockedQueue.Pool.{IsValid}

init_queues-AllHold :
    (env : SysEnv) (capacity n i : ℕ) (queues : List Queue)
    → capacity < 2 ^ 32
    → init_queues env capacity n i ≡ (ok, queues)
    → AllHold queues (replicate n []) × (length queues ≡ n)
unfolding init_queues
init_queues-AllHold env capacity zero i [] fits e = (nil, refl)
init_queues-AllHold env capacity zero i (q ∷ queues) fits e = absurd (cc e)
init_queues-AllHold env capacity (suc n) i queues fits e =
    go (first.0) (first.1) refl (rest.0) (rest.1) refl
      (λ qs p. init_queues-AllHold env capacity n (i + 1) qs fits p)
  where
    first : Rc × Queue
    first = init_queue (env.queue i) capacity zero_queue

    rest : Rc × List Queue
    rest = init_queues env capacity n (i + 1)

    go :
        (rc : Rc) (q : Queue)
        → first ≡ (rc, q)
        → (rc' : Rc) (qs : List Queue) → rest ≡ (rc', qs)
        → ((qs : List Queue) → rest ≡ (ok, qs) → AllHold qs (replicate n []) × (length qs ≡ n))
        → AllHold queues (replicate (suc n) []) × (length queues ≡ suc n)
    go (fail c) q p rc' qs p' ih = absurd (ground (arith, p))
    go ok q p (fail c) qs p' ih = absurd (ground (arith, p, p'))
    go ok q p ok qs p' ih =
        let done : queues ≡ q ∷ qs = ground (arith, p, p') in
        let (held, count) = ih qs p' in
        rw done
          (cons (init_queue-Holds (env.queue i) capacity zero_queue fits p).0 held, ap suc count)

-- The state right after a successful start with `n` queues and a pool of `pool_size` requests.
pub record IsUp (n pool_size : ℕ) (s : Sys) : Type 0 where
  pub up : s.initialized ≡ true
  pub queue_count : s.num_queues ≡ n
  pub queues_there : length s.req_queues ≡ n
  pub empty : AllHold s.req_queues (replicate n [])
  pub pool_up : s.req_pool.initialized ≡ true
  pub pool_capacity : s.req_pool.capacity ≡ pool_size
  pub none_used_yet : s.req_pool.used_count ≡ 0
  pub pool_valid : IsValid s
  pub first_id : s.next_req_id ≡ 1

start-IsUp :
    (env : SysEnv) (capacity n pool_size : ℕ) (s : Sys) {t : Sys}
    → capacity < 2 ^ 32
    → pool_size < 2 ^ 32
    → start env capacity n pool_size s ≡ (ok, t)
    → IsUp n pool_size t
unfolding start init_request_pool
start-IsUp env capacity n pool_size s {t} fits fits' e = go (r.0) (r.1) refl
  where
    r : Rc × List Queue
    r = init_queues env capacity n 0

    go : (rc : Rc) (queues : List Queue) → r ≡ (rc, queues) → IsUp n pool_size t
    go (fail c) queues p = absurd (ground (arith, p))
    go ok queues p =
        let (held, count) = init_queues-AllHold env capacity n 0 queues fits p in
        let done : t ≡ record s {
          req_queues = queues;
          req_pool = record {
            entries = replicate pool_size zero_request;
            used = replicate pool_size false;
            capacity = pool_size;
            used_count = 0;
            initialized = true;
          };
          num_queues = n;
          next_req_id = 1;
          initialized = true;
        } =
          ground (arith, p) in
        rw done (record {
          up = refl;
          queue_count = refl;
          queues_there = count;
          empty = held;
          pool_up = refl;
          pool_capacity = refl;
          none_used_yet = refl;
          pool_valid = record {
            entries_size = length-replicate {A = Request} pool_size zero_request;
            used_size = length-replicate {A = Bool} pool_size false;
            counted = sym (count_used-replicate pool_size);
            in_word = fits';
            below = λ p on. absurd (cc (on, none_used pool_size p));
            distinct = λ p q on on' same. absurd (cc (on, none_used pool_size p));
          };
          first_id = refl;
        })

-- A call of `xbdev_queue_init` with a 32-bit size that returns 0 leaves a system with `num_queues` empty queues, and a
-- pool in which all requests are free: twice as many as the queues have entries, in `uint32_t`.
queue_init-IsUp :
    (env : SysEnv) (queue_size num_queues : ℕ) (s : Sys) {t : Sys}
    → queue_size < 2 ^ 32
    → queue_init env queue_size num_queues s ≡ (ok, t)
    → IsUp num_queues (queue_size * num_queues * 2 % 2 ^ 32) t
unfolding queue_init
queue_init-IsUp env queue_size num_queues s {t} fits e =
    start-IsUp env queue_size num_queues (queue_size * num_queues * 2 % 2 ^ 32) s fits
      (mod-lt (queue_size * num_queues * 2) {m = 2 ^ 32} (omega arith)) (ground arith)

-- The calls outside the library succeed, for `n` queues.
pub record IsCalm (env : SysEnv) (n : ℕ) : Type 0 where
  pub array : env.queues_allocated ≡ true
  pub mutexes : (i : ℕ) → i < n → (env.queue i).mutex_init ≡ 0
  pub conds : (i : ℕ) → i < n → (env.queue i).cond_init ≡ 0
  pub rings : (i : ℕ) → i < n → (env.queue i).allocated ≡ true
  pub pool_mutex_made : env.pool_mutex ≡ 0
  pub entries_made : env.entries_allocated ≡ true
  pub used_made : env.used_allocated ≡ true

init_queues-ok :
    (env : SysEnv) (capacity n i m : ℕ)
    → IsCalm env m
    → capacity ≢ 0
    → i + n ≤ m
    → (init_queues env capacity n i).0 ≡ ok
unfolding init_queues init_queue
init_queues-ok env capacity zero i m c some_room l = refl
init_queues-ok env capacity (suc n) i m c some_room l = ground (
  arith,
  c.mutexes i (omega arith),
  c.conds i (omega arith),
  c.rings i (omega arith),
  init_queues-ok env capacity n (i + 1) m c some_room (omega arith),
)

-- A start of a system that is down, when the calls outside the library succeed: it returns 0 if the
-- sizes are not 0 and the pool's size does not wrap to 0; otherwise it fails, and the system is down.
pub queue_init-ok_iff :
    (env : SysEnv) (queue_size num_queues : ℕ) (s : Sys)
    → IsCalm env num_queues
    → s.initialized ≡ false
    → let (rc, t) = queue_init env queue_size num_queues s in
      ((queue_size * num_queues * 2 % 2 ^ 32 ≢ 0) × (rc ≡ ok) × (t.initialized ≡ true))
      ⊎ ((queue_size * num_queues * 2 % 2 ^ 32 ≡ 0) × (rc ≡ fail einval) × (t.initialized ≡ false))
unfolding queue_init start init_request_pool
queue_init-ok_iff env queue_size num_queues s c down = elim (ℕ_discrete queue_size 0) [
  | yes nothing ↦ inr (
    ap (λ (k : ℕ). k * num_queues * 2 % 2 ^ 32) nothing ∙ ground arith,
    ground arith,
    ground arith,
  )
  | no some_room ↦
      let made = init_queues-ok env queue_size num_queues 0 num_queues c some_room (omega arith) in
      elim (ℕ_discrete (queue_size * num_queues * 2 % 2 ^ 32) 0) [
        | yes wrapped ↦ inr (wrapped, ground (arith, made), ground (arith, made))
        | no fine ↦
            let some_queues : num_queues ≢ 0 =
              λ e. fine (ap (λ (k : ℕ). queue_size * k * 2 % 2 ^ 32) e ∙ ground arith) in
            inl (
              fine,
              ground (
                arith, made, c.array, c.pool_mutex_made, c.entries_made, c.used_made, some_queues,
              ),
              ground (
                arith, made, c.array, c.pool_mutex_made, c.entries_made, c.used_made, some_queues,
              ),
            )
      ]
]
