-- ===== src/ReqQueue/Init.antt =====
-- What a successful `xbdev_queue_init` sets up.
use nblock.Prelude.{
  ℕ, zero, suc, ◌+◌, ◌*◌, ◌%◌, ◌^◌, ◌≤◌, ◌<◌, ◌≡◌, refl, sym, ap, ◌∙◌, arith, Bool, true, false,
  List, [], ◌∷◌, none, some, get_or, length, replicate, length-replicate,
}
use native.Mathlib.Decide.{dec_lt}
use nblock.Prelude.Errno.{Rc, ok, fail}
use nblock.Ring
use nblock.Ring.Inv.{IsValid, init-IsValid, pow_bounds}
use nblock.Ring.Refine.{Holds, empty-Holds}
use nblock.ReqQueue.Align.{align-IsAligned, IsAligned, align_big}
use nblock.ReqQueue.State.{Queue, Sys, is_ready, ready, zero_queue, queue_at}
use nblock.ReqQueue.Setup.{Env, init_queue, init_queues, init_pool, init_aligned, init}
use nblock.Request.{Request, zero_request}
use mathlib.Core.Path.{subst}
use nblock.ReqQueue.Idle.{RestIdle, NoneReady}
use nblock.ReqQueue.Pool
use nblock.Flags.{count_used-replicate}

-- The queue number `i`, as it is right after the set-up.
pub record Fresh (k i : ℕ) (queue : Queue) : Type 0 where
  pub ready_now : is_ready queue.status ≡ true
  pub valid : IsValid k queue.ring
  pub empty : Holds k queue.ring []
  pub none_pending : queue.pending ≡ 0
  pub ids : queue.req_id_counter ≡ (i * 2 ^ 32 + 1) % 2 ^ 64

init_queue-Fresh :
    (env : Env) (k i : ℕ) (q : Queue) {q' : Queue}
    → 2 ^ k < 2 ^ 32
    → init_queue env (2 ^ k) i q ≡ (ok, q')
    → Fresh k i q'
unfolding init_queue
init_queue-Fresh env k i q {q'} fits e = go (r.0) (r.1) refl
  where
    r : Rc × Ring.Ring
    r = Ring.init (env.ring_allocated i) (2 ^ k) q.ring

    go : (rc : Rc) (ring : Ring.Ring) → r ≡ (rc, ring) → Fresh k i q'
    go (fail c) ring p = absurd (ground (arith, p))
    go ok ring p =
        let (valid, head, tail) = init-IsValid (env.ring_allocated i) k q.ring fits p in
        let empty = empty-Holds k ring valid (head ∙ sym tail) in
        let done : q' ≡ record {
          status = ready;
          ring = ring;
          pending = 0;
          req_id_counter = (i * 2 ^ 32 + 1) % 2 ^ 64;
        } =
          ground (arith, p) in
        rw done (record {
          ready_now = refl;
          valid = valid;
          empty = empty;
          none_pending = refl;
          ids = refl;
        })

-- The queues of the list are numbered from `i` on; the first `n` are fresh, the others as before.
FreshFrom : ℕ → ℕ → ℕ → List Queue → List Queue → Type 0
FreshFrom k zero i before after = after ≡ before
FreshFrom k (suc n) i before [] = ⊥
FreshFrom k (suc n) i [] (q ∷ after) = ⊥
FreshFrom k (suc n) i (p ∷ before) (q ∷ after) = Fresh k i q × FreshFrom k n (i + 1) before after

init_queues-FreshFrom :
    (env : Env) (k n i : ℕ) (qs : List Queue) {qs' : List Queue}
    → 2 ^ k < 2 ^ 32
    → n ≤ length qs
    → init_queues env (2 ^ k) n i qs ≡ (ok, qs')
    → FreshFrom k n i qs qs'
unfolding init_queues FreshFrom
init_queues-FreshFrom env k zero i qs {qs'} fits l e = cc e
init_queues-FreshFrom env k (suc n) i [] fits l e = elim l [ ]
init_queues-FreshFrom env k (suc n) i (q ∷ qs) {qs'} fits l e =
    go (r.0) (r.1) refl (rest.0) (rest.1) refl
      (λ after p. init_queues-FreshFrom env k n (i + 1) qs {qs' = after} fits (omega arith) p)
  where
    r : Rc × Queue
    r = init_queue env (2 ^ k) i q

    rest : Rc × List Queue
    rest = init_queues env (2 ^ k) n (i + 1) qs

    go :
        (rc : Rc) (q' : Queue)
        → r ≡ (rc, q')
        → (rc' : Rc) (after : List Queue) → rest ≡ (rc', after)
        → ((after : List Queue) → rest ≡ (ok, after) → FreshFrom k n (i + 1) qs after)
        → FreshFrom k (suc n) i (q ∷ qs) qs'
    go (fail c) q' p rc' after p' ih = absurd (ground (arith, p))
    go ok q' p (fail c) after p' ih = absurd (ground (arith, p, p'))
    go ok q' p ok after p' ih =
        let done : qs' ≡ q' ∷ after = ground (arith, p, p') in
        rw done (init_queue-Fresh env k i q fits p, ih after p')

Fresh-at :
    (k n i j : ℕ) (before after : List Queue)
    → FreshFrom k n i before after
    → j < n
    → Fresh k (i + j) (get_or after j zero_queue)
unfolding FreshFrom
Fresh-at k zero i j before after h l = elim l [ ]
Fresh-at k (suc n) i j before [] h l = absurd h
Fresh-at k (suc n) i j [] (q ∷ after) h l = absurd h
Fresh-at k (suc n) i zero (p ∷ before) (q ∷ after) h l =
    subst (λ (m : ℕ). Fresh k m q) (omega arith) h.0
Fresh-at k (suc n) i (suc j) (p ∷ before) (q ∷ after) h l =
    subst (λ (m : ℕ). Fresh k m (get_or after j zero_queue)) (omega arith)
      (Fresh-at k n (i + 1) j before after h.1 (omega arith))

length-FreshFrom :
    (k n i : ℕ) (before after : List Queue)
    → FreshFrom k n i before after
    → length after ≡ length before
unfolding FreshFrom
length-FreshFrom k zero i before after h = ap length h
length-FreshFrom k (suc n) i before [] h = absurd h
length-FreshFrom k (suc n) i [] (q ∷ after) h = absurd h
length-FreshFrom k (suc n) i (p ∷ before) (q ∷ after) h =
    ap suc (length-FreshFrom k n (i + 1) before after h.1)

idle_rest :
    (k n i m : ℕ) (after : List Queue)
    → FreshFrom k n i (replicate m zero_queue) after
    → RestIdle n after
unfolding FreshFrom
idle_rest k zero i m after h = rw h (idle m)
  where
    idle : (m : ℕ) → NoneReady (replicate m zero_queue)
    idle zero = tt
    idle (suc m) = (refl, idle m)
idle_rest k (suc n) i m [] h = tt
idle_rest k (suc n) i zero (q ∷ after) h = absurd h
idle_rest k (suc n) i (suc m) (q ∷ after) h = idle_rest k n (i + 1) m after h.1

init_pool-IsValid :
    (env : Env) (aligned n : ℕ) (s : Sys) {t : Sys}
    → init_pool env aligned n s ≡ (ok, t)
    → Pool.IsValid t.pool
      × (t.pool.count ≡ 0)
      × (t.pool.size ≡ aligned * n * 2 % 2 ^ 32)
      × (t.initialized ≡ true)
      × (t.queues ≡ s.queues)
      × (t.num_queues ≡ s.num_queues)
      × (t.thread_queue ≡ s.thread_queue)
unfolding init_pool
init_pool-IsValid env aligned n s e = ground (
  arith,
  length-replicate {A = Request} (aligned * n * 2 % 2 ^ 32) zero_request,
  length-replicate {A = Bool} (aligned * n * 2 % 2 ^ 32) false,
  count_used-replicate (aligned * n * 2 % 2 ^ 32),
)

-- The system right after the set-up, for rings of 2 ^ k slots.
pub record IsUp (k num_queues : ℕ) (s : Sys) : Type 0 where
  pub up : s.initialized ≡ true
  pub number : s.num_queues ≡ num_queues
  pub in_table : num_queues ≤ length s.queues
  pub fresh : (j : ℕ) → j < num_queues → Fresh k j (queue_at s j)
  pub rest_idle : RestIdle num_queues s.queues
  pub pool_valid : Pool.IsValid s.pool
  pub pool_empty : s.pool.count ≡ 0
  pub unassigned : (tid : ℕ) → s.thread_queue tid ≡ 0

init_aligned-IsUp :
    (env : Env) (k n : ℕ) (s t : Sys)
    → 2 ^ k < 2 ^ 32
    → n ≤ 16
    → init_aligned env (2 ^ k) n s ≡ (ok, t)
    → IsUp k n t
unfolding init_aligned
init_aligned-IsUp env k n s t fits l e = go (r.0) (r.1) refl
  where
    r : Rc × List Queue
    r = init_queues env (2 ^ k) n 0 (replicate 16 zero_queue)

    go : (rc : Rc) (qs : List Queue) → r ≡ (rc, qs) → IsUp k n t
    go (fail c) qs p = absurd (ground (arith, p))
    go ok qs p =
        let set_up = init_queues-FreshFrom env k n 0 (replicate 16 zero_queue) fits l p in
        let cleared : Sys = record {
          initialized = false;
          queues = qs;
          num_queues = n;
          queue_size = 2 ^ k;
          thread_queue = λ _. 0;
          next_queue_idx = 0;
          pool = s.pool;
          log = s.log;
        } in
        let last : init_pool env (2 ^ k) n cleared ≡ (ok, t) = ground (arith, p) in
        let (valid, count, _, up, queues, number, threads) =
          init_pool-IsValid env (2 ^ k) n cleared last in
        record {
          up = up;
          number = number;
          in_table = rw (queues, length-FreshFrom k n 0 (replicate 16 zero_queue) qs set_up) l;
          fresh = λ j h. rw queues (
              subst (λ (m : ℕ). Fresh k m (get_or qs j zero_queue)) {x = 0 + j} (omega arith)
                (Fresh-at k n 0 j (replicate 16 zero_queue) qs set_up h));
          rest_idle = rw queues (idle_rest k n 0 16 qs set_up);
          pool_valid = valid;
          pool_empty = count;
          unassigned = λ tid. rw threads refl;
        }

-- Where `xbdev_queue_init` returns 0, the rings have the least power of two of slots that is not
-- below the requested size; every queue in use is ready and empty, with a number range of its own;
-- the other queues of the table are not ready; and the pool is valid with nothing in use.
pub init-IsUp :
    (env : Env) (queue_size n : ℕ) (s t : Sys)
    → init env queue_size n s ≡ some (ok, t)
    → (k : ℕ) × IsAligned queue_size k × IsUp k n t
unfolding init
init-IsUp env queue_size n s t e = elim (dec_lt (2 ^ 31) queue_size) [
  | yes big ↦ absurd (ground (arith, align_big queue_size big))
  | no small ↦
      let (k, found, aligned, bound) = align-IsAligned queue_size (omega arith) in
      let rest : (n ≤ 16) × (init_aligned env (2 ^ k) n s ≡ (ok, t)) = ground (arith, found) in
      (k, aligned, init_aligned-IsUp env k n s t (omega (arith, pow_bounds k bound)) rest.0 rest.1)
]

-- A valid call on a system that is down, for a size above 2 ^ 31, does not return.
pub init_diverges :
    (env : Env) (queue_size n : ℕ) (s : Sys)
    → 2 ^ 31 < queue_size
    → 0 < n
    → n ≤ 16
    → s.initialized ≡ false
    → init env queue_size n s ≡ none
unfolding init
init_diverges env queue_size n s big pos l down = ground (arith, align_big queue_size big)
