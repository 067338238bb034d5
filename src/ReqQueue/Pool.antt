-- ===== src/ReqQueue/Pool.antt =====
-- The request pool of src/libxbdev/request_queue.c: its invariant, and what allocation and release
-- do to it.
use native.Mathlib.Nat.{mod-eq_of_lt}
use nblock.Prelude.{
  Bool-cases, ℕ, suc, ◌^◌, ◌<◌, ◌≡◌, sym, ap, ap₂, ◌∙◌, ◌⊎◌, inl, inr, arith, Bool, true, false,
  none, some, get_or, set, length, length-set, get_or-set_self,
}
use nblock.Prelude.Errno.{einval, ok, fail}
use nblock.Ring.{Ptr, add32}
use nblock.Flags.{
  count_used, count_used-le, count_used-set, count_used-unset, first_unused_lem, in_range, set_back,
}
use nblock.ReqQueue.State.{Pool, Sys, current_queue}
use nblock.ReqQueue.Client.{claim, alloc_internal, free_index, request_free}

pub record IsValid (pool : Pool) : Type 0 where
  pub requests_size : length pool.requests ≡ pool.size
  pub flags_size : length pool.used_flags ≡ pool.size
  pub counted : pool.count ≡ count_used pool.used_flags
  pub in_word : pool.size < 2 ^ 32

pool-current_queue : (tid : ℕ) (s : Sys) → (current_queue tid s).1.pool ≡ s.pool
unfolding current_queue
pool-current_queue tid s = ground arith

-- Allocation touches the pool only at the place that it takes.
pub pool-claim :
    (sync_req : Bool) (tid now p : ℕ) (s : Sys)
    → let pool = (claim sync_req tid now p s).pool in
      (pool.used_flags ≡ set s.pool.used_flags p true)
      × (pool.count ≡ add32 s.pool.count 1)
      × (pool.size ≡ s.pool.size)
      × (length pool.requests ≡ length s.pool.requests)
unfolding claim
pool-claim sync_req tid now p s =
    let same : (current_queue tid s).1.pool ≡ s.pool = pool-current_queue tid s in
    (
      ap (λ (pool : Pool). set pool.used_flags p true) same,
      ap (λ (pool : Pool). add32 pool.count 1) same,
      ap (λ (pool : Pool). pool.size) same,
      length-set _ p _ ∙ ap (λ (pool : Pool). length pool.requests) same,
    )

claim-IsValid :
    (sync_req : Bool) (tid now p : ℕ) (s : Sys)
    → IsValid s.pool
    → p < s.pool.size
    → get_or s.pool.used_flags p true ≡ false
    → IsValid (claim sync_req tid now p s).pool
claim-IsValid sync_req tid now p s v l free = ground (
  arith,
  pool-claim sync_req tid now p s,
  length-set s.pool.used_flags p true,
  count_used-set s.pool.used_flags p,
  count_used-le (set s.pool.used_flags p true),
)

abbrev pub Granted : Bool → ℕ → ℕ → Sys → Type 0
Granted sync_req tid now s =
    (p : ℕ) × (alloc_internal sync_req tid now s ≡ (some p, claim sync_req tid now p s))
    × (p < s.pool.size)
    × (get_or s.pool.used_flags p true ≡ false)
    × IsValid (claim sync_req tid now p s).pool

-- Allocation fails, with the state as it was, exactly when every place of the pool is in use.
-- Otherwise it takes a place that was free, and the pool stays valid.
pub alloc_internal_lem :
    (sync_req : Bool) (tid now : ℕ) (s : Sys)
    → IsValid s.pool
    → ((s.pool.count ≡ s.pool.size) × (alloc_internal sync_req tid now s ≡ (none, s)))
      ⊎ ((s.pool.count < s.pool.size) × Granted sync_req tid now s)
unfolding alloc_internal
alloc_internal_lem sync_req tid now s v = elim (first_unused_lem 0 s.pool.used_flags) [
  | inl (e, full) ↦ inl (
    omega (arith, v.counted, v.flags_size, full),
    ground (arith, count_used-le s.pool.used_flags),
  )
  | inr (p, e, l, free, before) ↦ inr (
    omega (
      arith,
      v.counted,
      v.flags_size,
      count_used-set s.pool.used_flags p l free,
      count_used-le (set s.pool.used_flags p true),
      length-set s.pool.used_flags p true,
    ),
    (
      p,
      ground (
        arith,
        count_used-set s.pool.used_flags p l free,
        count_used-le (set s.pool.used_flags p true),
        length-set s.pool.used_flags p true,
      ),
      omega (arith, v.flags_size),
      free,
      claim-IsValid sync_req tid now p s v (omega (arith, v.flags_size)) free,
    ),
  )
]

free_index_lem :
    (p : ℕ) (s : Sys)
    → IsValid s.pool
    → let (rc, t) = free_index p s in
      ((get_or s.pool.used_flags p false ≡ true)
        × (rc ≡ ok)
        × IsValid t.pool
        × (t.pool.used_flags ≡ set s.pool.used_flags p false)
        × (suc t.pool.count ≡ s.pool.count))
      ⊎ ((get_or s.pool.used_flags p false ≡ false) × (rc ≡ fail einval) × (t ≡ s))
unfolding free_index
free_index_lem p s v = elim (Bool-cases (get_or s.pool.used_flags p false)) [
  | inl e ↦ inl (
      ground (
        arith,
        in_range s.pool.used_flags p e,
        count_used-unset s.pool.used_flags p e,
        count_used-le s.pool.used_flags,
        length-set s.pool.used_flags p false,
      ))
  | inr e ↦ inr (e, ground arith, ground arith)
]

request_free-free_index :
    (p : ℕ) (s : Sys) → s.initialized ≡ true → p < 2 ^ 32 → request_free (some p) s ≡ free_index p s
unfolding request_free
request_free-free_index p s up w = ground (arith, mod-eq_of_lt {n = p} {m = 2 ^ 32} w)

-- Releasing a place keeps the pool valid; a place that is not in use, or not in the pool, is
-- refused and nothing changes.
pub request_free_lem :
    (p : ℕ) (s : Sys)
    → IsValid s.pool
    → s.initialized ≡ true
    → p < 2 ^ 32
    → let (rc, t) = request_free (some p) s in
      ((get_or s.pool.used_flags p false ≡ true)
        × (rc ≡ ok)
        × IsValid t.pool
        × (t.pool.used_flags ≡ set s.pool.used_flags p false)
        × (suc t.pool.count ≡ s.pool.count))
      ⊎ ((get_or s.pool.used_flags p false ≡ false) × (rc ≡ fail einval) × (t ≡ s))
request_free_lem p s v up w = rw (request_free-free_index p s up w) (free_index_lem p s v)

initialized-claim :
    (sync_req : Bool) (tid now p : ℕ) (s : Sys)
    → (claim sync_req tid now p s).initialized ≡ s.initialized
unfolding claim current_queue
initialized-claim sync_req tid now p s = ground arith

initialized-request_free :
    (req : Ptr) (s : Sys) → (request_free req s).1.initialized ≡ s.initialized
unfolding request_free free_index
initialized-request_free none s = ground arith
initialized-request_free (some p) s = ground arith

-- A place that is in use is released, and the same place is then refused.
free_twice :
    (p : ℕ) (s : Sys)
    → IsValid s.pool
    → s.initialized ≡ true
    → p < 2 ^ 32
    → get_or s.pool.used_flags p false ≡ true
    → let (rc, u) = request_free (some p) s in
      (rc ≡ ok)
      × (u.pool.used_flags ≡ set s.pool.used_flags p false)
      × (suc u.pool.count ≡ s.pool.count)
      × (request_free (some p) u ≡ (fail einval, u))
free_twice p s v up w e = elim (request_free_lem p s v up w) [
  | inl (_, freed, vu, flags, count) ↦ (freed, flags, count, again vu flags)
  | inr (unused, _, _) ↦ absurd (cc (e, unused))
]
  where
    u : Sys
    u = (request_free (some p) s).1

    off : get_or (set s.pool.used_flags p false) p false ≡ false
    off = get_or-set_self s.pool.used_flags p false false (in_range s.pool.used_flags p e)

    again :
        IsValid u.pool
        → u.pool.used_flags ≡ set s.pool.used_flags p false
        → request_free (some p) u ≡ (fail einval, u)
    again vu flags = elim (request_free_lem p u vu (initialized-request_free (some p) s ∙ up) w) [
      | inl (on, _, _, _, _) ↦ absurd (cc (on, flags, off))
      | inr (_, refused, same) ↦ ap₂ (λ c t. (c, t)) refused same
    ]

-- A request that was just allocated can be released once, which gives back exactly the flags and
-- the count that there were; released a second time it is refused, and nothing changes.
free-alloc :
    (sync_req : Bool) (tid now p : ℕ) (s t : Sys)
    → IsValid s.pool
    → s.initialized ≡ true
    → alloc_internal sync_req tid now s ≡ (some p, t)
    → let (rc, u) = request_free (some p) t in
      (rc ≡ ok)
      × (u.pool.used_flags ≡ s.pool.used_flags)
      × (u.pool.count ≡ s.pool.count)
      × (request_free (some p) u ≡ (fail einval, u))
free-alloc sync_req tid now p s t v up e = elim (alloc_internal_lem sync_req tid now s v) [
  | inl (_, failed) ↦ absurd (cc (e, failed))
  | inr (room, (q, got, l, free, vq)) ↦
      let at : q ≡ p = cc (e, got) in
      let after : claim sync_req tid now q s ≡ t = ap (λ r. r.1) (sym got ∙ e) in
      rw (← at, ← after) (freed q room l free vq)
]
  where
    freed :
        (q : ℕ)
        → s.pool.count < s.pool.size
        → q < s.pool.size
        → get_or s.pool.used_flags q true ≡ false
        → IsValid (claim sync_req tid now q s).pool
        → let (rc, u) = request_free (some q) (claim sync_req tid now q s) in
          (rc ≡ ok)
          × (u.pool.used_flags ≡ s.pool.used_flags)
          × (u.pool.count ≡ s.pool.count)
          × (request_free (some q) u ≡ (fail einval, u))
    freed q room l free vq =
        let (flags, count, size, _) = pool-claim sync_req tid now q s in
        let on : get_or (claim sync_req tid now q s).pool.used_flags q false ≡ true =
          ap (λ fs. get_or fs q false) flags
          ∙ get_or-set_self s.pool.used_flags q true false (omega (arith, v.flags_size)) in
        let (rc, flags', count', again) =
          free_twice q (claim sync_req tid now q s) vq (initialized-claim sync_req tid now q s ∙ up)
            (omega (arith, v.in_word)) on in
        (
          rc,
          flags' ∙ (ap (λ fs. set fs q false) flags ∙ set_back s.pool.used_flags q free),
          omega (arith, count, count', v.in_word),
          again,
        )
