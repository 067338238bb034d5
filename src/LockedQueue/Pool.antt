-- ===== src/LockedQueue/Pool.antt =====
-- The request pool of src/libxbdev/queue.c: its invariant, with the request ids, and what allocation
-- and release do to it.
use native.Mathlib.Nat.{mod-eq_of_lt}
use nblock.Prelude.{
  List, Bool-cases, ℕ, suc, ◌+◌, ◌-◌, ◌%◌, ◌^◌, ◌<◌, ◌≡◌, ◌≢◌, refl, sym, ap, ◌∙◌, ◌⊎◌, inl, inr,
  arith, Bool, true, false, none, some, get_or, set, length, length-set, get_or-set_self,
  get_or-set_ne,
}
use native.Mathlib.Decide.{ℕ_discrete}
use nblock.Prelude.Errno.{einval, ok, fail}
use nblock.Ring.{add32}
use nblock.Request.{Request, zero_request}
use nblock.Flags.{
  count_used, count_used-le, count_used-set, count_used-unset, first_unused_lem, in_range,
}
use nblock.LockedQueue.System.{Pool, Sys}
use nblock.LockedQueue.Client.{
  request_at, fresh_request, claim, alloc_request_from_pool, release_index, free_request_to_pool,
}

abbrev pub InUse : Pool → ℕ → Type 0
InUse pool p = get_or pool.used p false ≡ true

-- The pool is sound, and no two requests in use have the same id.
pub record IsValid (s : Sys) : Type 0 where
  pub entries_size : length s.req_pool.entries ≡ s.req_pool.capacity
  pub used_size : length s.req_pool.used ≡ s.req_pool.capacity
  pub counted : s.req_pool.used_count ≡ count_used s.req_pool.used
  pub in_word : s.req_pool.capacity < 2 ^ 32
  pub below : (p : ℕ) → InUse s.req_pool p → (request_at s.req_pool p).req_id < s.next_req_id
  pub distinct :
      (p q : ℕ)
      → InUse s.req_pool p
      → InUse s.req_pool q
      → (request_at s.req_pool p).req_id ≡ (request_at s.req_pool q).req_id
      → p ≡ q

-- What a claimed place holds, and the others.
claim-at :
    (sync : Bool) (p q : ℕ) (s : Sys)
    → IsValid s
    → p < s.req_pool.capacity
    → InUse (claim sync p s).req_pool q
    → ((q ≡ p) × ((request_at (claim sync p s).req_pool q).req_id ≡ s.next_req_id))
      ⊎ ((q ≢ p)
          × InUse s.req_pool q
          × ((request_at (claim sync p s).req_pool q).req_id ≡ (request_at s.req_pool q).req_id))
unfolding claim fresh_request
claim-at sync p q s v l on = elim (ℕ_discrete q p) [
  | yes e ↦ inl (
    e,
    ap
          (λ (i : ℕ).
            (get_or
              (set s.req_pool.entries p
                (fresh_request sync s.next_req_id (request_at s.req_pool p)))
              i zero_request).req_id)
          e
        ∙ ap (λ (r : Request). r.req_id)
            (get_or-set_self s.req_pool.entries p
              (fresh_request sync s.next_req_id (request_at s.req_pool p)) zero_request
              (omega (arith, v.entries_size))),
  )
  | no ne ↦ inr (
    ne,
    sym (get_or-set_ne s.req_pool.used p q true false (λ e. ne (sym e))) ∙ on,
    ap (λ (r : Request). r.req_id)
        (get_or-set_ne s.req_pool.entries p q
          (fresh_request sync s.next_req_id (request_at s.req_pool p)) zero_request
          (λ e. ne (sym e))),
  )
]

claim-fields :
    (sync : Bool) (p : ℕ) (s : Sys)
    → let t = claim sync p s in
      (t.req_pool.used ≡ set s.req_pool.used p true)
      × (t.req_pool.used_count ≡ add32 s.req_pool.used_count 1)
      × (t.req_pool.capacity ≡ s.req_pool.capacity)
      × (length t.req_pool.entries ≡ length s.req_pool.entries)
      × (t.next_req_id ≡ (s.next_req_id + 1) % 2 ^ 64)
unfolding claim
claim-fields sync p s = (
  refl,
  refl,
  refl,
  length-set s.req_pool.entries p (fresh_request sync s.next_req_id (request_at s.req_pool p)),
  refl,
)

claim-IsValid :
    (sync : Bool) (p : ℕ) (s : Sys)
    → IsValid s
    → p < s.req_pool.capacity
    → get_or s.req_pool.used p true ≡ false
    → s.next_req_id + 1 < 2 ^ 64
    → IsValid (claim sync p s)
claim-IsValid sync p s v l free fits =
    let (used, count, capacity, entries, next) = claim-fields sync p s in
    let id : s.next_req_id + 1 ≡ (claim sync p s).next_req_id = sym (next ∙ mod-eq_of_lt fits) in
    record {
      entries_size = entries ∙ (v.entries_size ∙ sym capacity);
      used_size =
          ap (λ fs. length fs) used
          ∙ (length-set s.req_pool.used p true ∙ (v.used_size ∙ sym capacity));
      counted =
          omega (
            arith,
            count,
            v.counted,
            v.used_size,
            v.in_word,
            count_used-set s.req_pool.used p (omega (arith, v.used_size)) free,
            count_used-le (set s.req_pool.used p true),
            length-set s.req_pool.used p true,
          )
          ∙ ap (λ fs. count_used fs) (sym used);
      in_word = omega (arith, capacity, v.in_word);
      below = λ q on. elim (claim-at sync p q s v l on) [
        | inl (_, e) ↦ omega (arith, e, id)
        | inr (_, on', e) ↦ omega (arith, e, v.below q on', id)
      ];
      distinct = λ q r on on' same. elim (claim-at sync p q s v l on) [
        | inl (at, e) ↦ elim (claim-at sync p r s v l on') [
          | inl (at', _) ↦ at ∙ sym at'
          | inr (_, used', e') ↦ absurd (omega (arith, e, same, e', v.below r used'))
        ]
        | inr (_, used', e) ↦ elim (claim-at sync p r s v l on') [
          | inl (_, e') ↦ absurd (omega (arith, e, e', same, v.below q used'))
          | inr (_, used'', e') ↦ v.distinct q r used' used'' (sym e ∙ (same ∙ e'))
        ]
      ];
    }

-- Allocation from a valid pool of a started system, before the ids run out. It fails, with the state
-- as it was, exactly when every place is in use. Otherwise it takes the first free place, and the pool
-- stays valid: no two requests in use have the same id.
pub alloc_request_from_pool_lem :
    (sync : Bool) (s : Sys)
    → IsValid s
    → s.initialized ≡ true
    → s.next_req_id + 1 < 2 ^ 64
    → ((s.req_pool.used_count ≡ s.req_pool.capacity) × (alloc_request_from_pool sync s ≡ (none, s)))
      ⊎ ((p : ℕ) × (alloc_request_from_pool sync s ≡ (some p, claim sync p s))
          × (p < s.req_pool.capacity)
          × (get_or s.req_pool.used p true ≡ false)
          × ((j : ℕ) → j < p → InUse s.req_pool j)
          × IsValid (claim sync p s))
unfolding alloc_request_from_pool
alloc_request_from_pool_lem sync s v up fits = elim (first_unused_lem 0 s.req_pool.used) [
  | inl (e, full) ↦ inl (omega (arith, v.counted, v.used_size, full), ground arith)
  | inr (p, e, l, free, before) ↦
      let l' : p < s.req_pool.capacity = omega (arith, v.used_size) in
      inr (p, ground arith, l', free, before, claim-IsValid sync p s v l' free fits)
]

still_used :
    (used : List Bool) (p q : ℕ)
    → p < length used
    → get_or (set used p false) q false ≡ true
    → (q ≢ p) × (get_or used q false ≡ true)
still_used used p q l on = elim (ℕ_discrete q p) [
  | yes e ↦ absurd (
      cc (
        ap (λ (i : ℕ). get_or (set used p false) i false) e,
        on,
        get_or-set_self used p false false l,
      ))
  | no ne ↦ (ne, sym (get_or-set_ne used p q false false (λ e. ne (sym e))) ∙ on)
]

-- The state after a release that succeeds.
released : ℕ → Sys → Sys
released p s = record s {
  req_pool = record s.req_pool {
    used = set s.req_pool.used p false;
    used_count = (s.req_pool.used_count + 2 ^ 32 - 1) % 2 ^ 32;
  };
}

released-IsValid : (p : ℕ) (s : Sys) → IsValid s → InUse s.req_pool p → IsValid (released p s)
unfolding released
released-IsValid p s v on =
    let l = in_range s.req_pool.used p on in
    record {
      entries_size = v.entries_size;
      used_size = length-set s.req_pool.used p false ∙ v.used_size;
      counted = omega (
        arith,
        v.counted,
        v.used_size,
        v.in_word,
        count_used-unset s.req_pool.used p on,
        count_used-le s.req_pool.used,
      );
      in_word = v.in_word;
      below = λ q on'. v.below q (still_used s.req_pool.used p q l on').1;
      distinct = λ q r on' on'' same.
          v.distinct q r (still_used s.req_pool.used p q l on').1
            (still_used s.req_pool.used p r l on'').1 same;
    }

-- Release to a valid pool of a started system. A request that is in use is released, and then is not
-- in use; the count goes down by one, and the pool stays valid. Any other pointer is refused, and
-- nothing changes.
pub free_request_to_pool_lem :
    (p : ℕ) (s : Sys)
    → IsValid s
    → s.initialized ≡ true
    → p < 2 ^ 32
    → let (rc, t) = free_request_to_pool (some p) s in
      (InUse s.req_pool p
        × (rc ≡ ok)
        × IsValid t
        × (t.req_pool.used ≡ set s.req_pool.used p false)
        × (suc t.req_pool.used_count ≡ s.req_pool.used_count))
      ⊎ ((get_or s.req_pool.used p false ≡ false) × (rc ≡ fail einval) × (t ≡ s))
unfolding free_request_to_pool release_index released
free_request_to_pool_lem p s v up fits = elim (Bool-cases (get_or s.req_pool.used p false)) [
  | inl on ↦
      let e : free_request_to_pool (some p) s ≡ (ok, released p s) = ground (
        arith,
        mod-eq_of_lt {n = p} {m = 2 ^ 32} fits,
        v.used_size,
        in_range s.req_pool.used p on,
      ) in
      rw e (
        inl (
          on,
          refl,
          released-IsValid p s v on,
          refl,
          omega (
            arith,
            v.counted,
            v.used_size,
            v.in_word,
            count_used-unset s.req_pool.used p on,
            count_used-le s.req_pool.used,
          ),
        ))
  | inr off ↦ inr (
    off,
    ground (arith, mod-eq_of_lt {n = p} {m = 2 ^ 32} fits),
    ground (arith, mod-eq_of_lt {n = p} {m = 2 ^ 32} fits),
  )
]
