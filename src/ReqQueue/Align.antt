-- ===== src/ReqQueue/Align.antt =====
-- The loop of `xbdev_queue_init` that rounds the queue size up to a power of two.
use native.Mathlib.Nat.{pow-suc, pow-le-pow_right, mod-eq_of_lt}
use native.Mathlib.Decide.{ℕ_discrete}
use nblock.Prelude.{
  ℕ, zero, suc, ◌+◌, ◌*◌, ◌%◌, ◌^◌, ◌≤◌, ◌<◌, ◌≡◌, ◌≢◌, refl, sym, ap, ◌∙◌, inl, inr, true,
  Bool-cases, ltb, ltb→lt, lt→ltb, if◌then◌else◌, Option, none, some, arith,
}

-- `while (aligned_size < queue_size) aligned_size <<= 1;` on `uint32_t`, with fuel: `none` where
-- the loop still runs.
pub align_loop : ℕ → ℕ → ℕ → Option ℕ
align_loop zero queue_size aligned = none
align_loop (suc fuel) queue_size aligned =
    let rest = align_loop fuel queue_size (aligned * 2 % 2 ^ 32) in
    if ltb aligned queue_size then rest else some aligned

-- Thirty-three tests are enough wherever the loop ends.
unfoldable pub align : ℕ → Option ℕ
unfolding align_loop
align queue_size = align_loop 33 queue_size 1

-- `2 ^ k` is the least power of two that is not below the size.
abbrev pub IsAligned : ℕ → ℕ → Type 0
IsAligned queue_size k = (queue_size ≤ 2 ^ k) × (k ≢ 0 → 2 ^ k < queue_size * 2)

doubled : (j : ℕ) → j < 31 → 2 ^ j * 2 % 2 ^ 32 ≡ 2 ^ suc j
doubled j h =
    sym (ap (λ (t : ℕ). t % 2 ^ 32) (pow-suc 2 j))
    ∙ mod-eq_of_lt {n = 2 ^ suc j} {m = 2 ^ 32}
        (omega (arith, pow-le-pow_right {n = 2} (omega arith) {i = suc j} {j = 31} h))

align_loop-IsAligned :
    (fuel queue_size j : ℕ)
    → queue_size ≤ 2 ^ 31
    → 31 < fuel + j
    → j ≤ 31
    → (j ≢ 0 → 2 ^ j < queue_size * 2)
    → (k : ℕ) × (align_loop fuel queue_size (2 ^ j) ≡ some (2 ^ k))
      × IsAligned queue_size k
      × (k ≤ 31)
unfolding align_loop
align_loop-IsAligned zero queue_size j fits enough bound low = absurd (omega arith)
align_loop-IsAligned (suc fuel) queue_size j fits enough bound low =
    elim (Bool-cases (ltb (2 ^ j) queue_size)) [
      | inl more ↦
          let below : j < 31 = not_last more in
          let (k, found, least, small) =
            align_loop-IsAligned fuel queue_size (suc j) fits (omega arith) below
              (λ _. omega (arith, pow-suc 2 j, ltb→lt _ _ more)) in
          (k, rw (more, doubled j below) found, least, small)
      | inr done ↦ (j, rw done refl, (ground arith, low), bound)
    ]
  where
    not_last : ltb (2 ^ j) queue_size ≡ true → j < 31
    not_last more = elim (ℕ_discrete j 31) [
      | yes e ↦ absurd (omega (arith, ltb→lt _ _ more, ap (λ (t : ℕ). 2 ^ t) e))
      | no ne ↦ omega arith
    ]

-- For a size of at most 2 ^ 31 the loop ends within the fuel, at the least power of two that is
-- not below the size.
pub align-IsAligned :
    (queue_size : ℕ)
    → queue_size ≤ 2 ^ 31
    → (k : ℕ) × (align queue_size ≡ some (2 ^ k)) × IsAligned queue_size k × (k ≤ 31)
unfolding align
align-IsAligned queue_size fits =
    align_loop-IsAligned 33 queue_size 0 fits (omega arith) (omega arith) (λ ne. absurd (ne refl))

align_loop-none_zero : (fuel queue_size : ℕ) → 0 < queue_size → align_loop fuel queue_size 0 ≡ none
unfolding align_loop
align_loop-none_zero zero queue_size h = refl
align_loop-none_zero (suc fuel) queue_size h =
    ground (arith, align_loop-none_zero fuel queue_size h)

align_loop-none :
    (fuel queue_size j : ℕ)
    → 2 ^ 31 < queue_size
    → j ≤ 31
    → align_loop fuel queue_size (2 ^ j) ≡ none
unfolding align_loop
align_loop-none zero queue_size j h bound = refl
align_loop-none (suc fuel) queue_size j h bound = elim (ℕ_discrete j 31) [
  | yes e ↦
      rw (e, lt→ltb (2 ^ 31) queue_size h) (align_loop-none_zero fuel queue_size (omega arith))
  | no ne ↦
      rw
        (
          lt→ltb (2 ^ j) queue_size
              (omega (arith, pow-le-pow_right {n = 2} (omega arith) {i = j} {j = 31} bound)),
          doubled j (omega arith),
        )
        (align_loop-none fuel queue_size (suc j) h (omega arith))
]

-- For a larger size the doubled value wraps to 0, and the loop runs for ever.
pub align_diverges :
    (fuel queue_size : ℕ) → 2 ^ 31 < queue_size → align_loop fuel queue_size 1 ≡ none
align_diverges fuel queue_size h = align_loop-none fuel queue_size 0 h (omega arith)

pub align_big : (queue_size : ℕ) → 2 ^ 31 < queue_size → align queue_size ≡ none
unfolding align
align_big queue_size h = align_diverges 33 queue_size h
