-- ===== src/Flags.antt =====
-- The flags that say which requests of a pool are in use, as both request queues keep them.
use nblock.Prelude.{
  ℕ, zero, suc, ◌+◌, ◌≤◌, ◌<◌, ◌≡◌, refl, sym, ap, ◌∙◌, ◌⊎◌, inl, inr, arith, Bool, true, false,
  List, [], ◌∷◌, Option, none, some, get_or, set, length, replicate, if◌then◌else◌,
}

-- The loop over `used_flags`: the first place from `i` on that is not in use.
unfoldable pub first_unused : ℕ → List Bool → Option ℕ
first_unused i [] = none
first_unused i (used ∷ flags) =
    let rest = first_unused (i + 1) flags in if used then rest else some i

-- The number of flags that are set.
abbrev pub count_used : List Bool → ℕ
count_used [] = 0
count_used (true ∷ flags) = suc (count_used flags)
count_used (false ∷ flags) = count_used flags

pub count_used-le : (flags : List Bool) → count_used flags ≤ length flags
count_used-le [] = omega arith
count_used-le (true ∷ flags) = omega (arith, count_used-le flags)
count_used-le (false ∷ flags) = omega (arith, count_used-le flags)

pub count_used-set :
    (flags : List Bool) (p : ℕ)
    → p < length flags
    → get_or flags p true ≡ false
    → count_used (set flags p true) ≡ suc (count_used flags)
count_used-set [] p h e = elim h [ ]
count_used-set (true ∷ flags) zero h e = cc
count_used-set (false ∷ flags) zero h e = refl
count_used-set (true ∷ flags) (suc p) h e = ap suc (count_used-set flags p (omega arith) e)
count_used-set (false ∷ flags) (suc p) h e = count_used-set flags p (omega arith) e

pub count_used-unset :
    (flags : List Bool) (p : ℕ)
    → get_or flags p false ≡ true
    → suc (count_used (set flags p false)) ≡ count_used flags
count_used-unset [] p e = cc
count_used-unset (true ∷ flags) zero e = refl
count_used-unset (false ∷ flags) zero e = cc
count_used-unset (true ∷ flags) (suc p) e = ap suc (count_used-unset flags p e)
count_used-unset (false ∷ flags) (suc p) e = count_used-unset flags p e

-- The search fails only if every place is in use, and otherwise finds the first free one.
pub first_unused_lem :
    (i : ℕ) (flags : List Bool)
    → ((first_unused i flags ≡ none) × (count_used flags ≡ length flags))
      ⊎ ((p : ℕ) × (first_unused i flags ≡ some (i + p))
          × (p < length flags)
          × (get_or flags p true ≡ false)
          × ((j : ℕ) → j < p → get_or flags j false ≡ true))
unfolding first_unused
first_unused_lem i [] = inl (refl, refl)
first_unused_lem i (true ∷ flags) = elim (first_unused_lem (i + 1) flags) [
  | inl (e, full) ↦ inl (e, ap suc full)
  | inr (p, e, l, free, before) ↦
      inr (suc p, e ∙ ap some (omega arith), omega arith, free, earlier p before)
]
  where
    earlier :
        (p : ℕ)
        → ((j : ℕ) → j < p → get_or flags j false ≡ true)
        → (j : ℕ) → j < suc p
        → get_or (true ∷ flags) j false ≡ true
    earlier p before zero h = refl
    earlier p before (suc j) h = before j (omega arith)
first_unused_lem i (false ∷ flags) =
    inr (0, ap some (omega arith), omega arith, refl, λ j h. absurd (omega arith))

pub in_range : (flags : List Bool) (p : ℕ) → get_or flags p false ≡ true → p < length flags
in_range [] p e = cc
in_range (b ∷ flags) zero e = omega arith
in_range (b ∷ flags) (suc p) e = omega (arith, in_range flags p e)

pub set_back :
    (flags : List Bool) (p : ℕ)
    → get_or flags p true ≡ false
    → set (set flags p true) p false ≡ flags
set_back [] p e = refl
set_back (b ∷ flags) zero e = ap (λ c. c ∷ flags) (sym e)
set_back (b ∷ flags) (suc p) e = ap (◌∷◌ b) (set_back flags p e)

pub count_used-replicate : (n : ℕ) → count_used (replicate n false) ≡ 0
count_used-replicate zero = refl
count_used-replicate (suc n) = count_used-replicate n

pub none_used : (n p : ℕ) → get_or (replicate n false) p false ≡ false
none_used zero p = refl
none_used (suc n) zero = refl
none_used (suc n) (suc p) = none_used n p
