-- ===== src/Stats/Slots.antt =====
-- Indices into the circular array of src/libxbdev/stats.c.
use native.Mathlib.Nat.{mod-eq_of_lt, add-mod_right}
use native.Mathlib.Decide.{ℕ_discrete, dec_lt}
use nblock.Prelude.{
  ℕ, zero, suc, ◌+◌, ◌-◌, ◌%◌, ◌^◌, ◌<◌, ◌≤◌, ◌==◌, ltb, if◌then◌else◌, List, [], ◌∷◌, get_or, take,
  length, ◌≡◌, ◌≢◌, refl, ap, ◌∙◌, arith,
}

-- The slot of the sample that was recorded `i` samples before the last.
abbrev pub slot : ℕ → ℕ → ℕ → ℕ
slot capacity index i = if ltb i index then index - 1 - i else (index + capacity) - 1 - i

abbrev pub next : ℕ → ℕ → ℕ
next capacity index = if index + 1 == capacity then 0 else index + 1

pub mod_wrap : (n k : ℕ) → k ≤ n → n < k + k → n % k ≡ n - k
mod_wrap n k big small =
    ap (λ v. v % k) (omega arith) ∙ add-mod_right (n - k) k ∙ mod-eq_of_lt (omega arith)

pub mod-next :
    (capacity index : ℕ)
    → index < capacity
    → capacity < 2 ^ 32
    → (index + 1) % 2 ^ 32 % capacity ≡ next capacity index
mod-next capacity index small word =
    let whole = ap (λ v. v % capacity) (mod-eq_of_lt {n = index + 1} {m = 2 ^ 32} (omega arith)) in
    elim (ℕ_discrete (index + 1) capacity) [
      | yes same ↦ whole ∙ mod_wrap (index + 1) capacity (omega arith) (omega arith) ∙ ground arith
      | no differ ↦ whole ∙ mod-eq_of_lt (omega arith) ∙ ground arith
    ]

-- The index that is read, with its wrap-around, where twice the capacity fits the word.
pub index_lem :
    (capacity index i : ℕ)
    → index < capacity
    → i < capacity
    → capacity ≤ 2 ^ 31
    → ((index + 2 ^ 32 - 1 - i) % 2 ^ 32 + capacity) % 2 ^ 32 % capacity ≡ slot capacity index i
index_lem capacity index i small near word = elim (dec_lt i index) [
  | yes before ↦
      let inner : (index + 2 ^ 32 - 1 - i) % 2 ^ 32 ≡ index - 1 - i =
        mod_wrap (index + 2 ^ 32 - 1 - i) (2 ^ 32) (omega arith) (omega arith) ∙ omega arith in
      let outer : (index - 1 - i + capacity) % 2 ^ 32 ≡ index - 1 - i + capacity =
        mod-eq_of_lt (omega arith) in
      ap (λ v. (v + capacity) % 2 ^ 32 % capacity) inner
      ∙ ap (λ v. v % capacity) outer
      ∙ mod_wrap (index - 1 - i + capacity) capacity (omega arith) (omega arith)
      ∙ ground arith
  | no after ↦
      let inner : (index + 2 ^ 32 - 1 - i) % 2 ^ 32 ≡ index + 2 ^ 32 - 1 - i =
        mod-eq_of_lt (omega arith) in
      let outer : (index + 2 ^ 32 - 1 - i + capacity) % 2 ^ 32 ≡ index + capacity - 1 - i =
        mod_wrap (index + 2 ^ 32 - 1 - i + capacity) (2 ^ 32) (omega arith) (omega arith)
        ∙ omega arith in
      ap (λ v. (v + capacity) % 2 ^ 32 % capacity) inner
      ∙ ap (λ v. v % capacity) outer
      ∙ mod-eq_of_lt (omega arith)
      ∙ ground arith
]

pub slot-next_zero :
    (capacity index : ℕ) → index < capacity → slot capacity (next capacity index) 0 ≡ index
slot-next_zero capacity index small = ground arith

pub slot-next-suc :
    (capacity index j : ℕ)
    → index < capacity
    → suc j < capacity
    → slot capacity (next capacity index) (suc j) ≡ slot capacity index j
slot-next-suc capacity index j small near = ground arith

pub slot_other :
    (capacity index j : ℕ) → index < capacity → suc j < capacity → index ≢ slot capacity index j
slot_other capacity index j small near same = ground (arith, same)

pub get_or-take :
    {Sample : Type 0} (n : ℕ) (xs : List Sample) (i : ℕ) (d : Sample)
    → i < n
    → get_or (take n xs) i d ≡ get_or xs i d
get_or-take zero xs i d small = elim small [ ]
get_or-take (suc n) [] i d small = refl
get_or-take (suc n) (x ∷ xs) zero d small = refl
get_or-take (suc n) (x ∷ xs) (suc i) d small = get_or-take n xs i d (omega arith)

-- What is left of a list behind its first `n` elements.
abbrev pub drop {ℓ} : {A : Type ℓ} → ℕ → List A → List A
drop zero xs = xs
drop (suc n) [] = []
drop (suc n) (x ∷ xs) = drop n xs

pub take-drop :
    {Sample : Type 0} (xs : List Sample) (i n : ℕ) (d : Sample)
    → i < length xs
    → take (suc n) (drop i xs) ≡ get_or xs i d ∷ take n (drop (suc i) xs)
take-drop [] i n d small = elim small [ ]
take-drop (x ∷ xs) zero n d small = refl
take-drop (x ∷ xs) (suc i) n d small = take-drop xs i n d (omega arith)
