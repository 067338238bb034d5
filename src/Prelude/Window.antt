-- ===== src/Prelude/Window.antt =====
-- A stretch of a circular buffer: what a ring holds, oldest first.
use native.Mathlib.Nat.{suc-mod, mod-lt, div-add-mod', mod-mod, mod-eq_of_lt}
use Prim.Native.Nat.{ℕ, zero, suc, ◌+◌, ◌%◌, ◌≤◌, ◌<◌}
use mathlib.Core.Path.{◌≡◌, refl, sym, ap, ap₂, ◌∙◌}
use mathlib.Core.Logic.{◌≢◌}
use mathlib.Core.List.{List, [], ◌∷◌, ◌++◌}
use native.Mathlib.Omega.{arith}
use nblock.Prelude.Lists.{length, get_or, set, get_or-set_self, get_or-set_ne}

-- Two numbers less than `cap` apart have different remainders.
pub mod_distinct : (cap a j n : ℕ) → j < n → n < cap → (a + n) % cap ≢ (a + j) % cap
mod_distinct cap a j n l m e = grind (arith, div-add-mod' (a + n) cap, div-add-mod' (a + j) cap)

module _ {ℓ} {A : Type ℓ} (d : A) (cap : ℕ) where
  -- The `n` slots from index `start` on. The index is reduced where a slot is read.
  abbrev pub window : List A → ℕ → ℕ → List A
  window buf start zero = []
  window buf start (suc n) = get_or buf (start % cap) d ∷ window buf (suc start) n

  pub length-window : (buf : List A) (start n : ℕ) → length (window buf start n) ≡ n
  length-window buf start zero = refl
  length-window buf start (suc n) = ap suc (length-window buf (suc start) n)

  -- The slot after the last one extends the window at its end.
  pub window_snoc :
      (buf : List A) (start n : ℕ)
      → window buf start (suc n) ≡ window buf start n ++ get_or buf ((start + n) % cap) d ∷ []
  window_snoc buf start zero = ap (λ (k : ℕ). get_or buf (k % cap) d ∷ []) (omega arith)
  window_snoc buf start (suc n) = ap (◌∷◌ (get_or buf (start % cap) d)) (
      window_snoc buf (suc start) n
      ∙ ap (λ (k : ℕ). window buf (suc start) n ++ get_or buf (k % cap) d ∷ []) (omega arith))

  -- A write to a slot outside the window does not change it.
  pub window-set_outside :
      (buf : List A) (start n i : ℕ) (v : A)
      → ((j : ℕ) → j < n → i ≢ (start + j) % cap)
      → window (set buf i v) start n ≡ window buf start n
  window-set_outside buf start zero i v h = refl
  window-set_outside buf start (suc n) i v h =
      ap₂ ◌∷◌
        (get_or-set_ne buf i (start % cap) v d
          (λ e. h 0 (omega arith) (e ∙ ap (λ (k : ℕ). k % cap) (omega arith))))
        (window-set_outside buf (suc start) n i v
          (λ j l e. h (suc j) (omega arith) (e ∙ ap (λ (k : ℕ). k % cap) (omega arith))))

  -- Only the remainder of the start counts.
  pub window_mod : (buf : List A) (a b n : ℕ) → a % cap ≡ b % cap → window buf a n ≡ window buf b n
  window_mod buf a b zero e = refl
  window_mod buf a b (suc n) e = ap₂ ◌∷◌ (ap (λ (k : ℕ). get_or buf k d) e) (
      window_mod buf (suc a) (suc b) n
        (suc-mod a cap ∙ ap (λ (k : ℕ). suc k % cap) e ∙ sym (suc-mod b cap)))

  -- A write to the slot after the window appends to it.
  pub window_push :
      (buf : List A) (start n i : ℕ) (xs : List A) (v : A)
      → n < cap
      → cap ≤ length buf
      → i ≡ (start + n) % cap
      → window buf start n ≡ xs
      → window (set buf i v) start (suc n) ≡ xs ++ v ∷ []
  window_push buf start n i xs v room stored at e =
      window_snoc (set buf i v) start n
      ∙ ap₂ (λ ys (y : A). ys ++ y ∷ [])
          (window-set_outside buf start n i v
              (λ j l p. mod_distinct cap start j n l room (sym at ∙ p))
            ∙ e)
          (ap (λ (k : ℕ). get_or (set buf i v) k d) (sym at)
            ∙ get_or-set_self buf i v d (omega (arith, mod-lt (start + n) {m = cap})))

  -- The first slot of a window, and the window behind it, with its start reduced.
  pub window_pop :
      (buf : List A) (start n : ℕ) (x : A) (xs : List A)
      → start < cap
      → window buf start (suc n) ≡ x ∷ xs
      → (get_or buf start d ≡ x) × (window buf ((start + 1) % cap) n ≡ xs)
  window_pop buf start n x xs t e = (
    ap (λ (i : ℕ). get_or buf i d) (sym (mod-eq_of_lt t)) ∙ head_of e,
    window_mod buf ((start + 1) % cap) (suc start) n
          (mod-mod (start + 1) cap ∙ ap (λ (i : ℕ). i % cap) (omega arith))
        ∙ tail_of e,
  )
    where
      head_of : {y z : A} {ys zs : List A} → y ∷ ys ≡ z ∷ zs → y ≡ z
      head_of p = cc

      tail_of : {y z : A} {ys zs : List A} → y ∷ ys ≡ z ∷ zs → ys ≡ zs
      tail_of p = cc
