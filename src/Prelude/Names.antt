-- ===== src/Prelude/Names.antt =====
-- C strings: a name is the list of its bytes without the final 0.
use Prim.Native.Nat.{ℕ}
use mathlib.Core.Path.{◌≡◌, refl, ap₂}
use mathlib.Core.Bool.{Bool, true, false}
use mathlib.Core.List.{List, [], ◌∷◌}
use native.Mathlib.Omega.{arith}
use nblock.Prelude.Tests.{◌==◌, if◌then◌else◌}
use nblock.Prelude.Lists.{take, length, take_all}
use Prim.Native.Nat.{◌≤◌}

abbrev pub Name : Type 0
Name = List ℕ

-- `strcmp(a, b) == 0`
abbrev pub same_name : Name → Name → Bool
same_name [] [] = true
same_name [] (b ∷ other) = false
same_name (a ∷ name) [] = false
same_name (a ∷ name) (b ∷ other) = let rest = same_name name other in if a == b then rest else false

-- `name[0] == '\0'`
abbrev pub is_blank : Name → Bool
is_blank [] = true
is_blank (c ∷ name) = false

-- `strncpy` into `char name[256]`, with the last byte set to 0.
unfoldable pub clip : Name → Name
clip name = take 255 name

pub clip_short : (name : Name) → length name ≤ 255 → clip name ≡ name
unfolding clip
clip_short name h = take_all 255 name h

-- The test on names is a test of equality.
pub same_name_self : (name : Name) → same_name name name ≡ true
same_name_self [] = refl
same_name_self (c ∷ name) = ground (arith, same_name_self name)

pub same_name_eq : (a b : Name) → same_name a b ≡ true → a ≡ b
same_name_eq [] [] e = refl
same_name_eq [] (b ∷ other) e = cc e
same_name_eq (a ∷ name) [] e = cc e
same_name_eq (a ∷ name) (b ∷ other) e =
    ap₂ ◌∷◌ (ground arith) (same_name_eq name other (ground arith))

pub same_name_comm : (a b : Name) → same_name a b ≡ same_name b a
same_name_comm [] [] = refl
same_name_comm [] (b ∷ other) = refl
same_name_comm (a ∷ name) [] = refl
same_name_comm (a ∷ name) (b ∷ other) = ground (arith, same_name_comm name other)

pub same_name_blank : (a b : Name) → is_blank a ≡ true → is_blank b ≡ false → same_name a b ≡ false
same_name_blank [] [] blank filled = filled
same_name_blank [] (c ∷ b) blank filled = refl
same_name_blank (c ∷ a) b blank filled = absurd (cc blank)
