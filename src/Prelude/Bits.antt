-- ===== src/Prelude/Bits.antt =====
-- `&` with a mask of low bits, and the test `n & (n - 1)`, as arithmetic. `bit_and a b` takes the
-- digits of `a` one by one, `a` being the number of rounds at most; the lemmas with `rounds` are about
-- any number of rounds that is not less.
use Prim.Native.Nat.{
  ℕ, zero, suc, ◌+◌, ◌-◌, ◌*◌, ◌/◌, ◌%◌, ◌^◌, ◌≤◌, ◌<◌, min, bit_and, digits, bit_and-bitwise,
}
use mathlib.Core.Path.{◌≡◌, refl, sym, ap, ◌∙◌}
use native.Mathlib.Nat.{
  pow-suc, one-le-pow, div-add-mod', add-mul-mod_self_right, mod-eq_of_lt, mod-lt, mod_self,
  zero-mod,
}
use native.Mathlib.Decide.{ℕ_discrete}
use native.Mathlib.Omega.{arith}

abbrev common : ℕ → ℕ → ℕ → ℕ
common rounds x y = digits (λ _. 0) min rounds x y

common-zero : (rounds x : ℕ) → common rounds x 0 ≡ 0
common-zero zero x = refl
common-zero (suc rounds) zero = refl
common-zero (suc rounds) (suc x) = omega (arith, common-zero rounds (suc x / 2))

common_self : (rounds x : ℕ) → x ≤ rounds → common rounds x x ≡ x
common_self zero zero l = refl
common_self zero (suc x) l = elim l [ ]
common_self (suc rounds) zero l = refl
common_self (suc rounds) (suc x) l = omega (arith, common_self rounds (suc x / 2) (omega arith))

-- The remainder by `2 * m` is that of the half by `m`, and the lowest bit.
mod_double : (a m : ℕ) → 0 < m → a % (m * 2) ≡ a / 2 % m * 2 + a % 2
mod_double a m h =
    let low : ℕ = a / 2 % m * 2 + a % 2 in
    let whole : a ≡ low + a / 2 / m * (m * 2) = omega (arith, div-add-mod' (a / 2) m) in
    ap (λ (t : ℕ). t % (m * 2)) whole
    ∙ (add-mul-mod_self_right low (a / 2 / m) (m * 2)
        ∙ mod-eq_of_lt (omega (arith, mod-lt (a / 2) h)))

common_mask : (rounds k x : ℕ) → x ≤ rounds → common rounds x (2 ^ k - 1) ≡ x % 2 ^ k
common_mask rounds zero x l = omega (arith, common-zero rounds x)
common_mask zero (suc k) x l =
    omega (arith, zero-mod (2 ^ suc k), ap (λ t. t % 2 ^ suc k) {x = x} {y = 0} (omega arith))
common_mask (suc rounds) (suc k) zero l = omega (arith, zero-mod (2 ^ suc k))
common_mask (suc rounds) (suc k) (suc x) l =
    let pos : 1 ≤ 2 ^ k = one-le-pow k 2 (omega arith) in
    let half : (2 ^ k * 2 - 1) / 2 ≡ 2 ^ k - 1 = omega arith in
    rw
      (
        pow-suc 2 k,
        mod_double (suc x) (2 ^ k) pos,
        half,
        common_mask rounds k (suc x / 2) (omega arith),
      )
      (omega arith)

-- A mask of `k` low bits takes the remainder by `2 ^ k`.
pub bit_and_mask : (k a : ℕ) → bit_and a (2 ^ k - 1) ≡ a % 2 ^ k
bit_and_mask k a = bit_and-bitwise a (2 ^ k - 1) ∙ common_mask a k a (omega arith)

-- `n & (n - 1)` drops the lowest set bit, so it is zero for powers of two only.
common_pred :
    (rounds x : ℕ) → suc x ≤ rounds → common rounds (suc x) x ≡ 0 → (k : ℕ) × (suc x ≡ 2 ^ k)
common_pred zero x l e = elim l [ ]
common_pred (suc rounds) x l e = elim (ℕ_discrete (suc x % 2) 0) [
  | yes even ↦
      let half : suc x / 2 ≡ suc (x / 2) = omega arith in
      let (k, p) = common_pred rounds (x / 2) (omega arith) (rw⁻¹ half (omega (arith, e))) in
      (suc k, omega (arith, pow-suc 2 k, p))
  | no odd ↦
      let same : x / 2 ≡ suc x / 2 = omega arith in
      let rest = common_self rounds (suc x / 2) (omega arith) in
      (0, omega (arith, rw same at e, rest))
]

pub one_bit : (n : ℕ) → 0 < n → bit_and n (n - 1) ≡ 0 → (k : ℕ) × (n ≡ 2 ^ k)
one_bit zero pos e = elim pos [ ]
one_bit (suc n) pos e = common_pred (suc n) n (omega arith) (
    sym (bit_and-bitwise (suc n) n)
    ∙ (ap (bit_and (suc n)) {x = n} {y = suc n - 1} (omega arith) ∙ e))

pub pow_one_bit : (k : ℕ) → bit_and (2 ^ k) (2 ^ k - 1) ≡ 0
pow_one_bit k = bit_and_mask k (2 ^ k) ∙ mod_self (2 ^ k)
