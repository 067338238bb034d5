-- ===== src/Ring/Inv.antt =====
-- The invariant of a ring of 2 ^ k slots, and the mask as a remainder.
use native.Mathlib.Nat.{mod-lt, one-le-pow, pow-le-pow_right}
use native.Mathlib.Decide.{dec_lt}
use nblock.Prelude.{
  ℕ, ◌+◌, ◌-◌, ◌%◌, ◌^◌, ◌≤◌, ◌<◌, ◌≡◌, ◌∙◌, ap, ◌↔◌, arith, length, length-set, length-replicate,
  replicate, bit_and, bit_and_mask, one_bit, pow_one_bit, Bool, true, none,
}
use nblock.Prelude.Errno.{ok}
use nblock.Ring.{Ring, Ptr, add32, init, enqueue, dequeue}

pub record IsValid (k : ℕ) (ring : Ring) : Type 0 where
  pub small : k ≤ 31
  pub size_pow : ring.size ≡ 2 ^ k
  pub mask_low : ring.mask ≡ 2 ^ k - 1
  pub storage : length ring.buffer ≡ 2 ^ k
  pub head_in : ring.head < 2 ^ k
  pub tail_in : ring.tail < 2 ^ k

pub pow_bounds : (k : ℕ) → k ≤ 31 → (1 ≤ 2 ^ k) × (2 ^ k ≤ 2 ^ 31)
pow_bounds k h = (one-le-pow k 2 (omega arith), pow-le-pow_right {n = 2} (omega arith) h)

pub mask_step :
    {k : ℕ} (i : ℕ) → k ≤ 31 → i < 2 ^ k → bit_and (add32 i 1) (2 ^ k - 1) ≡ (i + 1) % 2 ^ k
mask_step {k = k} i small h =
    bit_and_mask k (add32 i 1) ∙ ap (λ (t : ℕ). t % 2 ^ k) (omega (arith, pow_bounds k small))

pub small_exponent : (k : ℕ) → 2 ^ k < 2 ^ 32 → k ≤ 31
small_exponent k h = elim (dec_lt 31 k) [
  | yes big ↦ absurd (omega (arith, pow-le-pow_right {n = 2} (omega arith) {i = 32} {j = k} big))
  | no low ↦ omega arith
]

init_inv :
    (allocated : Bool) (size : ℕ) (ring : Ring) {fresh : Ring}
    → init allocated size ring ≡ (ok, fresh)
    → (allocated ≡ true)
      × (0 < size)
      × (bit_and size (size - 1) ≡ 0)
      × (fresh.size ≡ size)
      × (fresh.mask ≡ size - 1)
      × (fresh.buffer ≡ replicate size none)
      × (fresh.head ≡ 0)
      × (fresh.tail ≡ 0)
unfolding init
init_inv allocated size ring e = ground arith

init_accepts :
    (size : ℕ) (ring : Ring) → 0 < size → bit_and size (size - 1) ≡ 0 → (init true size ring).0 ≡ ok
unfolding init
init_accepts size ring pos e = ground arith

-- `ring_init` of a `uint32_t` size returns 0 exactly when the size is a power of two and the
-- buffer was allocated.
pub init-ok_iff :
    (allocated : Bool) (size : ℕ) (ring : Ring)
    → size < 2 ^ 32
    → ((init allocated size ring).0 ≡ ok) ↔ ((allocated ≡ true) × ((k : ℕ) × (size ≡ 2 ^ k)))
init-ok_iff allocated size ring fits = (
  λ e.
      let p = init_inv allocated size ring (ap (λ rc. (rc, (init allocated size ring).1)) e) in
      (p.0, one_bit size p.1 p.2),
  λ h.
      rw (h.0, h.1.1)
        (init_accepts (2 ^ h.1.0) ring (one-le-pow h.1.0 2 (omega arith)) (pow_one_bit h.1.0)),
)

-- A ring that `ring_init` set up for 2 ^ k slots is valid and empty.
pub init-IsValid :
    (allocated : Bool) (k : ℕ) (ring : Ring) {fresh : Ring}
    → 2 ^ k < 2 ^ 32
    → init allocated (2 ^ k) ring ≡ (ok, fresh)
    → IsValid k fresh × (fresh.head ≡ 0) × (fresh.tail ≡ 0)
init-IsValid allocated k ring fits e = ground (
  arith,
  init_inv allocated (2 ^ k) ring e,
  small_exponent k,
  one-le-pow k 2,
  length-replicate {A = Ptr} (2 ^ k) none,
)

-- `ring_enqueue` keeps the invariant, whether it stores the request or not.
pub enqueue-IsValid :
    (k : ℕ) {ring : Ring} (req : Ptr) → IsValid k ring → IsValid k (enqueue ring req).1
unfolding enqueue
enqueue-IsValid k {ring} req v = ground (
  arith,
  length-set ring.buffer ring.head req,
  mask_step {k = k} ring.head,
  pow_bounds k,
  mod-lt (ring.head + 1) {m = 2 ^ k},
)

-- `ring_dequeue` keeps the invariant, on an empty ring too.
pub dequeue-IsValid : (k : ℕ) {ring : Ring} → IsValid k ring → IsValid k (dequeue ring).2
unfolding dequeue
dequeue-IsValid k {ring} v =
    ground (arith, mask_step {k = k} ring.tail, pow_bounds k, mod-lt (ring.tail + 1) {m = 2 ^ k})
