-- ===== src/Ring/Refine.antt =====
-- A valid ring of 2 ^ k slots is the bounded queue of at most 2 ^ k - 1 requests: `ring_enqueue`
-- keeps one slot free, so that a full ring is not taken for an empty one.
use native.Mathlib.Nat.{
  mod-eq_of_lt, mod-eq-sub-mod, mod-add-mod, add-mod_right, add-mul-mod_self_right, pow-suc,
}
use native.Mathlib.Decide.{ℕ_discrete, dec_lt}
use nblock.Prelude.{
  ℕ, zero, suc, ◌+◌, ◌-◌, ◌*◌, ◌%◌, ◌^◌, ◌≤◌, ◌<◌, ◌≡◌, ◌≢◌, refl, sym, ap, ap₂, ◌∙◌, List, [], ◌∷◌,
  ◌++◌, Option, none, some, map, arith, length, length-append, set, bit_and, bit_and_mask,
}
use nblock.Prelude.Errno.{enospc, Rc}
use nblock.Prelude.Window.{window, window_push, window_pop, mod_distinct}
use mathlib.Core.Option
use nblock.Fifo
use nblock.Fifo.{Op, put, get, Reply}
use nblock.Ring.{Ring, Ptr, add32, sub32, enqueue, dequeue, used}
use nblock.Ring.Inv.{IsValid, pow_bounds, mask_step, enqueue-IsValid, dequeue-IsValid}

abbrev pub ptrs : List ℕ → List Ptr
ptrs = map some

pub length-ptrs : (q : List ℕ) → length (ptrs q) ≡ length q
length-ptrs [] = refl
length-ptrs (x ∷ q) = ap suc (length-ptrs q)

pub ptrs-append : (q : List ℕ) (x : ℕ) → ptrs (q ++ x ∷ []) ≡ ptrs q ++ some x ∷ []
ptrs-append [] x = refl
ptrs-append (y ∷ q) x = ap (◌∷◌ (some y)) (ptrs-append q x)

-- The ring holds the requests `q`, oldest first.
pub record Holds (k : ℕ) (ring : Ring) (q : List ℕ) : Type 0 where
  pub room : length q < 2 ^ k
  pub head_at : ring.head ≡ (ring.tail + length q) % 2 ^ k
  pub slots : window none (2 ^ k) ring.buffer ring.tail (length q) ≡ ptrs q

-- The head after the next insertion meets the tail only where one slot is left.
next_ne : (m tail n : ℕ) → tail < m → suc n < m → ((tail + n) % m + 1) % m ≢ tail
next_ne m tail n t l e = mod_distinct m tail 0 (suc n) (omega arith) l (
    ap (λ (i : ℕ). i % m) {y = tail + n + 1} (omega arith)
    ∙ (sym (mod-add-mod (tail + n) m 1)
        ∙ (e ∙ (sym (mod-eq_of_lt t) ∙ ap (λ (i : ℕ). i % m) (omega arith)))))

next_eq : (m tail n : ℕ) → tail < m → suc n ≡ m → ((tail + n) % m + 1) % m ≡ tail
next_eq m tail n t l =
    mod-add-mod (tail + n) m 1
    ∙ (ap (λ (i : ℕ). i % m) {y = tail + m} (omega arith) ∙ (add-mod_right tail m ∙ mod-eq_of_lt t))

module _ {k : ℕ} {ring : Ring} {q : List ℕ} (v : IsValid k ring) (h : Holds k ring q) where
  slots-push :
      (x : ℕ)
      → window none (2 ^ k) (set ring.buffer ring.head (some x)) ring.tail (length (q ++ x ∷ []))
        ≡ ptrs (q ++ x ∷ [])
  slots-push x =
      ap (window none (2 ^ k) (set ring.buffer ring.head (some x)) ring.tail) {y = suc (length q)}
        (omega (arith, length-append q (x ∷ [])))
      ∙ (window_push none (2 ^ k) ring.buffer ring.tail (length q) ring.head (ptrs q) (some x)
            h.room (omega arith) h.head_at h.slots
          ∙ sym (ptrs-append q x))

  next_head : bit_and (add32 ring.head 1) ring.mask ≡ ((ring.tail + length q) % 2 ^ k + 1) % 2 ^ k
  next_head =
      ap (bit_and (add32 ring.head 1)) v.mask_low
      ∙ (mask_step ring.head v.small v.head_in ∙ ap (λ (i : ℕ). (i + 1) % 2 ^ k) h.head_at)

-- The return code and the queue that is left are those of `Fifo.push`.
pub enqueue_refines :
    (k : ℕ) (ring : Ring) (q : List ℕ) (x : ℕ)
    → IsValid k ring
    → Holds k ring q
    → let (rc, ring') = enqueue ring (some x) in
      let (rc', q') = Fifo.push enospc (2 ^ k - 1) q x in (rc ≡ rc') × Holds k ring' q'
unfolding enqueue Fifo.push
enqueue_refines k ring q x v h = ground (
  arith,
  slots-push v h x,
  next_head v h,
  next_ne (2 ^ k) ring.tail (length q),
  next_eq (2 ^ k) ring.tail (length q),
  length-append q (x ∷ []),
  mod-add-mod (ring.tail + length q) (2 ^ k) 1,
)

-- The return code, the request and the queue that is left are those of `Fifo.pop`.
pub dequeue_refines :
    (k : ℕ) (ring : Ring) (q : List ℕ)
    → IsValid k ring
    → Holds k ring q
    → let (rc, out, ring') = dequeue ring in
      let ((rc', out'), q') = Fifo.pop q in
      (rc ≡ rc') × (out ≡ Option.map some out') × Holds k ring' q'
unfolding dequeue Fifo.pop
dequeue_refines k ring [] v h = ground (arith, mod-eq_of_lt v.tail_in)
dequeue_refines k ring (x ∷ q) v h = ground (
  arith,
  window_pop none (2 ^ k) ring.buffer ring.tail (length q) (some x) (ptrs q),
  mask_step {k = k} ring.tail,
  mod_distinct (2 ^ k) ring.tail 0 (suc (length q)),
  mod-eq_of_lt v.tail_in,
  mod-add-mod (ring.tail + 1) (2 ^ k) (length q),
)

-- `2 ^ j` is a multiple of `2 ^ k`.
pow_multiple : (j k : ℕ) → k ≤ j → (c : ℕ) × (2 ^ j ≡ c * 2 ^ k)
pow_multiple zero k h = (1, ap (λ (i : ℕ). 2 ^ i) {x = 0} {y = k} (omega arith) ∙ omega arith)
pow_multiple (suc j) k h = elim (ℕ_discrete k (suc j)) [
  | yes e ↦ (1, ap (λ (i : ℕ). 2 ^ i) (sym e) ∙ omega arith)
  | no ne ↦ let (c, p) = pow_multiple j k (omega arith) in (c * 2, omega (arith, pow-suc 2 j, p))
]

-- `(2 ^ 32 - (m - n)) % m` is `n`, for a divisor `m` of 2 ^ 32.
wrapped_mod : (c m n : ℕ) → 2 ^ 32 ≡ c * m → n < m → (2 ^ 32 - (m - n)) % m ≡ n
wrapped_mod zero m n e l = absurd (omega arith)
wrapped_mod (suc c) m n e l =
    ap (λ (i : ℕ). i % m) {y = n + c * m} (omega (arith, e))
    ∙ (add-mul-mod_self_right n c m ∙ mod-eq_of_lt l)

used_lt :
    (m head tail n c : ℕ)
    → 2 ^ 32 ≡ c * m
    → m ≤ 2 ^ 31
    → tail < m
    → n < m
    → head ≡ (tail + n) % m
    → sub32 head tail % m ≡ n
used_lt m head tail n c e small t l at = elim (dec_lt (tail + n) m) [
  | yes p ↦
      ap (λ (i : ℕ). i % m) {x = sub32 head tail} {y = n} (omega (arith, mod-eq_of_lt p))
      ∙ mod-eq_of_lt l
  | no p ↦
      ap (λ (i : ℕ). i % m) {x = sub32 head tail} {y = 2 ^ 32 - (m - n)}
        (omega (
          arith,
          mod-eq-sub-mod {n = tail + n} {m = m} (omega arith),
          mod-eq_of_lt {n = tail + n - m} {m = m} (omega arith),
        ))
      ∙ wrapped_mod c m n e l
]

-- `(head - tail) & mask`, in `uint32_t` arithmetic that may wrap, is the number of requests that a
-- valid ring holds.
pub used_lem :
    (k : ℕ) (ring : Ring) (q : List ℕ) → IsValid k ring → Holds k ring q → used ring ≡ length q
unfolding used
used_lem k ring q v h =
    ap (bit_and (sub32 ring.head ring.tail)) v.mask_low
    ∙ (bit_and_mask k (sub32 ring.head ring.tail)
        ∙ used_lt (2 ^ k) ring.head ring.tail (length q) (pow_multiple 32 k (omega arith)).0
            (pow_multiple 32 k (omega arith)).1 (pow_bounds k v.small).1 v.tail_in h.room h.head_at)

-- The calls of a client in order, each with what it returns.
pub run : Ring → List Op → List (Rc × Option Ptr) × Ring
run ring [] = ([], ring)
run ring (put x ∷ ops) =
    let (rc, ring') = enqueue ring (some x) in
    let (replies, last) = run ring' ops in ((rc, none) ∷ replies, last)
run ring (get ∷ ops) =
    let (rc, out, ring') = dequeue ring in
    let (replies, last) = run ring' ops in ((rc, out) ∷ replies, last)

-- A reply of the queue, with the request as a pointer.
abbrev pub ptr_reply : Reply → Rc × Option Ptr
ptr_reply (rc, out) = (rc, Option.map some out)

-- No sequence of calls tells a valid ring from the bounded queue of the requests that it holds,
-- and the ring holds the queue's requests when it ends.
pub run_refines :
    (k : ℕ) (ops : List Op) (ring : Ring) (q : List ℕ)
    → IsValid k ring
    → Holds k ring q
    → let (replies, ring') = run ring ops in
      let (replies', q') = Fifo.run enospc (2 ^ k - 1) q ops in
      (replies ≡ map ptr_reply replies') × IsValid k ring' × Holds k ring' q'
unfolding run Fifo.run
run_refines k [] ring q v h = (refl, v, h)
run_refines k (put x ∷ ops) ring q v h =
    let (rc, h') = enqueue_refines k ring q x v h in
    let (replies, v', held) = run_refines k ops _ _ (enqueue-IsValid k (some x) v) h' in
    (ap₂ ◌∷◌ (ap (λ c. (c, none)) rc) replies, v', held)
run_refines k (get ∷ ops) ring q v h =
    let (rc, out, h') = dequeue_refines k ring q v h in
    let (replies, v', held) = run_refines k ops _ _ (dequeue-IsValid k v) h' in
    (ap₂ ◌∷◌ (ap₂ (λ c o. (c, o)) rc out) replies, v', held)

-- A valid ring whose two indices are equal holds nothing.
pub empty-Holds : (k : ℕ) (ring : Ring) → IsValid k ring → ring.head ≡ ring.tail → Holds k ring []
empty-Holds k ring v e = record {
  room = omega (arith, v.head_in);
  head_at = e ∙ (sym (mod-eq_of_lt v.tail_in) ∙ ap (λ (i : ℕ). i % 2 ^ k) (omega arith));
  slots = refl;
}
