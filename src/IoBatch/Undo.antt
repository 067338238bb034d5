-- ===== src/IoBatch/Undo.antt =====
-- Giving back the requests that a batch of src/libxbdev/io.c took from the pool.
use mathlib.Core.Path.{subst}
use native.Mathlib.Decide.{ℕ_discrete}
use nblock.Prelude.{
  ℕ, zero, suc, ◌<◌, Bool, true, false, List, [], ◌∷◌, ◌++◌, none, some, get_or, set, length,
  length-set, get_or-set_self, get_or-set_ne, ◌≡◌, ◌≢◌, refl, sym, ap, ◌∙◌, inl, inr, arith,
}
use nblock.Ring.{Ptr}
use nblock.Request.{Kind, Request, zero_request}
use nblock.Flags.{in_range, set_back}
use nblock.LockedQueue.System.{Sys}
use nblock.LockedQueue.Client.{request_at, release_index, free_request_to_pool}
use nblock.LockedQueue.Pool.{IsValid, free_request_to_pool_lem}
use nblock.IoBatch.{set_up, free_all}

-- Each place is in use when it is its turn, and clearing them all gives the old flags.
unfoldable pub Undoable : List ℕ → List Bool → List Bool → Type 0
Undoable [] flags old = flags ≡ old
Undoable (p ∷ ps) flags old = (get_or flags p false ≡ true) × Undoable ps (set flags p false) old

set_comm :
    (l : List Bool) (i j : ℕ) (a b : Bool) → i ≢ j → set (set l i a) j b ≡ set (set l j b) i a
set_comm [] i j a b differ = refl
set_comm (x ∷ l) zero zero a b differ = absurd (differ refl)
set_comm (x ∷ l) zero (suc j) a b differ = refl
set_comm (x ∷ l) (suc i) zero a b differ = refl
set_comm (x ∷ l) (suc i) (suc j) a b differ =
    ap (◌∷◌ x) (set_comm l i j a b (λ e. differ (ap suc e)))

get_or_any : (l : List Bool) (i : ℕ) (a b : Bool) → i < length l → get_or l i a ≡ get_or l i b
get_or_any [] i a b small = elim small [ ]
get_or_any (x ∷ l) zero a b small = refl
get_or_any (x ∷ l) (suc i) a b small = get_or_any l i a b (omega arith)

-- A free place is taken.
pub Undoable-append :
    (ps : List ℕ) (p : ℕ) (flags old : List Bool)
    → p < length flags
    → get_or flags p true ≡ false
    → Undoable ps flags old
    → Undoable (ps ++ p ∷ []) (set flags p true) old
unfolding Undoable
Undoable-append [] p flags old small free u =
    (get_or-set_self flags p true false small, set_back flags p free ∙ u)
Undoable-append (q ∷ ps) p flags old small free (used, u) = elim (ℕ_discrete q p) [
  | yes same ↦
      absurd
        (cc (used, ap (λ k. get_or flags k false) same, get_or_any flags p true false small, free))
  | no differ ↦
      let other : p ≢ q = λ e. differ (sym e) in
      let rest =
        Undoable-append ps p (set flags q false) old (omega (arith, length-set flags q false))
          (get_or-set_ne flags q p false true differ ∙ free) u in
      (
        get_or-set_ne flags p q true false other ∙ used,
        subst (λ l. Undoable (ps ++ p ∷ []) l old) (set_comm flags q p false true differ) rest,
      )
]

-- A free place that is taken can be given back first.
pub Undoable-taken :
    (ps : List ℕ) (p : ℕ) (flags old : List Bool)
    → p < length flags
    → get_or flags p true ≡ false
    → Undoable ps flags old
    → Undoable (p ∷ ps) (set flags p true) old
unfolding Undoable
Undoable-taken ps p flags old small free u = (
  get_or-set_self flags p true false small,
  subst (λ l. Undoable ps l old) (sym (set_back flags p free)) u,
)

req_id-set :
    (l : List Request) (p q : ℕ) (r : Request)
    → r.req_id ≡ (get_or l p zero_request).req_id
    → (get_or (set l p r) q zero_request).req_id ≡ (get_or l q zero_request).req_id
req_id-set [] p q r same = refl
req_id-set (x ∷ l) zero zero r same = same
req_id-set (x ∷ l) zero (suc q) r same = refl
req_id-set (x ∷ l) (suc p) zero r same = refl
req_id-set (x ∷ l) (suc p) (suc q) r same = req_id-set l p q r same

-- The pool stays valid when a request in it gets a type and a context.
pub IsValid-set_up :
    (p : ℕ) (kind : Kind) (i : ℕ) (s : Sys) → IsValid s → IsValid (set_up p kind i s)
unfolding set_up
IsValid-set_up p kind i s v =
    let r : Request = record (request_at s.req_pool p) { kind = kind; ctx = some i } in
    let id = λ (q : ℕ). req_id-set s.req_pool.entries p q r refl in
    record {
      entries_size = length-set s.req_pool.entries p r ∙ v.entries_size;
      used_size = v.used_size;
      counted = v.counted;
      in_word = v.in_word;
      below = λ q on. omega (arith, id q, v.below q on);
      distinct = λ q q' on on' same. v.distinct q q' on on' (sym (id q) ∙ same ∙ id q');
    }

pub initialized-free_request_to_pool :
    (req : Ptr) (s : Sys) → (free_request_to_pool req s).1.initialized ≡ s.initialized
unfolding free_request_to_pool release_index
initialized-free_request_to_pool none s = ground arith
initialized-free_request_to_pool (some p) s = ground arith

-- All that were taken are given back.
pub free_all-Undoable :
    (ps : List ℕ) (s : Sys) (old : List Bool)
    → IsValid s
    → s.initialized ≡ true
    → Undoable ps s.req_pool.used old
    → IsValid (free_all ps s) × ((free_all ps s).req_pool.used ≡ old)
unfolding free_all Undoable
free_all-Undoable [] s old v up u = (v, u)
free_all-Undoable (p ∷ ps) s old v up (used, u) =
    let small = in_range s.req_pool.used p used in
    elim (free_request_to_pool_lem p s v up (omega (arith, v.used_size, v.in_word))) [
      | inl (on, good, valid, cleared, count) ↦
          free_all-Undoable ps (free_request_to_pool (some p) s).1 old valid
            (initialized-free_request_to_pool (some p) s ∙ up)
            (subst (λ l. Undoable ps l old) (sym cleared) u)
      | inr (off, bad, same) ↦ absurd (cc (off, used))
    ]
