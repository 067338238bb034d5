-- ===== src/FdTable/Inv.antt =====
-- The invariant of the descriptor table of src/libxbdev/core.c: descriptors differ, are never given
-- out twice, and SPDK holds open exactly what the table names.
use nblock.Prelude.{
  ℕ, suc, ◌+◌, ◌≤◌, ◌==◌, Bool, true, false, ◌||◌, List, [], ◌∷◌, ◌++◌, none, some, Bool-cases,
  Option-cases, ◌≡◌, refl, ◌∙◌, inl, inr, arith,
}
use nblock.FdTable.{FdEntry, FdTable, drop_desc, remove_entry}
use nblock.FdTable.Handlers.{clear_desc}

-- The descriptors of the entries rise from `low` and stay below `next`.
unfoldable pub Rising : ℕ → List FdEntry → ℕ → Type 0
Rising low [] next = low ≤ next
Rising low (e ∷ entries) next = (low ≤ e.fd) × Rising (suc e.fd) entries next

-- What the table says is open in SPDK.
unfoldable pub descs : List FdEntry → List ℕ
descs [] = []
descs (e ∷ entries) = let rest = descs entries in elim e.desc [ none ↦ rest | some d ↦ d ∷ rest ]

unfoldable pub has : ℕ → List ℕ → Bool
has d [] = false
has d (x ∷ xs) = x == d || has d xs

unfoldable pub Distinct : List ℕ → Type 0
Distinct [] = true ≡ true
Distinct (x ∷ xs) = (has x xs ≡ false) × Distinct xs

pub record IsValid (s : FdTable) : Type 0 where
  pub rising : Rising 1 s.entries s.next_fd
  pub owned : s.held ≡ descs s.entries
  pub distinct : Distinct s.held
  pub closed : s.initialized ≡ false → s.entries ≡ []

pub Rising-weaken :
    (low lower : ℕ) (entries : List FdEntry) (next : ℕ)
    → lower ≤ low
    → Rising low entries next
    → Rising lower entries next
unfolding Rising
Rising-weaken low lower [] next h r = omega (arith, r)
Rising-weaken low lower (e ∷ entries) next h (first, r) = (omega arith, r)

pub Rising-below :
    (low : ℕ) (entries : List FdEntry) (next : ℕ) → Rising low entries next → low ≤ next
unfolding Rising
Rising-below low [] next r = r
Rising-below low (e ∷ entries) next (first, r) =
    omega (arith, Rising-below (suc e.fd) entries next r)

pub Rising-append :
    (low : ℕ) (entries : List FdEntry) (e : FdEntry)
    → Rising low entries e.fd
    → Rising low (entries ++ e ∷ []) (e.fd + 1)
unfolding Rising
Rising-append low [] e r = (r, omega arith)
Rising-append low (x ∷ entries) e (first, r) = (first, Rising-append (suc x.fd) entries e r)

pub Rising-remove_entry :
    (low fd : ℕ) (entries : List FdEntry) (next : ℕ)
    → Rising low entries next
    → Rising low (remove_entry fd entries) next
unfolding Rising remove_entry
Rising-remove_entry low fd [] next r = r
Rising-remove_entry low fd (e ∷ entries) next (first, r) = elim (Bool-cases (e.fd == fd)) [
  | inl here ↦ rw here (Rising-weaken (suc e.fd) low entries next (omega arith) r)
  | inr there ↦ rw there (first, Rising-remove_entry (suc e.fd) fd entries next r)
]

pub Rising-clear_desc :
    (low fd : ℕ) (entries : List FdEntry) (next : ℕ)
    → Rising low entries next
    → Rising low (clear_desc fd entries) next
unfolding Rising clear_desc
Rising-clear_desc low fd [] next r = r
Rising-clear_desc low fd (e ∷ entries) next (first, r) = elim (Bool-cases (e.fd == fd)) [
  | inl here ↦ rw here (first, r)
  | inr there ↦ rw there (first, Rising-clear_desc (suc e.fd) fd entries next r)
]

pub descs-append :
    (entries : List FdEntry) (e : FdEntry) (d : ℕ)
    → e.desc ≡ some d
    → descs (entries ++ e ∷ []) ≡ descs entries ++ d ∷ []
unfolding descs
descs-append [] e d has = ground (arith, has)
descs-append (x ∷ entries) e d has = elim (Option-cases x.desc) [
  | inl none_here ↦ ground (arith, none_here, descs-append entries e d has)
  | inr (k, some_here) ↦ ground (arith, some_here, descs-append entries e d has)
]

pub has-append : (d x : ℕ) (xs : List ℕ) → has d (xs ++ x ∷ []) ≡ (has d xs || x == d)
unfolding has
has-append d x [] = ground arith
has-append d x (y ∷ xs) = ground (arith, has-append d x xs)

pub Distinct-append :
    (x : ℕ) (xs : List ℕ) → Distinct xs → has x xs ≡ false → Distinct (xs ++ x ∷ [])
unfolding Distinct has
Distinct-append x [] d fresh = (refl, refl)
Distinct-append x (y ∷ xs) (apart, d) fresh =
    (has-append y x xs ∙ ground arith, Distinct-append x xs d (ground arith))

pub drop_desc-append : (d : ℕ) (xs : List ℕ) → has d xs ≡ false → drop_desc d (xs ++ d ∷ []) ≡ xs
unfolding has drop_desc
drop_desc-append d [] fresh = ground arith
drop_desc-append d (x ∷ xs) fresh = ground (arith, drop_desc-append d xs (ground arith))
