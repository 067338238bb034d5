-- ===== src/FdTable/Owned.antt =====
-- Closing in src/libxbdev/core.c and request_handler.c: what SPDK is told to close is what leaves the
-- table.
use mathlib.Core.Path.{subst}
use nblock.Prelude.{
  ℕ, ◌==◌, true, false, List, [], ◌∷◌, Option, none, some, Bool-cases, Option-cases, ◌≡◌, refl, sym,
  ap, ◌∙◌, inl, inr, arith,
}
use nblock.FdTable.{FdEntry, drop_desc, close_desc, close_all, get_fd_entry, remove_entry}
use nblock.FdTable.Handlers.{clear_desc}
use nblock.FdTable.Inv.{descs, has, Distinct}

has-drop_desc : (y d : ℕ) (xs : List ℕ) → has y xs ≡ false → has y (drop_desc d xs) ≡ false
unfolding has drop_desc
has-drop_desc y d [] out = refl
has-drop_desc y d (x ∷ xs) out = ground (arith, has-drop_desc y d xs (ground arith))

pub Distinct-drop_desc : (d : ℕ) (xs : List ℕ) → Distinct xs → Distinct (drop_desc d xs)
unfolding Distinct drop_desc
Distinct-drop_desc d [] all = all
Distinct-drop_desc d (x ∷ xs) (apart, all) = elim (Bool-cases (x == d)) [
  | inl here ↦ rw here all
  | inr there ↦ rw there (has-drop_desc x d xs apart, Distinct-drop_desc d xs all)
]

pub Distinct-close_desc : (o : Option ℕ) (xs : List ℕ) → Distinct xs → Distinct (close_desc o xs)
unfolding close_desc
Distinct-close_desc none xs all = all
Distinct-close_desc (some d) xs all = Distinct-drop_desc d xs all

has-descs :
    (fd d : ℕ) (entries : List FdEntry) (e : FdEntry)
    → get_fd_entry fd entries ≡ some e
    → e.desc ≡ some d
    → has d (descs entries) ≡ true
unfolding get_fd_entry descs has
has-descs fd d [] e found at = absurd (cc found)
has-descs fd d (x ∷ entries) e found at = elim (Bool-cases (x.fd == fd)) [
  | inl here ↦
      let same : x ≡ e = ground (arith, found, here) in
      let kept : x.desc ≡ some d = ap (λ (v : FdEntry). v.desc) same ∙ at in ground (arith, kept)
  | inr there ↦
      let rest = has-descs fd d entries e (ground (arith, found, there)) at in
      elim (Option-cases x.desc) [
        | inl empty ↦ ground (arith, empty, rest)
        | inr (k, full) ↦ ground (arith, full, rest)
      ]
]

-- A descriptor in front of others.
abbrev with_desc : Option ℕ → List ℕ → List ℕ
with_desc none xs = xs
with_desc (some d) xs = d ∷ xs

descs_cons :
    (e : FdEntry) (entries : List FdEntry) → descs (e ∷ entries) ≡ with_desc e.desc (descs entries)
unfolding descs
descs_cons e entries = ground arith

Distinct-with_desc : (o : Option ℕ) (xs : List ℕ) → Distinct (with_desc o xs) → Distinct xs
unfolding Distinct
Distinct-with_desc none xs all = all
Distinct-with_desc (some d) xs (apart, all) = all

close_desc_first : (o : Option ℕ) (xs : List ℕ) → close_desc o (with_desc o xs) ≡ xs
unfolding close_desc drop_desc
close_desc_first none xs = refl
close_desc_first (some d) xs = ground arith

-- Closing a descriptor that stands behind another.
close_desc-with_desc :
    (o c : Option ℕ) (xs : List ℕ)
    → Distinct (with_desc o xs)
    → ((d : ℕ) → c ≡ some d → has d xs ≡ true)
    → close_desc c (with_desc o xs) ≡ with_desc o (close_desc c xs)
unfolding close_desc drop_desc Distinct
close_desc-with_desc none c xs all within = refl
close_desc-with_desc (some k) none xs all within = refl
close_desc-with_desc (some k) (some d) xs (apart, all) within = elim (Bool-cases (k == d)) [
  | inl same ↦
      let is : k ≡ d = ground (arith, same) in
      absurd (ground (arith, ap (λ v. has v xs) is, apart, within d refl))
  | inr differ ↦ ground (arith, differ)
]

-- What is true of the table without its first entry is true with it.
descs_later :
    (fd : ℕ) (x e : FdEntry) (entries left : List FdEntry)
    → get_fd_entry fd entries ≡ some e
    → Distinct (with_desc x.desc (descs entries))
    → descs left ≡ close_desc e.desc (descs entries)
    → descs (x ∷ left) ≡ close_desc e.desc (descs (x ∷ entries))
descs_later fd x e entries left found all rest =
    let within = λ (d : ℕ) (at : e.desc ≡ some d). has-descs fd d entries e found at in
    descs_cons x left
    ∙ ap (with_desc x.desc) rest
    ∙ sym (close_desc-with_desc x.desc e.desc (descs entries) all within)
    ∙ ap (close_desc e.desc) (sym (descs_cons x entries))

descs_here :
    (x e : FdEntry) (entries : List FdEntry)
    → x ≡ e
    → descs entries ≡ close_desc e.desc (descs (x ∷ entries))
descs_here x e entries same =
    sym (close_desc_first x.desc (descs entries))
    ∙ ap (λ (v : FdEntry). close_desc v.desc (with_desc x.desc (descs entries))) same
    ∙ ap (close_desc e.desc) (sym (descs_cons x entries))

-- The entry that leaves the table takes its descriptor with it, and no other.
pub descs-remove_entry :
    (fd : ℕ) (entries : List FdEntry) (e : FdEntry)
    → get_fd_entry fd entries ≡ some e
    → Distinct (descs entries)
    → descs (remove_entry fd entries) ≡ close_desc e.desc (descs entries)
unfolding get_fd_entry remove_entry
descs-remove_entry fd [] e found all = absurd (cc found)
descs-remove_entry fd (x ∷ entries) e found all = elim (Bool-cases (x.fd == fd)) [
  | inl here ↦ rw here (descs_here x e entries (ground (arith, found, here)))
  | inr there ↦
      let later : get_fd_entry fd entries ≡ some e = ground (arith, found, there) in
      let split = subst Distinct (descs_cons x entries) all in
      let rest =
        descs-remove_entry fd entries e later (Distinct-with_desc x.desc (descs entries) split) in
      rw there (descs_later fd x e entries (remove_entry fd entries) later split rest)
]

-- The same for an entry that stays without its descriptor.
pub descs-clear_desc :
    (fd : ℕ) (entries : List FdEntry) (e : FdEntry)
    → get_fd_entry fd entries ≡ some e
    → Distinct (descs entries)
    → descs (clear_desc fd entries) ≡ close_desc e.desc (descs entries)
unfolding get_fd_entry clear_desc
descs-clear_desc fd [] e found all = absurd (cc found)
descs-clear_desc fd (x ∷ entries) e found all = elim (Bool-cases (x.fd == fd)) [
  | inl here ↦ rw here (
      descs_cons (record x { bdev = none; desc = none }) entries
      ∙ descs_here x e entries (ground (arith, found, here)))
  | inr there ↦
      let later : get_fd_entry fd entries ≡ some e = ground (arith, found, there) in
      let split = subst Distinct (descs_cons x entries) all in
      let rest =
        descs-clear_desc fd entries e later (Distinct-with_desc x.desc (descs entries) split) in
      rw there (descs_later fd x e entries (clear_desc fd entries) later split rest)
]

pub close_all-descs : (entries : List FdEntry) → close_all entries (descs entries) ≡ []
unfolding close_all descs close_desc drop_desc
close_all-descs [] = refl
close_all-descs (e ∷ entries) = elim (Option-cases e.desc) [
  | inl empty ↦ ground (arith, empty, close_all-descs entries)
  | inr (d, full) ↦ ground (arith, full, close_all-descs entries)
]
