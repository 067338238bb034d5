-- ===== src/Raid/Find.antt =====
-- What the search of src/libxbdev/raid.c for a hot spare chooses, and how the changes of the list
-- undo each other.
use mathlib.Core.Path.{subst}
use nblock.Prelude.{
  ℕ, suc, ◌-◌, ◌≤◌, ◌==◌, Bool, true, false, not, ◌&&◌, List, [], ◌∷◌, Option, none, some, take,
  take_all, length, length-take, ◌<◌, Bool-cases, ◌≡◌, refl, sym, ap, ◌∙◌, ◌⊎◌, inl, inr, arith,
}
use nblock.Prelude.Names.{Name, same_name, same_name_self, same_name_eq, is_blank}
use nblock.Prelude.Errno.{enoent, ok, fail, Rc}
use nblock.Raid.Spares.{SpareEntry, take_spare, find_hot_spare, free_spare, release_hot_spare}

-- The two tests of the search.
abbrev pub is_dedicated : Name → SpareEntry → Bool
is_dedicated md_name e = same_name e.md_name md_name

abbrev pub is_global : SpareEntry → Bool
is_global e = is_blank e.md_name

-- No free spare passes the test.
unfoldable pub NoneFree : (SpareEntry → Bool) → List SpareEntry → Type 0
NoneFree test [] = true ≡ true
NoneFree test (e ∷ spares) = ((not e.in_use && test e) ≡ false) × NoneFree test spares

-- The first free spare that passes the test, marked, and all others left as they are.
pub data Taken (test : SpareEntry → Bool) : List SpareEntry → Name → List SpareEntry → Type 0 where
  here :
      (e : SpareEntry) (after : List SpareEntry)
      → e.in_use ≡ false
      → test e ≡ true
      → Taken test (e ∷ after) e.disk_name (record e { in_use = true } ∷ after)
  later :
      (e : SpareEntry) {spares left : List SpareEntry} {disk : Name}
      → (not e.in_use && test e) ≡ false
      → Taken test spares disk left
      → Taken test (e ∷ spares) disk (e ∷ left)

-- What a search for the array may return with a buffer of `max_len` bytes.
pub data Found (md_name : Name) (max_len : ℕ) (spares : List SpareEntry)
    : Rc × Option Name × List SpareEntry → Type 0 where
  dedicated :
      {disk : Name} {left : List SpareEntry}
      → Taken (is_dedicated md_name) spares disk left
      → Found md_name max_len spares (ok, some (take (max_len - 1) disk), left)
  global :
      {disk : Name} {left : List SpareEntry}
      → NoneFree (is_dedicated md_name) spares
      → Taken is_global spares disk left
      → Found md_name max_len spares (ok, some (take (max_len - 1) disk), left)
  exhausted :
      NoneFree (is_dedicated md_name) spares
      → NoneFree is_global spares
      → Found md_name max_len spares (fail enoent, none, spares)

-- The two ends of one loop.
take_spare_cases :
    (test : SpareEntry → Bool) (spares : List SpareEntry)
    → ((take_spare test spares ≡ none) × NoneFree test spares)
      ⊎ ((disk : Name) × (left : List SpareEntry) × (take_spare test spares ≡ some (disk, left))
          × Taken test spares disk left)
unfolding take_spare NoneFree
take_spare_cases test [] = inl (refl, refl)
take_spare_cases test (e ∷ spares) = elim (Bool-cases (not e.in_use && test e)) [
  | inl takes ↦
      let free : e.in_use ≡ false = ground (arith, takes) in
      let fits : test e ≡ true = ground (arith, takes) in
      inr (
        e.disk_name,
        record e { in_use = true } ∷ spares,
        ground (arith, takes),
        here e spares free fits,
      )
  | inr passes ↦ elim (take_spare_cases test spares) [
    | inl (stuck, none_free) ↦ inl (ground (arith, passes, stuck), (passes, none_free))
    | inr (disk, left, found, taken) ↦
        inr (disk, e ∷ left, ground (arith, passes, found), later e passes taken)
  ]
]

-- With a buffer of at least one byte, the search for a spare of an array takes the first free spare
-- of that array, or, where it has none, the first free global spare; it marks that one, leaves all
-- others as they are and returns its name cut to the buffer. Where no spare of either kind is free,
-- it returns -ENOENT and leaves the list as it is.
pub find_hot_spare-Found :
    (md_name : Name) (max_len : ℕ) (spares : List SpareEntry)
    → 1 ≤ max_len
    → Found md_name max_len spares (find_hot_spare (some md_name) true max_len spares)
unfolding find_hot_spare
find_hot_spare-Found md_name max_len spares big =
    let sized : (max_len == 0) ≡ false = ground arith in
    rw sized (elim (take_spare_cases (is_dedicated md_name) spares) [
      | inr (disk, left, found, taken) ↦ rw found (dedicated taken)
      | inl (stuck, none_own) ↦ rw stuck (elim (take_spare_cases is_global spares) [
        | inr (disk, left, found, taken) ↦ rw found (global none_own taken)
        | inl (none_left, none_global) ↦ rw none_left (exhausted none_own none_global)
      ])
    ])

-- No two spares have the same disk.
unfoldable pub Distinct : List SpareEntry → Type 0
Distinct [] = true ≡ true
Distinct (e ∷ spares) = (free_spare e.disk_name spares ≡ none) × Distinct spares

free_spare-some :
    {test : SpareEntry → Bool} {spares left : List SpareEntry} {disk : Name}
    → Taken test spares disk left
    → (l : List SpareEntry) × (free_spare disk spares ≡ some l)
unfolding free_spare
free_spare-some (here e after free fits) =
    (record e { in_use = false } ∷ after, ground (arith, same_name_self e.disk_name))
free_spare-some (later e {spares} {disk = disk} passes taken) =
    let (l, found) = free_spare-some taken in
    elim (Bool-cases (same_name e.disk_name disk)) [
      | inl same ↦ (record e { in_use = false } ∷ spares, ground (arith, same))
      | inr differ ↦ (e ∷ l, ground (arith, differ, found))
    ]

-- Freeing the spare that a search took gives the list back.
free_spare-Taken :
    {test : SpareEntry → Bool} {spares left : List SpareEntry} {disk : Name}
    → Taken test spares disk left
    → Distinct spares
    → free_spare disk left ≡ some spares
unfolding free_spare Distinct
free_spare-Taken (here e after free fits) d =
    let back = ap (λ b. some (record e { in_use = b } ∷ after)) (sym free) in
    ground (arith, same_name_self e.disk_name, back)
free_spare-Taken (later e {spares} {disk = disk} passes taken) (apart, d) =
    let (l, found) = free_spare-some taken in
    elim (Bool-cases (same_name e.disk_name disk)) [
      | inl same ↦
          let moved = ap (λ n. free_spare n spares) (same_name_eq e.disk_name disk same) in
          ground (arith, apart, found, moved)
      | inr differ ↦ ground (arith, differ, free_spare-Taken taken d)
    ]

-- Which spare a successful search took.
Taken-Found :
    {md_name disk : Name} {max_len : ℕ} {spares left : List SpareEntry}
    {r : Rc × Option Name × List SpareEntry}
    → Found md_name max_len spares r
    → r ≡ (ok, some disk, left)
    → (test : SpareEntry → Bool) × (whole : Name) × (take (max_len - 1) whole ≡ disk)
      × Taken test spares whole left
Taken-Found {md_name} {spares = spares} (dedicated {disk = whole} taken) e = (
  is_dedicated md_name,
  whole,
  cc e,
  subst (Taken (is_dedicated md_name) spares whole) (cc e) taken,
)
Taken-Found {md_name} {spares = spares} (global {disk = whole} none_own taken) e =
    (is_global, whole, cc e, subst (Taken is_global spares whole) (cc e) taken)
Taken-Found (exhausted none_own none_global) e = absurd (cc e)

take_short : (n : ℕ) (name : Name) → suc (length (take n name)) ≤ n → take n name ≡ name
take_short n name short = take_all n name (omega (arith, length-take n name))

-- If no two spares have the same disk and the name that a successful search returned does not fill
-- the buffer, releasing that name gives the list that there was before the search.
pub release-find_hot_spare :
    (md_name disk : Name) (max_len : ℕ) (spares left : List SpareEntry)
    → Distinct spares
    → suc (length disk) < max_len
    → find_hot_spare (some md_name) true max_len spares ≡ (ok, some disk, left)
    → release_hot_spare (some disk) left ≡ (ok, spares)
unfolding release_hot_spare
release-find_hot_spare md_name disk max_len spares left d short found =
    let all = find_hot_spare-Found md_name max_len spares (omega arith) in
    let (test, whole, cut, taken) = Taken-Found all found in
    let same : whole ≡ disk = sym (take_short (max_len - 1) whole (rw cut (omega arith))) ∙ cut in
    let back = ap (λ n. free_spare n left) (sym same) ∙ free_spare-Taken taken d in
    ground (arith, back)
