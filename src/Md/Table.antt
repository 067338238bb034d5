-- ===== src/Md/Table.antt =====
-- The table of arrays of src/libxbdev/md.c seen as a map from names to records: what a search finds,
-- and what a change of one record does to it.
use nblock.Prelude.{
  ℕ, zero, suc, ◌<◌, if◌then◌else◌, true, false, List, [], ◌∷◌, Option, none, some, get_or, set,
  length, Bool-cases, Option-cases, ◌≡◌, refl, sym, ap, ◌∙◌, inl, inr, arith,
}
use nblock.Prelude.Names.{Name, same_name_self, same_name_eq}
use nblock.Md.Device.{MdDev, zero_dev, find_free_md_slot, find_md_by_name, bears}

-- The record of an array, if there is one.
unfoldable pub device_of : Name → List MdDev → Option MdDev
device_of name [] = none
device_of name (d ∷ devices) =
    let rest = device_of name devices in if bears name d then some d else rest

-- No two active records have the same name.
abbrev pub Distinct : List MdDev → Type 0
Distinct [] = Unit {0}
Distinct (d ∷ devices) =
    (d.active ≡ true → find_md_by_name d.name devices ≡ none) × Distinct devices

pub find-range :
    (name : Name) (devices : List MdDev) (i : ℕ)
    → find_md_by_name name devices ≡ some i
    → (i < length devices) × (bears name (get_or devices i zero_dev) ≡ true)
unfolding find_md_by_name
find-range name [] i found = absurd (cc found)
find-range name (d ∷ devices) i found = elim (Bool-cases (bears name d)) [
  | inl here ↦ let at : i ≡ 0 = ground (arith, found, here) in rw at (omega arith, here)
  | inr there ↦ elim (Option-cases (find_md_by_name name devices)) [
    | inl stuck ↦ absurd (ground (arith, found, there, stuck))
    | inr (j, at) ↦
        let step : i ≡ suc j = ground (arith, found, there, at) in
        let (small, fits) = find-range name devices j at in rw step (omega arith, fits)
  ]
]

pub free-range :
    (devices : List MdDev) (i : ℕ)
    → find_free_md_slot devices ≡ some i
    → (i < length devices) × ((get_or devices i zero_dev).active ≡ false)
unfolding find_free_md_slot
free-range [] i found = absurd (cc found)
free-range (d ∷ devices) i found = elim (Bool-cases d.active) [
  | inr here ↦ let at : i ≡ 0 = ground (arith, found, here) in rw at (omega arith, here)
  | inl there ↦ elim (Option-cases (find_free_md_slot devices)) [
    | inl stuck ↦ absurd (ground (arith, found, there, stuck))
    | inr (j, at) ↦
        let step : i ≡ suc j = ground (arith, found, there, at) in
        let (small, free) = free-range devices j at in rw step (omega arith, free)
  ]
]

-- Where the search finds nothing, no record has the name, wherever one looks.
pub bears-get_or :
    (name : Name) (devices : List MdDev) (i : ℕ)
    → find_md_by_name name devices ≡ none
    → bears name (get_or devices i zero_dev) ≡ false
unfolding find_md_by_name
bears-get_or name [] i none_found = refl
bears-get_or name (d ∷ devices) zero none_found = ground (arith, none_found)
bears-get_or name (d ∷ devices) (suc i) none_found =
    elim (Option-cases (find_md_by_name name devices)) [
      | inl rest ↦ bears-get_or name devices i rest
      | inr (j, at) ↦ absurd (ground (arith, none_found, at))
    ]

pub find-set-none :
    (name : Name) (devices : List MdDev) (i : ℕ) (new : MdDev)
    → find_md_by_name name devices ≡ none
    → bears name new ≡ false
    → find_md_by_name name (set devices i new) ≡ none
unfolding find_md_by_name
find-set-none name [] i new none_found other = refl
find-set-none name (d ∷ devices) zero new none_found other = ground (arith, none_found, other)
find-set-none name (d ∷ devices) (suc i) new none_found other =
    elim (Option-cases (find_md_by_name name devices)) [
      | inl rest ↦ ground (arith, none_found, rest, find-set-none name devices i new rest other)
      | inr (j, at) ↦ absurd (ground (arith, none_found, at))
    ]

pub device_of-find :
    (name : Name) (devices : List MdDev) (i : ℕ)
    → find_md_by_name name devices ≡ some i
    → device_of name devices ≡ some (get_or devices i zero_dev)
unfolding find_md_by_name device_of
device_of-find name [] i found = absurd (cc found)
device_of-find name (d ∷ devices) i found = elim (Bool-cases (bears name d)) [
  | inl here ↦ let at : i ≡ 0 = ground (arith, found, here) in rw at (ground (arith, here))
  | inr there ↦ elim (Option-cases (find_md_by_name name devices)) [
    | inl stuck ↦ absurd (ground (arith, found, there, stuck))
    | inr (j, at) ↦
        let step : i ≡ suc j = ground (arith, found, there, at) in
        rw step (ground (arith, there, device_of-find name devices j at))
  ]
]

pub device_of-none :
    (name : Name) (devices : List MdDev)
    → find_md_by_name name devices ≡ none
    → device_of name devices ≡ none
unfolding find_md_by_name device_of
device_of-none name [] none_found = refl
device_of-none name (d ∷ devices) none_found = elim (Option-cases (find_md_by_name name devices)) [
  | inl rest ↦ ground (arith, none_found, rest, device_of-none name devices rest)
  | inr (j, at) ↦ absurd (ground (arith, none_found, at))
]

-- A change of a record that has the name neither before nor after it does not show under the name.
pub device_of-set_other :
    (name : Name) (devices : List MdDev) (i : ℕ) (new : MdDev)
    → bears name (get_or devices i zero_dev) ≡ false
    → bears name new ≡ false
    → device_of name (set devices i new) ≡ device_of name devices
unfolding device_of
device_of-set_other name [] i new before after = refl
device_of-set_other name (d ∷ devices) zero new before after = ground (arith, before, after)
device_of-set_other name (d ∷ devices) (suc i) new before after =
    ground (arith, device_of-set_other name devices i new before after)

-- A record that is stored under a name that no other record has is what is found under it.
pub device_of-set_new :
    (name : Name) (devices : List MdDev) (i : ℕ) (new : MdDev)
    → find_md_by_name name devices ≡ none
    → i < length devices
    → bears name new ≡ true
    → device_of name (set devices i new) ≡ some new
unfolding find_md_by_name device_of
device_of-set_new name [] i new none_found small here = elim small [ ]
device_of-set_new name (d ∷ devices) zero new none_found small here = ground (arith, here)
device_of-set_new name (d ∷ devices) (suc i) new none_found small here =
    elim (Option-cases (find_md_by_name name devices)) [
      | inl rest ↦
          let later = device_of-set_new name devices i new rest (omega arith) here in
          ground (arith, none_found, rest, later)
      | inr (j, at) ↦ absurd (ground (arith, none_found, at))
    ]

-- `bears name d` taken apart.
pub bears-parts :
    (name : Name) (d : MdDev) → bears name d ≡ true → (d.active ≡ true) × (d.name ≡ name)
bears-parts name d h = (ground (arith, h), same_name_eq d.name name (ground (arith, h)))

pub bears_self : (d : MdDev) → d.active ≡ true → bears d.name d ≡ true
bears_self d h = ground (arith, h, same_name_self d.name)

-- A record may take the place of another if it bears no name but that one's, or one that is not in
-- the table.
pub Distinct-set :
    (devices : List MdDev) (i : ℕ) (new : MdDev)
    → Distinct devices
    → (new.active ≡ true → bears new.name (get_or devices i zero_dev) ≡ true)
    → Distinct (set devices i new)
unfolding find_md_by_name
Distinct-set [] i new apart same = tt
Distinct-set (d ∷ devices) zero new apart same = (
  λ up.
      let (was_up, named) = bears-parts new.name d (same up) in
      ap (λ n. find_md_by_name n devices) (sym named) ∙ apart.0 was_up,
  apart.1,
)
Distinct-set (d ∷ devices) (suc i) new apart same = (
  λ up. elim (Bool-cases (bears d.name new)) [
    | inr other ↦ find-set-none d.name devices i new (apart.0 up) other
    | inl clash ↦
        let (new_up, named) = bears-parts d.name new clash in
        let before = bears-get_or d.name devices i (apart.0 up) in absurd (cc (before, same new_up))
  ],
  Distinct-set devices i new apart.1 same,
)

pub Distinct-set_new :
    (devices : List MdDev) (i : ℕ) (new : MdDev)
    → Distinct devices
    → find_md_by_name new.name devices ≡ none
    → Distinct (set devices i new)
unfolding find_md_by_name
Distinct-set_new [] i new apart fresh = tt
Distinct-set_new (d ∷ devices) zero new apart fresh =
    elim (Option-cases (find_md_by_name new.name devices)) [
      | inr (j, at) ↦ absurd (ground (arith, fresh, at))
      | inl rest ↦ (λ up. rest, apart.1)
    ]
Distinct-set_new (d ∷ devices) (suc i) new apart fresh =
    elim (Option-cases (find_md_by_name new.name devices)) [
      | inr (j, at) ↦ absurd (ground (arith, fresh, at))
      | inl rest ↦ (
        λ up. elim (Bool-cases (bears d.name new)) [
          | inr other ↦ find-set-none d.name devices i new (apart.0 up) other
          | inl clash ↦
              let (new_up, named) = bears-parts d.name new clash in
              let here = ap (λ n. bears n d) named ∙ bears_self d up in
              absurd (ground (arith, fresh, here))
        ],
        Distinct-set_new devices i new apart.1 rest,
      )
    ]
