-- ===== src/Raid/Spares.antt =====
-- The list of hot spares of src/libxbdev/raid.c, from its head on. Its lock is not modelled: each
-- function is one step.
use nblock.Prelude.{
  ℕ, zero, suc, ◌-◌, ◌==◌, if◌then◌else◌, Bool, true, false, not, ◌&&◌, ◌||◌, List, [], ◌∷◌, Option,
  none, some, take,
}
use nblock.Prelude.Names.{Name, same_name, is_blank, clip}
use nblock.Prelude.Errno.{einval, enomem, enoent, enodev, Rc, ok, fail}

-- An empty `md_name` makes it a global spare.
pub record SpareEntry : Type 0 where
  pub md_name : Name
  pub disk_name : Name
  pub in_use : Bool

-- A string given as a pointer, with the test for NULL.
abbrev pub or_empty : Option Name → Name
or_empty none = []
or_empty (some name) = name

-- `disk_exists` is whether SPDK knows the disk, `allocated` whether `malloc` succeeds.
unfoldable pub add_hot_spare :
    Bool → Bool → Option Name → Option Name → List SpareEntry → Rc × List SpareEntry
add_hot_spare disk_exists allocated md_name none spares = (fail einval, spares)
add_hot_spare disk_exists allocated md_name (some disk_name) spares =
    if not disk_exists
    then (fail enodev, spares)
    else (if not allocated then (fail enomem, spares) else (
      ok,
      record { md_name = clip (or_empty md_name); disk_name = clip disk_name; in_use = false }
          ∷ spares,
    ))

-- One loop of the search: the first free spare that passes the test is marked, and its name is read.
unfoldable pub take_spare : (SpareEntry → Bool) → List SpareEntry → Option (Name × List SpareEntry)
take_spare test [] = none
take_spare test (e ∷ spares) =
    let rest = take_spare test spares in
    if not e.in_use && test e
    then some (e.disk_name, record e { in_use = true } ∷ spares)
    else elim rest [ none ↦ none | some (disk, left) ↦ some (disk, e ∷ left) ]

-- Also returns what is written into the caller's buffer of `max_len` bytes, zeroed by the caller.
unfoldable pub find_hot_spare :
    Option Name → Bool → ℕ → List SpareEntry → Rc × Option Name × List SpareEntry
find_hot_spare none has_buffer max_len spares = (fail einval, none, spares)
find_hot_spare (some md_name) has_buffer max_len spares =
    if not has_buffer || max_len == 0
    then (fail einval, none, spares)
    else (elim (take_spare (λ e. same_name e.md_name md_name) spares) [
      | some (disk, left) ↦ (ok, some (take (max_len - 1) disk), left)
      | none ↦ elim (take_spare (λ e. is_blank e.md_name) spares) [
        | some (disk, left) ↦ (ok, some (take (max_len - 1) disk), left)
        | none ↦ (fail enoent, none, spares)
      ]
    ])

-- The loop of `release_hot_spare`; `none` is its end without a match.
unfoldable pub free_spare : Name → List SpareEntry → Option (List SpareEntry)
free_spare disk_name [] = none
free_spare disk_name (e ∷ spares) =
    let rest = free_spare disk_name spares in
    if same_name e.disk_name disk_name
    then some (record e { in_use = false } ∷ spares)
    else elim rest [ none ↦ none | some left ↦ some (e ∷ left) ]

unfoldable pub release_hot_spare : Option Name → List SpareEntry → Rc × List SpareEntry
release_hot_spare none spares = (fail einval, spares)
release_hot_spare (some disk_name) spares = elim (free_spare disk_name spares) [
  | none ↦ (fail enoent, spares)
  | some left ↦ (ok, left)
]

-- The test by which the removal passes over a spare of another array.
abbrev pub is_other_array : Option Name → SpareEntry → Bool
is_other_array none e = false
is_other_array (some md_name) e = not (is_blank e.md_name) && not (same_name e.md_name md_name)

unfoldable pub drop_spare : Option Name → Name → List SpareEntry → Option (List SpareEntry)
drop_spare md_name disk_name [] = none
drop_spare md_name disk_name (e ∷ spares) =
    let rest = drop_spare md_name disk_name spares in
    if same_name e.disk_name disk_name && not (is_other_array md_name e)
    then some spares
    else elim rest [ none ↦ none | some left ↦ some (e ∷ left) ]

unfoldable pub remove_hot_spare : Option Name → Option Name → List SpareEntry → Rc × List SpareEntry
remove_hot_spare md_name none spares = (fail einval, spares)
remove_hot_spare md_name (some disk_name) spares = elim (drop_spare md_name disk_name spares) [
  | none ↦ (fail enoent, spares)
  | some left ↦ (ok, left)
]

-- The loop of `get_hot_spares`, with the room that is left.
unfoldable pub list_spares : Option Name → ℕ → List SpareEntry → List Name
list_spares md_name room [] = []
list_spares md_name zero (e ∷ spares) = []
list_spares md_name (suc room) (e ∷ spares) =
    let with_it = list_spares md_name room spares in
    let without = list_spares md_name (suc room) spares in
    if not (is_other_array md_name e) then e.disk_name ∷ with_it else without

-- The names that are stored, or -EINVAL as `none`; the count that is returned is their number. A
-- negative `max_disks` is 0 here.
unfoldable pub get_hot_spares : Option Name → Bool → ℕ → List SpareEntry → Option (List Name)
get_hot_spares md_name has_array max_disks spares =
    if not has_array || max_disks == 0 then none else some (list_spares md_name max_disks spares)

unfoldable pub cleanup_hot_spares : List SpareEntry → List SpareEntry
cleanup_hot_spares spares = []
