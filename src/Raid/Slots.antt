-- ===== src/Raid/Slots.antt =====
-- The table in which the state check of src/libxbdev/raid.c keeps what it saw last of each array.
use nblock.Prelude.{
  ℕ, zero, suc, ◌<◌, ◌≤◌, if◌then◌else◌, Bool, true, ◌||◌, List, [], ◌∷◌, Option, some, get_or, set,
  length, take, get_or-set_self, Bool-cases, Option-cases, ◌≡◌, refl, sym, ap, ◌∙◌, inl, inr, arith,
}
use nblock.Prelude.Names.{Name, same_name, same_name_self, is_blank, clip, clip_short}
use nblock.Raid.Events.{EventType, Slot, Raid, Disk, Detail, Env, notify}
use nblock.Raid.Status.{
  replace_or_degrade, handle_disk_failure, handle_faulty, notify_state, find_slot, zero_slot,
  new_record, check_slot, check_status,
}

-- The record of an array at the place of the search.
abbrev pub fits : Name → Slot → Bool
fits md_name slot = is_blank slot.md_name || same_name slot.md_name md_name

pub find_slot-range :
    (md_name : Name) (slots : List Slot) (i : ℕ)
    → find_slot md_name slots ≡ some i
    → (i < length slots) × (fits md_name (get_or slots i zero_slot) ≡ true)
unfolding find_slot
find_slot-range md_name [] i found = absurd (cc found)
find_slot-range md_name (slot ∷ slots) i found = elim (Bool-cases (fits md_name slot)) [
  | inl here ↦ let at : i ≡ 0 = ground (arith, found, here) in rw at (omega arith, here)
  | inr there ↦ elim (Option-cases (find_slot md_name slots)) [
    | inl stuck ↦ absurd (ground (arith, found, there, stuck))
    | inr (j, at) ↦
        let next : i ≡ suc j = ground (arith, found, there, at) in
        let (small, fit) = find_slot-range md_name slots j at in rw next (omega arith, fit)
  ]
]

find_slot-set :
    (md_name : Name) (slots : List Slot) (i : ℕ) (slot : Slot)
    → find_slot md_name slots ≡ some i
    → fits md_name slot ≡ true
    → find_slot md_name (set slots i slot) ≡ some i
unfolding find_slot
find_slot-set md_name [] i slot found fit = absurd (cc found)
find_slot-set md_name (old ∷ slots) i slot found fit = elim (Bool-cases (fits md_name old)) [
  | inl here ↦ let at : i ≡ 0 = ground (arith, found, here) in rw at (ground (arith, fit))
  | inr there ↦ elim (Option-cases (find_slot md_name slots)) [
    | inl stuck ↦ absurd (ground (arith, found, there, stuck))
    | inr (j, at) ↦
        let next : i ≡ suc j = ground (arith, found, there, at) in
        let rest = find_slot-set md_name slots j slot at fit in
        rw next (ground (arith, rest, there))
  ]
]

set-set :
    (slots : List Slot) (i : ℕ) (slot : Slot) → set (set slots i slot) i slot ≡ set slots i slot
set-set [] i slot = refl
set-set (old ∷ slots) zero slot = refl
set-set (old ∷ slots) (suc i) slot = ap (◌∷◌ old) (set-set slots i slot)

-- Events and replacements leave the table as it is.
states-notify :
    (env : Env) (type : EventType) (md_name disk_name : Option Name) (s : Raid)
    → (notify env type md_name disk_name s).states ≡ s.states
unfolding notify
states-notify env type md_name disk_name s = refl

states-notify_state :
    (env : Env) (md_name : Name) (last now : ℕ) (s : Raid)
    → (notify_state env md_name last now s).states ≡ s.states
unfolding notify_state notify
states-notify_state env md_name last now s = ground arith

states-handle_disk_failure :
    (env : Env) (md_name disk_name : Name) (s : Raid)
    → (handle_disk_failure env md_name disk_name s).states ≡ s.states
unfolding handle_disk_failure replace_or_degrade notify
states-handle_disk_failure env md_name disk_name s = ground arith

states-handle_faulty :
    (env : Env) (md_name : Name) (disks : List Disk) (s : Raid)
    → (handle_faulty env md_name disks s).states ≡ s.states
unfolding handle_faulty
states-handle_faulty env md_name [] s = refl
states-handle_faulty env md_name (disk ∷ disks) s = ground (
  arith,
  states-handle_faulty env md_name disks s,
  states-handle_faulty env md_name disks (handle_disk_failure env md_name disk.name s),
  states-handle_disk_failure env md_name disk.name s,
)

-- What the check stores.
abbrev pub stored : Name → Detail → Slot → Slot
stored md_name detail slot =
    new_record (if is_blank slot.md_name then clip md_name else slot.md_name) detail

pub states-check_slot :
    (env : Env) (md_name : Name) (detail : Detail) (i : ℕ) (s : Raid)
    → (check_slot env md_name detail i s).states
      ≡ set s.states i (stored md_name detail (get_or s.states i zero_slot))
unfolding check_slot
states-check_slot env md_name detail i s =
    let disks = take detail.raid_disks detail.disks in
    let last = (get_or s.states i zero_slot).last_state in
    let told = notify_state env md_name last detail.state s in
    ground (
      arith,
      states-handle_faulty env md_name disks told,
      states-notify_state env md_name last detail.state s,
    )

stored_again :
    (md_name : Name) (detail : Detail) (slot : Slot)
    → stored md_name detail (stored md_name detail slot) ≡ stored md_name detail slot
stored_again md_name detail slot = elim (Bool-cases (is_blank slot.md_name)) [
  | inl blank ↦ ground (arith, blank)
  | inr named ↦ ground (arith, named)
]

-- A check of a record that has what the detail says raises no event.
check_slot-unchanged :
    (env : Env) (md_name : Name) (detail : Detail) (i : ℕ) (s : Raid)
    → (get_or s.states i zero_slot).last_state ≡ detail.state
    → (get_or s.states i zero_slot).failed_disks ≡ detail.failed_disks
    → check_slot env md_name detail i s
      ≡ record s { states = set s.states i (stored md_name detail (get_or s.states i zero_slot)) }
unfolding check_slot notify_state
check_slot-unchanged env md_name detail i s same_state same_count = ground arith

check_slot-again :
    (env : Env) (md_name : Name) (detail : Detail) (i : ℕ) (s : Raid)
    → i < length s.states
    → check_slot env md_name detail i (check_slot env md_name detail i s)
      ≡ check_slot env md_name detail i s
check_slot-again env md_name detail i s small =
    let once = check_slot env md_name detail i s in
    let slot = get_or s.states i zero_slot in
    let kept = stored md_name detail slot in
    let all = states-check_slot env md_name detail i s in
    let at : get_or once.states i zero_slot ≡ kept =
      ap (λ l. get_or l i zero_slot) all ∙ get_or-set_self s.states i kept zero_slot small in
    let same : set once.states i (stored md_name detail (get_or once.states i zero_slot))
        ≡ once.states =
      ap (λ v. set once.states i (stored md_name detail v)) at
      ∙ ap (set once.states i) (stored_again md_name detail slot)
      ∙ ap (λ l. set l i kept) all
      ∙ set-set s.states i kept
      ∙ sym all in
    check_slot-unchanged env md_name detail i once (ap (λ (v : Slot). v.last_state) at)
      (ap (λ (v : Slot). v.failed_disks) at)
    ∙ ap (λ l. record once { states = l }) same

-- If the name of the array has at most 255 bytes and the detail is found and says the same as the
-- check before it found, a second check changes nothing: it raises no event, takes no spare and
-- replaces no disk.
check_status-again :
    (env : Env) (md_name : Name) (detail : Detail) (s : Raid)
    → length md_name ≤ 255
    → env.detail s.log md_name ≡ some detail
    → env.detail (check_status env (some md_name) s).log md_name ≡ some detail
    → check_status env (some md_name) (check_status env (some md_name) s)
      ≡ check_status env (some md_name) s
unfolding check_status
check_status-again env md_name detail s short first second =
    elim (Option-cases (find_slot md_name s.states)) [
      | inl stuck ↦ ground (arith, stuck, first)
      | inr (i, found) ↦
          let once : check_status env (some md_name) s ≡ check_slot env md_name detail i s =
            ground (arith, found, first) in
          let (small, fit) = find_slot-range md_name s.states i found in
          let kept = stored md_name detail (get_or s.states i zero_slot) in
          let named : fits md_name kept ≡ true =
            ground (arith, fit, clip_short md_name short, same_name_self md_name) in
          let place : find_slot md_name (check_slot env md_name detail i s).states ≡ some i =
            ap (find_slot md_name) (states-check_slot env md_name detail i s)
            ∙ find_slot-set md_name s.states i kept found named in
          let told : env.detail (check_slot env md_name detail i s).log md_name ≡ some detail =
            ap (λ (v : Raid). env.detail v.log md_name) (sym once) ∙ second in
          ap (check_status env (some md_name)) once
          ∙ ground (arith, told, place)
          ∙ check_slot-again env md_name detail i s small
          ∙ sym once
    ]
