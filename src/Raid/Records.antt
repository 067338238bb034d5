-- ===== src/Raid/Records.antt =====
-- The table of the state check of src/libxbdev/raid.c seen as a map from names of arrays.
use nblock.Prelude.{
  ℕ, zero, suc, ◌≤◌, if◌then◌else◌, false, List, [], ◌∷◌, Option, none, some, get_or, set, length,
  Bool-cases, Option-cases, ◌≡◌, refl, sym, ap, ◌∙◌, inl, inr, arith,
}
use nblock.Prelude.Names.{
  Name, same_name, same_name_self, same_name_eq, same_name_blank, is_blank, clip_short,
}
use nblock.Raid.Events.{Slot, Raid, Detail, Env}
use nblock.Raid.Status.{find_slot, zero_slot, new_record, check_slot, check_status}
use nblock.Raid.Slots.{fits, stored, find_slot-range, states-check_slot}

-- What the table says of a name: the first record with it.
unfoldable pub tracked : Name → List Slot → Option Slot
tracked name [] = none
tracked name (slot ∷ slots) =
    let rest = tracked name slots in if same_name slot.md_name name then some slot else rest

-- A record stored at the place of the search is what the table says of the name.
tracked-set_found :
    (name : Name) (slots : List Slot) (i : ℕ) (slot : Slot)
    → is_blank name ≡ false
    → find_slot name slots ≡ some i
    → slot.md_name ≡ name
    → tracked name (set slots i slot) ≡ some slot
unfolding find_slot tracked
tracked-set_found name [] i slot filled found same = absurd (cc found)
tracked-set_found name (old ∷ slots) i slot filled found same =
    let self = ap (λ n. same_name n name) same ∙ same_name_self name in
    elim (Bool-cases (fits name old)) [
      | inl here ↦ let at : i ≡ 0 = ground (arith, found, here) in rw at (ground (arith, self))
      | inr there ↦ elim (Option-cases (find_slot name slots)) [
        | inl stuck ↦ absurd (ground (arith, found, there, stuck))
        | inr (j, at) ↦
            let next : i ≡ suc j = ground (arith, found, there, at) in
            let rest = tracked-set_found name slots j slot filled at same in
            rw next (ground (arith, rest, there))
      ]
    ]

-- A record stored in place of one that neither has the name leaves what the table says of it.
tracked-set_other :
    (name : Name) (slots : List Slot) (i : ℕ) (slot : Slot)
    → same_name (get_or slots i zero_slot).md_name name ≡ false
    → same_name slot.md_name name ≡ false
    → tracked name (set slots i slot) ≡ tracked name slots
unfolding tracked
tracked-set_other name [] i slot old new = refl
tracked-set_other name (x ∷ slots) zero slot old new = ground (arith, old, new)
tracked-set_other name (x ∷ slots) (suc i) slot old new =
    ground (arith, tracked-set_other name slots i slot old new)

-- If the name of the array is not empty and has at most 255 bytes, its detail is found and there is a
-- place for it, a check stores under its name the state, the number of failed disks and the progress of
-- the detail, and leaves what the table says of every other name that is not empty.
pub tracked-check_status :
    (env : Env) (md_name other : Name) (detail : Detail) (i : ℕ) (s : Raid)
    → length md_name ≤ 255
    → is_blank md_name ≡ false
    → is_blank other ≡ false
    → env.detail s.log md_name ≡ some detail
    → find_slot md_name s.states ≡ some i
    → tracked other (check_status env (some md_name) s).states ≡ (
        if same_name md_name other
        then some (record {
          md_name = md_name;
          last_state = detail.state;
          failed_disks = detail.failed_disks;
          resync_progress = detail.resync_progress;
        })
        else tracked other s.states)
unfolding check_status
tracked-check_status env md_name other detail i s short named other_named told found =
    let slot = get_or s.states i zero_slot in
    let once : check_status env (some md_name) s ≡ check_slot env md_name detail i s =
      ground (arith, told, found) in
    let (small, fit) = find_slot-range md_name s.states i found in
    let kept : stored md_name detail slot ≡ new_record md_name detail =
      elim (Bool-cases (is_blank slot.md_name)) [
        | inl blank ↦ ground (arith, blank, clip_short md_name short)
        | inr filled ↦
            let same = same_name_eq slot.md_name md_name (ground (arith, fit, filled)) in
            ground (arith, filled, same)
      ] in
    let all =
      ap (λ (v : Raid). v.states) once
      ∙ states-check_slot env md_name detail i s
      ∙ ap (set s.states i) kept in
    elim (Bool-cases (same_name md_name other)) [
      | inl same ↦
          let fresh = new_record md_name detail in
          let at = tracked-set_found md_name s.states i fresh named found refl in
          let is = same_name_eq md_name other same in
          let under : tracked other (set s.states i fresh) ≡ some fresh =
            ap (λ n. tracked n (set s.states i fresh)) (sym is) ∙ at in
          rw same (ap (tracked other) all ∙ under)
      | inr differ ↦
          let old : same_name slot.md_name other ≡ false =
            elim (Bool-cases (is_blank slot.md_name)) [
              | inl blank ↦ same_name_blank slot.md_name other blank other_named
              | inr filled ↦
                  let is = same_name_eq slot.md_name md_name (ground (arith, fit, filled)) in
                  ap (λ n. same_name n other) is ∙ differ
            ] in
          rw differ (
            ap (tracked other) all
            ∙ tracked-set_other other s.states i (new_record md_name detail) old differ)
    ]
