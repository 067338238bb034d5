-- ===== src/Md/Stored.antt =====
-- What a creation or an assembly of src/libxbdev/md.c leaves in the table of arrays.
use mathlib.Core.Path.{subst}
use nblock.Prelude.{
  ℕ, suc, ◌≤◌, ◌<◌, Bool, true, false, not, ◌||◌, List, [], ◌∷◌, none, get_or, set, length,
  length-set, length-replicate, take_all, Bool-cases, Option-cases, ◌≡◌, refl, sym, ap, ◌∙◌, inl,
  inr, arith,
}
use nblock.Prelude.Names.{Name}
use nblock.Prelude.Errno.{Rc, ok, Rc-cases}
use nblock.Md.Device.{Level, MdDev, zero_dev, Md, find_free_md_slot, find_md_by_name, add_base}
use nblock.Md.Create.{
  Env, log, undo, add_bases, copy_names, fill_record, unfilled, take_slot, add_and_record,
  create_call, create_bdev,
}
use nblock.Md.Table.{Distinct, free-range, Distinct-set_new}
use nblock.Md.Sound.{Sound}
use nblock.Md.Valid.{EachSound, IsValid, IsValid-set, IsValid-same, EachSound-set}

pub devices-add_bases :
    (env : Env) (name : Name) (i : ℕ) (bdevs : List Name) (s : Md)
    → (add_bases env name i bdevs s).1.devices ≡ s.devices
unfolding add_bases undo log
devices-add_bases env name i [] s = refl
devices-add_bases env name i (bdev ∷ bdevs) s =
    let added = log (add_base name bdev i (env.added i)) s in
    elim (Rc-cases (env.added i)) [
      | inl good ↦ rw (good, add_bases) (devices-add_bases env name (suc i) bdevs added)
      | inr (e, bad) ↦ rw (bad, add_bases) refl
    ]

length-copy_names :
    (copied : ℕ → Bool) (i : ℕ) (bdevs : List Name)
    → length (copy_names copied i bdevs) ≡ length bdevs
unfolding copy_names
length-copy_names copied i [] = refl
length-copy_names copied i (bdev ∷ bdevs) = ap suc (length-copy_names copied (suc i) bdevs)

fill_record-Sound :
    (env : Env) (name : Name) (level : Level) (strip layout : ℕ) (bdevs : List Name) (d : MdDev)
    → 2 ≤ length bdevs
    → Sound (fill_record env name level strip layout bdevs d)
unfolding fill_record
fill_record-Sound env name level strip layout bdevs d two = record {
  named = length-copy_names env.copied 0 bdevs;
  stated = length-replicate (length bdevs) true;
  enough = two;
  spares = omega arith;
  counted = omega arith;
  calm = refl;
}

module _ (env : Env) (name : Name) (level : Level) (strip layout : ℕ) (bdevs : List Name) where
  abbrev new_record : MdDev → MdDev
  new_record old = fill_record env name level strip layout bdevs old

  -- What a creation does: a failure leaves the active records, perhaps with another record that is not
  -- active, and the success stores the new record at a place that was free.
  pub data Stored (devices : List MdDev) (t : Md) (rc : Rc) : Type 0 where
    kept : (rc ≡ ok → ⊥) → t.devices ≡ devices → Stored devices t rc
    cleared :
        (i : ℕ) (new : MdDev)
        → (rc ≡ ok → ⊥)
        → (get_or devices i zero_dev).active ≡ false
        → new.active ≡ false
        → t.devices ≡ set devices i new
        → Stored devices t rc
    stored :
        (i : ℕ)
        → rc ≡ ok
        → i < length devices
        → (get_or devices i zero_dev).active ≡ false
        → t.devices ≡ set devices i (new_record (get_or devices i zero_dev))
        → Stored devices t rc

  Stored-take_slot :
      (s : Md)
      → Stored s.devices
          (take_slot env name level strip layout bdevs s).1
          (take_slot env name level strip layout bdevs s).0
  unfolding take_slot undo
  Stored-take_slot s = elim (Option-cases (find_free_md_slot s.devices)) [
    | inl full ↦ rw (full, take_slot) (kept (λ e. cc e) refl)
    | inr (i, at) ↦
        let (small, free) = free-range s.devices i at in
        elim (Bool-cases (not env.names_allocated || not env.states_allocated)) [
          | inl out ↦
              let old = get_or s.devices i zero_dev in
              rw (at, out, take_slot)
                (cleared i (unfilled old (new_record old)) (λ e. cc e) free refl refl)
          | inr room ↦ rw (at, room, take_slot) (stored i refl small free refl)
        ]
  ]

  Stored-add_and_record :
      (s : Md)
      → Stored s.devices
          (add_and_record env name level strip layout bdevs s).1
          (add_and_record env name level strip layout bdevs s).0
  unfolding add_and_record
  Stored-add_and_record s =
      let same = devices-add_bases env name 0 bdevs s in
      let added = (add_bases env name 0 bdevs s).1 in
      elim (Rc-cases (add_bases env name 0 bdevs s).0) [
        | inr (e, bad) ↦ rw (bad, add_and_record) (kept (λ e. cc e) same)
        | inl good ↦
            let all = take_slot env name level strip layout bdevs added in
            rw (good, add_and_record)
              (subst (λ ds. Stored ds all.1 all.0) same (Stored-take_slot added))
      ]

  pub Stored-create_bdev :
      (seen : Bool) (s : Md)
      → Stored s.devices
          (create_bdev env seen name level strip layout bdevs s).1
          (create_bdev env seen name level strip layout bdevs s).0
  unfolding create_bdev log
  Stored-create_bdev seen s =
      elim (Option-cases (create_call env name level strip layout (length bdevs))) [
        | inl unable ↦ rw (unable, create_bdev) (kept (λ e. cc e) refl)
        | inr (call, at) ↦ elim (Rc-cases env.created) [
          | inr (e, bad) ↦ rw (at, bad, create_bdev) (kept (λ e. cc e) refl)
          | inl good ↦ elim (Bool-cases seen) [
            | inr lost ↦ rw (at, good, lost, create_bdev) (kept (λ e. cc e) refl)
            | inl there ↦
                let whole = create_bdev env seen name level strip layout bdevs s in
                let same : add_and_record env name level strip layout bdevs (log call s) ≡ whole =
                  ground (arith, at, good, there) in
                subst (λ r. Stored s.devices r.1 r.0) same (Stored-add_and_record (log call s))
          ]
        ]
      ]

  -- A creation that ends so keeps the table valid, if no active record has the name.
  pub Stored-IsValid :
      (s t : Md) (rc : Rc)
      → 2 ≤ length bdevs
      → length name ≤ 63
      → find_md_by_name name s.devices ≡ none
      → IsValid s
      → Stored s.devices t rc
      → IsValid t
  unfolding fill_record
  Stored-IsValid s t rc two short fresh v (kept bad e) = IsValid-same s t v e
  Stored-IsValid s t rc two short fresh v (cleared i new bad free down e) =
      IsValid-set s t i new v e (λ up. absurd (cc (up, down)))
  Stored-IsValid s t rc two short fresh v (stored i good small free e) =
      let old = get_or s.devices i zero_dev in
      let new = new_record old in
      let named : new.name ≡ name = take_all 63 name short in
      let unknown = ap (λ n. find_md_by_name n s.devices) named ∙ fresh in
      let sound = fill_record-Sound env name level strip layout bdevs old two in
      record {
        sized = ap length e ∙ length-set s.devices i new ∙ v.sized;
        distinct = subst Distinct (sym e) (Distinct-set_new s.devices i new v.distinct unknown);
        sound = subst EachSound (sym e) (EachSound-set s.devices i new v.sound (λ up. sound));
      }
