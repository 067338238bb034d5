-- ===== src/DeviceList/Entries.antt =====
-- Finding and changing entries in the list of src/libxbdev/device_list.c, name by name.
use nblock.Prelude.{
  Bool-cases, ℕ, ◌≡◌, refl, ap, ◌∙◌, inl, inr, arith, true, false, List, [], ◌∷◌, Option, none,
  some, if◌then◌else◌,
}
use mathlib.Core.Option
use nblock.Prelude.Names.{Name, same_name, same_name_eq}
use nblock.DeviceList.{Entry, DeviceList, Event, find_device_entry, change_entry, notify}
use nblock.DeviceList.Scan.{Env, all_offline, sweep}

module _ {Info : Type 0} where
  -- No two entries have the same name.
  unfoldable pub Distinct : List (Entry Info) → Type 0
  Distinct [] = find_device_entry {Info = Info} [] [] ≡ none
  Distinct (e ∷ es) = (find_device_entry e.name es ≡ none) × Distinct es

  pub find-all_offline :
      (name : Name) (es : List (Entry Info)) (env : Env Info)
      → find_device_entry name (all_offline env es)
        ≡ Option.map (λ (e : Entry Info). record e { online = false }) (find_device_entry name es)
  unfolding find_device_entry all_offline
  find-all_offline name [] env = refl
  find-all_offline name (e ∷ es) env = ground (arith, find-all_offline name es env)

  pub Distinct-all_offline :
      (es : List (Entry Info)) (env : Env Info) → Distinct es → Distinct (all_offline env es)
  unfolding Distinct all_offline
  Distinct-all_offline [] env d = d
  Distinct-all_offline (e ∷ es) env (apart, d) =
      (find-all_offline e.name es env ∙ ap (Option.map _) apart, Distinct-all_offline es env d)

  -- A change that keeps names is seen only under the name at which it is made.
  pub find-change_entry :
      (name other : Name) (f : Entry Info → Entry Info) (es : List (Entry Info))
      → ((e : Entry Info) → (f e).name ≡ e.name)
      → find_device_entry other (change_entry name f es) ≡ (
          if same_name name other
          then Option.map f (find_device_entry name es)
          else find_device_entry other es)
  unfolding find_device_entry change_entry
  find-change_entry name other f [] keeps = ground arith
  find-change_entry name other f (e ∷ es) keeps =
      let kept = ap (λ n. same_name n other) (keeps e) in
      let rest = find-change_entry name other f es keeps in
      elim (Bool-cases (same_name e.name name)) [
        | inl here ↦
            let moved = ap (λ n. same_name n other) (same_name_eq e.name name here) in
            ground (arith, kept, moved)
        | inr there ↦ elim (Bool-cases (same_name name other)) [
          | inl same ↦
              let moved = ap (λ n. same_name e.name n) (same_name_eq name other same) in
              ground (arith, rest, moved)
          | inr differ ↦ ground (arith, rest)
        ]
      ]

  pub Distinct-change_entry :
      (name : Name) (f : Entry Info → Entry Info) (es : List (Entry Info))
      → ((e : Entry Info) → (f e).name ≡ e.name)
      → Distinct es
      → Distinct (change_entry name f es)
  unfolding Distinct change_entry
  Distinct-change_entry name f [] keeps d = d
  Distinct-change_entry name f (e ∷ es) keeps (apart, d) =
      let moved = λ (p : same_name name e.name ≡ true).
        ap (λ n. find_device_entry n es) (same_name_eq name e.name p) in
      let still : find_device_entry e.name (change_entry name f es) ≡ none =
        elim (Bool-cases (same_name name e.name)) [
          | inl same ↦ ground (arith, find-change_entry name e.name f es keeps, moved same)
          | inr differ ↦ ground (arith, find-change_entry name e.name f es keeps)
        ] in
      elim (Bool-cases (same_name e.name name)) [
        | inl here ↦ rw here (ap (λ n. find_device_entry n es) (keeps e) ∙ apart, d)
        | inr there ↦ rw there (still, Distinct-change_entry name f es keeps d)
      ]

  pub find-sweep :
      (name : Name) (es : List (Entry Info)) (env : Env Info)
      → Distinct es
      → find_device_entry name (sweep env es) ≡ elim (find_device_entry name es) [
        | none ↦ none
        | some e ↦ if e.online then some e else none
      ]
  unfolding Distinct sweep find_device_entry
  find-sweep name [] env d = refl
  find-sweep name (e ∷ es) env (apart, d) =
      let rest = find-sweep name es env d in
      elim (Bool-cases (same_name e.name name)) [
        | inl here ↦
            let moved = ap (λ n. find_device_entry n es) (same_name_eq e.name name here) in
            ground (arith, rest, moved)
        | inr there ↦ ground (arith, rest)
      ]

  pub entries-notify :
      (event : Option ℕ → Event Info) (s : DeviceList Info) → (notify event s).entries ≡ s.entries
  unfolding notify
  entries-notify event s = ground arith

  -- The device of a name as the scan stores it.
  abbrev pub online_entry : Name → Info → Entry Info
  online_entry name info = record { name = name; info = info; online = true }
