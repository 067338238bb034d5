-- ===== src/DeviceList/Listing.antt =====
-- What a scan of src/libxbdev/device_list.c leaves in the list.
use nblock.Prelude.{
  Bool-cases, Option-cases, ◌≡◌, refl, sym, ap, ◌∙◌, inl, inr, arith, Bool, true, false, List, [],
  ◌∷◌, Option, none, some, if◌then◌else◌, ℕ, zero, suc, ◌+◌, take,
}
use mathlib.Core.Option
use mathlib.Core.Path.{subst}
use nblock.Prelude.Errno.{ok}
use nblock.Prelude.Names.{Name, same_name, clip, same_name_eq}
use nblock.DeviceList.{Entry, DeviceList, find_device_entry, change_entry, notify, add_device_entry}
use nblock.DeviceList.Scan.{Env, collect, all_offline, refresh, refresh_all, sweep, scan_devices}
use nblock.DeviceList.Entries.{
  Distinct, find-all_offline, Distinct-all_offline, find-change_entry, Distinct-change_entry,
  find-sweep, online_entry,
}

-- The names that are not NULL.
unfoldable pub present : List (Option Name) → List Name
present [] = []
present (none ∷ bdevs) = present bdevs
present (some name ∷ bdevs) = name ∷ present bdevs

module _ {Info : Type 0} (env : Env Info) where
  find_name :
      (name : Name) (es : List (Entry Info)) {e : Entry Info}
      → find_device_entry name es ≡ some e
      → e.name ≡ name
  unfolding find_device_entry
  find_name name [] p = absurd (cc p)
  find_name name (x ∷ es) {e} p = elim (Bool-cases (same_name x.name name)) [
    | inl here ↦ ground (arith, same_name_eq x.name name here)
    | inr there ↦ find_name name es {e = e} (ground arith)
  ]

  -- What one name does to the entry of the name `n`.
  step : Name → Name → Option (Entry Info) → Option (Entry Info)
  step name n before =
      if same_name name n
      then elim (env.device_info name) [ none ↦ before | some info ↦ some (online_entry n info) ]
      else before

  refresh-new :
      (name : Name) (s : DeviceList Info) (info : Info)
      → clip name ≡ name
      → env.entry_allocated name ≡ true
      → env.device_info name ≡ some info
      → find_device_entry name s.entries ≡ none
      → (refresh env name s).entries ≡ online_entry name info ∷ s.entries
  unfolding refresh add_device_entry notify
  refresh-new name s info short allocated got new = ground (arith, short, allocated, got, new)

  refresh-old :
      (name : Name) (s : DeviceList Info) (info : Info) (e : Entry Info)
      → env.device_info name ≡ some info
      → find_device_entry name s.entries ≡ some e
      → (refresh env name s).entries
        ≡ change_entry name (λ e. record e { online = true; info = info }) s.entries
  unfolding refresh
  refresh-old name s info e got old = ground (arith, got, old)

  find-refresh :
      (name n : Name) (s : DeviceList Info)
      → clip name ≡ name
      → env.entry_allocated name ≡ true
      → find_device_entry n (refresh env name s).entries
        ≡ step name n (find_device_entry n s.entries)
  unfolding refresh step find_device_entry
  find-refresh name n s short allocated = elim (Option-cases (env.device_info name)) [
    | inl absent ↦ ground (arith, absent)
    | inr (info, got) ↦ elim (Option-cases (find_device_entry name s.entries)) [
      | inl new ↦
          ap (find_device_entry n) (refresh-new name s info short allocated got new)
          ∙ added_at info got
      | inr (e, old) ↦
          ap (find_device_entry n) (refresh-old name s info e got old)
          ∙ (find-change_entry name n (λ e. record e { online = true; info = info }) s.entries
                (λ e. refl)
              ∙ changed info got e old)
    ]
  ]
    where
      stored :
          (info : Info) (m : Name)
          → same_name name n ≡ true
          → m ≡ name
          → some (online_entry m info) ≡ some (online_entry n info)
      stored info m same at = ap (λ k. some (online_entry k info)) (at ∙ same_name_eq name n same)

      added_at :
          (info : Info)
          → env.device_info name ≡ some info
          → find_device_entry n (online_entry name info ∷ s.entries)
            ≡ step name n (find_device_entry n s.entries)
      added_at info got = elim (Bool-cases (same_name name n)) [
        | inl same ↦ ground (arith, got, stored info name same refl)
        | inr differ ↦ ground arith
      ]

      changed :
          (info : Info)
          → env.device_info name ≡ some info
          → (e : Entry Info) → find_device_entry name s.entries ≡ some e
          → (if same_name name n
              then Option.map
                  (λ (e : Entry Info). record e { online = true; info = info })
                  (find_device_entry name s.entries)
              else find_device_entry n s.entries)
            ≡ step name n (find_device_entry n s.entries)
      changed info got e old = elim (Bool-cases (same_name name n)) [
        | inl same ↦
            ground (arith, got, old, stored info e.name same (find_name name s.entries {e = e} old))
        | inr differ ↦ ground arith
      ]

  Distinct-refresh :
      (name : Name) (s : DeviceList Info)
      → clip name ≡ name
      → env.entry_allocated name ≡ true
      → Distinct s.entries
      → Distinct (refresh env name s).entries
  unfolding refresh Distinct
  Distinct-refresh name s short allocated d = elim (Option-cases (env.device_info name)) [
    | inl absent ↦
        let same : s.entries ≡ (refresh env name s).entries = ground (arith, absent) in
        subst Distinct same d
    | inr (info, got) ↦ elim (Option-cases (find_device_entry name s.entries)) [
      | inl new ↦ subst Distinct (sym (refresh-new name s info short allocated got new)) (new, d)
      | inr (e, old) ↦ subst Distinct (sym (refresh-old name s info e got old)) (
          Distinct-change_entry name (λ e. record e { online = true; info = info }) s.entries
            (λ e. refl) d)
    ]
  ]

  -- The names, one after the other.
  steps : List Name → Name → Option (Entry Info) → Option (Entry Info)
  steps [] n o = o
  steps (name ∷ names) n o = steps names n (step name n o)

  abbrev pub listed : Name → List Name → Bool
  listed n [] = false
  listed n (name ∷ names) = let rest = listed n names in if same_name name n then true else rest

  -- The names fit in an entry, and every entry that is needed is allocated.
  unfoldable pub AllStored : List Name → Type 0
  AllStored [] = Unit {0}
  AllStored (name ∷ names) =
      (clip name ≡ name) × (env.entry_allocated name ≡ true) × AllStored names

  find-refresh_all :
      (names : List Name) (n : Name) (s : DeviceList Info)
      → AllStored names
      → Distinct s.entries
      → (find_device_entry n (refresh_all env names s).entries
          ≡ steps names n (find_device_entry n s.entries))
        × Distinct (refresh_all env names s).entries
  unfolding refresh_all steps AllStored
  find-refresh_all [] n s stored d = (refl, d)
  find-refresh_all (name ∷ names) n s (short, allocated, stored) d =
      let (found, d') =
        find-refresh_all names n (refresh env name s) stored
          (Distinct-refresh name s short allocated d) in
      (found ∙ ap (steps names n) (find-refresh name n s short allocated), d')

  steps_lem :
      (names : List Name) (n : Name) (o : Option (Entry Info))
      → steps names n o ≡ elim (env.device_info n) [
        | none ↦ o
        | some info ↦ if listed n names then some (online_entry n info) else o
      ]
  unfolding steps step
  steps_lem [] n o = ground arith
  steps_lem (name ∷ names) n o = elim (Bool-cases (same_name name n)) [
    | inl same ↦
        let moved = ap env.device_info (same_name_eq name n same) in
        ground (arith, moved, steps_lem names n (step name n o))
    | inr differ ↦ ground (arith, steps_lem names n o)
  ]

  Distinct-sweep : (es : List (Entry Info)) → Distinct es → Distinct (sweep env es)
  unfolding Distinct sweep
  Distinct-sweep [] d = d
  Distinct-sweep (e ∷ es) (apart, d) = elim (Bool-cases e.online) [
    | inl on ↦ rw on (ground (arith, find-sweep e.name es env d, apart), Distinct-sweep es d)
    | inr off ↦ rw off (Distinct-sweep es d)
  ]

  collect-take :
      (room i : ℕ) (bdevs : List (Option Name))
      → ((j : ℕ) → env.copied j ≡ true)
      → collect env room i bdevs ≡ some (take room (present bdevs))
  unfolding collect present
  collect-take zero i bdevs all = refl
  collect-take (suc room) i [] all = refl
  collect-take (suc room) i (none ∷ bdevs) all = collect-take (suc room) i bdevs all
  collect-take (suc room) i (some name ∷ bdevs) all =
      ground (arith, all i, collect-take room (i + 1) bdevs all)

  entries-scan_devices :
      (s : DeviceList Info) (names : List Name)
      → env.array_allocated ≡ true
      → collect env 256 0 env.bdevs ≡ some names
      → ((scan_devices env s).0 ≡ ok)
        × ((scan_devices env s).1.entries
            ≡ sweep env
                (refresh_all env names (record s { entries = all_offline env s.entries })).entries)
  unfolding scan_devices
  entries-scan_devices s names made got = ground (arith, got)

  scan_devices_named :
      (s : DeviceList Info) (names : List Name) (n : Name)
      → env.array_allocated ≡ true
      → collect env 256 0 env.bdevs ≡ some names
      → AllStored names
      → Distinct s.entries
      → let (rc, t) = scan_devices env s in
        (rc ≡ ok)
        × (find_device_entry n t.entries ≡ elim (env.device_info n) [
          | none ↦ none
          | some info ↦ if listed n names then some (online_entry n info) else none
        ])
        × Distinct t.entries
  scan_devices_named s names n made got stored d =
      let before : DeviceList Info = record s { entries = all_offline env s.entries } in
      let (found, d') =
        find-refresh_all names n before stored (Distinct-all_offline s.entries env d) in
      let (code, entries) = entries-scan_devices s names made got in
      let after = (refresh_all env names before).entries in
      (
        code,
        ap (find_device_entry n) entries
            ∙ (find-sweep n after env d'
                ∙ ground (
                  arith,
                  found,
                  steps_lem names n (find_device_entry n before.entries),
                  find-all_offline n s.entries env,
                )),
        subst Distinct (sym entries) (Distinct-sweep after d'),
      )

  -- A scan that gets its memory, for names that fit in an entry, when no two entries of the list have
  -- the same name. Afterwards a name has an entry exactly if it is among the first 256 names that SPDK
  -- gives and its device has information, and the entry holds that information and is online. Again no
  -- two entries have the same name.
  pub scan_devices_lem :
      (s : DeviceList Info) (n : Name)
      → env.array_allocated ≡ true
      → ((i : ℕ) → env.copied i ≡ true)
      → AllStored (take 256 (present env.bdevs))
      → Distinct s.entries
      → let (rc, t) = scan_devices env s in
        (rc ≡ ok)
        × (find_device_entry n t.entries ≡ elim (env.device_info n) [
          | none ↦ none
          | some info ↦
              if listed n (take 256 (present env.bdevs)) then some (online_entry n info) else none
        ])
        × Distinct t.entries
  scan_devices_lem s n made all stored d =
      scan_devices_named s (take 256 (present env.bdevs)) n made (collect-take 256 0 env.bdevs all)
        stored d
