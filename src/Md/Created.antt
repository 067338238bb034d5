-- ===== src/Md/Created.antt =====
-- What the creation and the stop of an array by src/libxbdev/md.c leave under each name.
use mathlib.Core.Path.{subst}
use nblock.Prelude.{
  ℕ, ◌≤◌, if◌then◌else◌, Bool, true, false, ◌&&◌, List, Option, none, some, get_or, take_all,
  length, Bool-cases, Option-cases, ◌≡◌, refl, ap, ◌∙◌, inl, inr, arith, suc, ◌==◌, [], ◌∷◌, map,
  replicate, take, ap₂,
}
use nblock.Prelude.Names.{Name, same_name, same_name_eq}
use nblock.Prelude.Errno.{Rc, ok, fail, Rc-cases}
use nblock.Md.Device.{Level, MdDev, zero_dev, Md, find_md_by_name, md_name_exists, bears}
use nblock.Md.Create.{
  Env, Config, CreateCtx, strip_size_kb, layout_of, fill_record, create_bdev, create_named,
  create_on_thread, copy_names,
}
use nblock.Md.Calls.{md_create}
use nblock.Md.Table.{device_of, device_of-set_other, device_of-set_new}
use nblock.Md.Stored.{Stored, kept, cleared, stored, Stored-create_bdev}
use nblock.Sync.{Completes, Sync, sync_call_lem}

abbrev pub is_ok : Rc → Bool
is_ok ok = true
is_ok (fail e) = false

-- A record without the speed of the last rebuild, which a new array takes over from its place.
abbrev pub described : MdDev → MdDev
described d = record d { rebuild_speed_kb = 0 }

-- What the table says of a name.
abbrev pub description : Option MdDev → Option MdDev
description none = none
description (some d) = some (described d)

module _ (env : Env) (name : Name) (level : Level) (strip layout : ℕ) (bdevs : List Name) where
  -- What a creation leaves under a name, by how it ended.
  Stored-device_of :
      (m : Name) (devices : List MdDev) (t : Md) (rc : Rc)
      → length name ≤ 63
      → find_md_by_name name devices ≡ none
      → Stored env name level strip layout bdevs devices t rc
      → description (device_of m t.devices) ≡ (
          if is_ok rc && same_name name m
          then some (fill_record env name level strip layout bdevs zero_dev)
          else description (device_of m devices))
  unfolding fill_record
  Stored-device_of m devices t rc short fresh (kept bad e) = elim (Rc-cases rc) [
    | inl good ↦ absurd (bad good)
    | inr (code, failed) ↦ rw (e, failed) refl
  ]
  Stored-device_of m devices t rc short fresh (cleared i new bad free down e) = elim (Rc-cases rc) [
    | inl good ↦ absurd (bad good)
    | inr (code, failed) ↦
        let same =
          device_of-set_other m devices i new (ground (arith, free)) (ground (arith, down)) in
        rw (e, failed, same) refl
  ]
  Stored-device_of m devices t rc short fresh (stored i good small free e) =
      let old = get_or devices i zero_dev in
      let new = fill_record env name level strip layout bdevs old in
      let named : new.name ≡ name = take_all 63 name short in
      elim (Bool-cases (same_name name m)) [
        | inl same ↦
            let is = same_name_eq name m same in
            let fresh_m = subst (λ n. find_md_by_name n devices ≡ none) is fresh in
            let here : bears m new ≡ true = ap (λ n. same_name n m) named ∙ same in
            rw (e, good, same, device_of-set_new m devices i new fresh_m small here) refl
        | inr other ↦
            let there : bears m new ≡ false = ap (λ n. same_name n m) named ∙ other in
            rw (e, good, other, device_of-set_other m devices i new (ground (arith, free)) there)
              refl
      ]

-- The context of a creation by name.
abbrev pub request : Name → Level → List Name → Option Config → CreateCtx
request name level bdevs config = record {
  name = some name;
  level = level;
  base_bdevs = some bdevs;
  config = config;
}

-- What is found under a name after a creation, as the record that the code fills.
pub device_of-created :
    (env : Env) (sync : Sync) (name : Name) (level : Level) (bdevs : List Name)
    (config : Option Config) (m : Name) (s : Md)
    → length name ≤ 63
    → Completes sync
    → description (device_of m (md_create env sync (request name level bdevs config) s).1.devices)
      ≡ (if is_ok (md_create env sync (request name level bdevs config) s).0 && same_name name m
          then some
              (fill_record env name level (strip_size_kb config) (layout_of config) bdevs zero_dev)
          else description (device_of m s.devices))
unfolding md_create md_name_exists create_on_thread create_named
device_of-created env sync name level bdevs config m s short h =
    let ctx = request name level bdevs config in
    let strip = strip_size_kb config in
    let layout = layout_of config in
    let sent = sync_call_lem sync (create_on_thread env ctx) s h in
    let done = create_bdev env env.visible name level strip layout bdevs s in
    elim (Option-cases (find_md_by_name name s.devices)) [
      | inr (i, known) ↦ ground (arith, known)
      | inl fresh ↦
          let end = Stored-create_bdev env name level strip layout bdevs env.visible s in
          let told =
            Stored-device_of env name level strip layout bdevs m s.devices done.1 done.0 short fresh
              end in
          ground (arith, fresh, sent, told)
    ]

-- What a user asks for: strips of 64 kB unless the configuration has another size than 0, and its layout.
abbrev pub asked_strip : Option Config → ℕ
asked_strip none = 64
asked_strip (some config) = if config.chunk_size_kb == 0 then 64 else config.chunk_size_kb

abbrev pub asked_layout : Option Config → ℕ
asked_layout none = 0
asked_layout (some config) = config.layout

-- A new array: all disks are there and work, none is spare, and no rebuild is active.
abbrev pub new_array : Name → Level → Option Config → List Name → Name → MdDev
new_array name level config bdevs uuid = record {
  active = true;
  name = name;
  level = level;
  disk_count = length bdevs;
  disk_names = map some bdevs;
  disk_state = map (λ bdev. true) bdevs;
  chunk_size_kb = asked_strip config;
  layout = asked_layout config;
  uuid_str = take 36 uuid;
  rebuild_active = false;
  rebuild_progress = 0;
  rebuild_speed_kb = 0;
  failed_disk_count = 0;
  spare_disk_count = 0;
  spare_disks = [];
  degraded = false;
}

copy_names_all :
    (copied : ℕ → Bool) (i : ℕ) (bdevs : List Name)
    → ((j : ℕ) → copied j ≡ true)
    → copy_names copied i bdevs ≡ map some bdevs
unfolding copy_names
copy_names_all copied i [] all = refl
copy_names_all copied i (bdev ∷ bdevs) all =
    ap₂ ◌∷◌ (ground (arith, all i)) (copy_names_all copied (suc i) bdevs all)

working_all : (bdevs : List Name) → replicate (length bdevs) true ≡ map (λ (b : Name). true) bdevs
working_all [] = refl
working_all (bdev ∷ bdevs) = ap (λ l. true ∷ l) (working_all bdevs)

asked_strip_lem : (config : Option Config) → strip_size_kb config ≡ asked_strip config
unfolding strip_size_kb
asked_strip_lem none = refl
asked_strip_lem (some config) = refl

asked_layout_lem : (config : Option Config) → layout_of config ≡ asked_layout config
unfolding layout_of
asked_layout_lem none = refl
asked_layout_lem (some config) = refl

fill_record-new_array :
    (env : Env) (name : Name) (level : Level) (config : Option Config) (bdevs : List Name)
    → length name ≤ 63
    → ((i : ℕ) → env.copied i ≡ true)
    → fill_record env name level (strip_size_kb config) (layout_of config) bdevs zero_dev
      ≡ new_array name level config bdevs env.uuid
unfolding fill_record
fill_record-new_array env name level config bdevs short all i = record {
  active = true;
  name = take_all 63 name short i;
  level = level;
  disk_count = length bdevs;
  disk_names = copy_names_all env.copied 0 bdevs all i;
  disk_state = working_all bdevs i;
  chunk_size_kb = asked_strip_lem config i;
  layout = asked_layout_lem config i;
  uuid_str = take 36 env.uuid;
  rebuild_active = false;
  rebuild_progress = 0;
  rebuild_speed_kb = 0;
  failed_disk_count = 0;
  spare_disk_count = 0;
  spare_disks = [];
  degraded = false;
}

-- A creation that is completed, for a name of at most 63 bytes, where there is memory for the names of the
-- disks, and what is then found under a name: where it returned 0 and the name is that of the array,
-- the record of an array of the given name, level and disks, with the strip size (64 kB unless another
-- is given) and layout of the configuration, in which all disks work, none is spare, and no rebuild is
-- active; otherwise what was found before the call.
pub device_of-md_create :
    (env : Env) (sync : Sync) (name : Name) (level : Level) (bdevs : List Name)
    (config : Option Config) (m : Name) (s : Md)
    → length name ≤ 63
    → ((i : ℕ) → env.copied i ≡ true)
    → Completes sync
    → description (device_of m (md_create env sync (request name level bdevs config) s).1.devices)
      ≡ (if is_ok (md_create env sync (request name level bdevs config) s).0 && same_name name m
          then some (new_array name level config bdevs env.uuid)
          else description (device_of m s.devices))
device_of-md_create env sync name level bdevs config m s short all h =
    let result = md_create env sync (request name level bdevs config) s in
    device_of-created env sync name level bdevs config m s short h
    ∙ ap
        (λ d.
          if is_ok result.0 && same_name name m
          then some d
          else description (device_of m s.devices))
        (fill_record-new_array env name level config bdevs short all)
