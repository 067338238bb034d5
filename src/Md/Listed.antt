-- ===== src/Md/Listed.antt =====
-- What src/libxbdev/md.c tells of its arrays: the list of their names, the examination of a device, and
-- the levels that it makes and recognizes.
use nblock.Prelude.{
  ℕ, zero, suc, ◌+◌, ◌<◌, ◌≤◌, if◌then◌else◌, Bool, true, false, List, [], ◌∷◌, ◌++◌, Option, none,
  some, get_or, set, take, length, Bool-cases, Option-cases, ◌≡◌, ◌≢◌, refl, inl, inr, arith,
}
use nblock.Prelude.Names.{Name, same_name}
use nblock.Prelude.Errno.{ok}
use nblock.Md.Device.{
  linear, raid10, MdDev, zero_dev, Md, find_md_by_name, md_name_exists, find_disk, on_device,
  md_run,
}
use nblock.Md.Create.{Env, create_on_thread, create_named, create_bdev, create_call}
use nblock.Md.Manage.{
  SpareEnv, add_spare, add_spare_to, run_command, manage_on_thread, list_names, md_list, listed,
  is_found,
}
use nblock.Md.Report.{
  MdInfo, Bdev, plain, starts_with, contains, product, level_of_product, spare_info, examine_device,
  examine_all, examine_on_thread,
}
use nblock.Md.Calls.{md_create, md_create_linear}
use nblock.Md.Table.{find-range, bears-parts}
use nblock.Md.Valid.{IsValid, found-Sound}
use nblock.Md.Created.{is_ok, request}
use nblock.Md.Faults.{find_disk-append}
use nblock.Sync.{Completes, Sync, sync_call_lem}

-- The names of the active arrays, in the order of the table.
unfoldable pub active_names : List MdDev → List Name
active_names [] = []
active_names (d ∷ devices) =
    let rest = active_names devices in if d.active then d.name ∷ rest else rest

unfoldable pub has_name : Name → List Name → Bool
has_name name [] = false
has_name name (n ∷ names) =
    let rest = has_name name names in if same_name n name then true else rest

list_names-take :
    (copied : ℕ → Bool) (count room : ℕ) (devices : List MdDev)
    → ((k : ℕ) → copied k ≡ true)
    → list_names copied count room devices ≡ some (take room (active_names devices))
unfolding list_names active_names
list_names-take copied count zero devices all = refl
list_names-take copied count (suc room) [] all = refl
list_names-take copied count (suc room) (d ∷ devices) all = ground (
  arith,
  all count,
  list_names-take copied (suc count) room devices all,
  list_names-take copied count (suc room) devices all,
)

found-has_name :
    (name : Name) (devices : List MdDev)
    → is_found (find_md_by_name name devices) ≡ has_name name (active_names devices)
unfolding find_md_by_name active_names has_name
found-has_name name [] = refl
found-has_name name (d ∷ devices) = ground (arith, found-has_name name devices)

-- Where there is memory for the copies, the list of arrays has the names of the active ones in the order
-- of the table, as many as the caller has room for; and a name is one of those of the active arrays
-- exactly if the array of the name can be run.
pub md_list_lem :
    (copied : ℕ → Bool) (max_names : ℕ) (name : Name) (s : Md)
    → ((k : ℕ) → copied k ≡ true)
    → 1 ≤ max_names
    → (md_list copied true max_names s ≡ listed (take max_names (active_names s.devices)))
      × (is_ok (md_run name s) ≡ has_name name (active_names s.devices))
unfolding md_list md_run
md_list_lem copied max_names name s all room = (
  ground (arith, list_names-take copied 0 max_names s.devices all),
  ground (arith, found-has_name name s.devices),
)

-- No array that is active has the device as a disk or a spare.
abbrev pub Unrelated : Name → List MdDev → Type 0
Unrelated bdev [] = Unit {0}
Unrelated bdev (d ∷ devices) =
    (d.active ≡ true → examine_device 0 bdev d ≡ none) × Unrelated bdev devices

examine_device-none :
    (room : ℕ) (bdev : Name) (d : MdDev)
    → examine_device 0 bdev d ≡ none
    → examine_device room bdev d ≡ none
unfolding examine_device
examine_device-none room bdev d h = ground (arith, h)

examine_all-set :
    (room : ℕ) (bdev : Name) (devices : List MdDev) (i : ℕ) (new : MdDev) (info : MdInfo)
    → Unrelated bdev devices
    → i < length devices
    → new.active ≡ true
    → examine_device room bdev new ≡ some info
    → examine_all room bdev (set devices i new) ≡ info
unfolding examine_all
examine_all-set room bdev [] i new info apart small up told = elim small [ ]
examine_all-set room bdev (d ∷ devices) zero new info apart small up told = ground (arith, up, told)
examine_all-set room bdev (d ∷ devices) (suc i) new info apart small up told =
    let later = examine_all-set room bdev devices i new info apart.1 (omega arith) up told in
    elim (Bool-cases d.active) [
      | inl act ↦
          let other = examine_device-none room bdev d (apart.0 act) in
          ground (arith, act, other, later)
      | inr idle ↦ ground (arith, idle, later)
    ]

-- On a valid table in which no active array has the device, as a disk or a spare: if the device is
-- added to the spares of an array with result 0, an examination of it, if SPDK says it is no array
-- itself, calls it a member that is a spare and has not failed, with the name of that array, cut to the room
-- for it, and its level.
pub examine-add_spare :
    (room : ℕ) (bdevs : Name → Bdev) (env : SpareEnv) (name disk : Name) (i : ℕ) (info : MdInfo)
    (s : Md)
    → IsValid s
    → Unrelated disk s.devices
    → bdevs disk ≡ plain
    → find_md_by_name name s.devices ≡ some i
    → (manage_on_thread env (add_spare (some disk)) name s).0 ≡ ok
    → examine_on_thread room bdevs disk info (manage_on_thread env (add_spare (some disk)) name s).1
      ≡ (
        ok,
        record {
          is_raid = false;
          is_raid_member = true;
          is_spare = true;
          is_failed = false;
          raid_name = take room name;
          level = some (get_or s.devices i zero_dev).level;
          member_index = 0;
        },
      )
unfolding manage_on_thread on_device run_command add_spare_to examine_on_thread examine_device
examine-add_spare room bdevs env name disk i info s v apart no_array at good =
    let d = get_or s.devices i zero_dev in
    let (small, here) = find-range name s.devices i at in
    let (up, named) = bears-parts name d here in
    let sound = found-Sound s name i v at in
    elim (Option-cases (find_disk disk d.disk_count d.disk_names)) [
      | inr (j, member) ↦ absurd (ground (arith, good, at, member))
      | inl no_disk ↦ elim (Option-cases (find_disk disk d.spare_disk_count d.spare_disks)) [
        | inr (j, spare) ↦ absurd (ground (arith, good, at, no_disk, spare))
        | inl no_spare ↦
            let found =
              find_disk-append disk d.spare_disk_count d.spare_disks sound.spares no_spare in
            let new : MdDev = record d {
              spare_disks = take d.spare_disk_count d.spare_disks ++ some disk ∷ [];
              spare_disk_count = d.spare_disk_count + 1;
            } in
            let told : examine_device room disk new ≡ some (spare_info room d) =
              ground (arith, no_disk, found) in
            let all =
              examine_all-set room disk s.devices i new (spare_info room d) apart small up told in
            ground (arith, good, at, no_disk, no_spare, no_array, all)
      ]
    ]

-- A linear array is accepted by the check of the level, but its creation always fails, and does so
-- without a call of SPDK or a change of the table.
md_create_linear-fails :
    (env : Env) (sync : Sync) (name : Option Name) (bdevs : Option (List Name)) (s : Md)
    → Completes sync
    → (is_ok (md_create_linear env sync name bdevs s).0 ≡ false)
      × ((md_create_linear env sync name bdevs s).1 ≡ s)
unfolding md_create_linear md_create create_on_thread create_named create_bdev create_call
    md_name_exists
md_create_linear-fails env sync none bdevs s done = (refl, refl)
md_create_linear-fails env sync (some name) none s done = (refl, refl)
md_create_linear-fails env sync (some name) (some bdevs) s done =
    let ctx = request name linear bdevs (some (record { chunk_size_kb = 0; layout = 0 })) in
    let sent = sync_call_lem sync (create_on_thread env ctx) s done in
    (ground (arith, sent), ground (arith, sent))

starts_with-shorter :
    (text : Name)
    → starts_with (product (b'1' ∷ b'0' ∷ [])) text ≡ true
    → starts_with (product (b'1' ∷ [])) text ≡ true
unfolding starts_with
starts_with-shorter [] h = absurd (cc h)
starts_with-shorter (a ∷ []) h = absurd (ground (arith, h))
starts_with-shorter (a ∷ b ∷ []) h = absurd (ground (arith, h))
starts_with-shorter (a ∷ b ∷ c ∷ []) h = absurd (ground (arith, h))
starts_with-shorter (a ∷ b ∷ c ∷ d ∷ []) h = absurd (ground (arith, h))
starts_with-shorter (a ∷ b ∷ c ∷ d ∷ e ∷ []) h = absurd (ground (arith, h))
starts_with-shorter (a ∷ b ∷ c ∷ d ∷ e ∷ f ∷ text) h = ground (arith, h)

contains-shorter :
    (text : Name)
    → contains (product (b'1' ∷ b'0' ∷ [])) text ≡ true
    → contains (product (b'1' ∷ [])) text ≡ true
unfolding contains
contains-shorter [] h = absurd (ground (arith, h, starts_with-shorter []))
contains-shorter (c ∷ text) h =
    elim (Bool-cases (starts_with (product (b'1' ∷ b'0' ∷ [])) (c ∷ text))) [
      | inl here ↦ let shorter = starts_with-shorter (c ∷ text) here in ground (arith, shorter)
      | inr there ↦
          let later = contains-shorter text (ground (arith, h, there)) in ground (arith, later)
    ]

-- The examination of an array never says that it is a RAID10, whatever its product is called.
pub level_of_product-ne-raid10 : (text : Name) → level_of_product text ≢ some raid10
unfolding level_of_product
level_of_product-ne-raid10 text h = elim (Bool-cases (contains (product (b'1' ∷ b'0' ∷ [])) text)) [
  | inl long ↦ let short = contains-shorter text long in ground (arith, h, short)
  | inr other ↦ ground (arith, h, other)
]
