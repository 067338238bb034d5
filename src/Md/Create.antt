-- ===== src/Md/Create.antt =====
-- src/libxbdev/md.c: the functions on an SPDK thread that create, assemble and stop an array. What
-- SPDK, the allocator and libuuid answer is a parameter.
use nblock.Prelude.{
  ℕ, zero, suc, ◌*◌, ◌%◌, ◌^◌, ltb, ◌==◌, if◌then◌else◌, Bool, true, false, not, ◌||◌, List, [],
  ◌∷◌, ◌++◌, Option, none, some, get_or, set, take, replicate, length,
}
use nblock.Prelude.Names.{Name}
use nblock.Prelude.Errno.{einval, enomem, enospc, enoent, enodev, enotsup, Rc, ok, fail}
use nblock.Md.Device.{
  Level, linear, raid0, raid1, raid4, raid5, raid6, raid10, unknown, MdDev, zero_dev, Md, SpdkCall,
  create_raid, add_base, remove_base, delete_raid, find_free_md_slot, find_md_by_name,
}

-- `exists` is `spdk_bdev_get_by_name` before the creation and `visible` after it; `added` and
-- `removed` are by place in the array, and so is `copied`, whether `strdup` had memory; the other
-- allocations are the table of devices, the names and the states.
pub record Env : Type 0 where
  pub exists : Name → Bool
  pub created : Rc
  pub visible : Bool
  pub added : ℕ → Rc
  pub removed : ℕ → Rc
  pub deleted : Rc
  pub uuid : Name
  pub table_allocated : Bool
  pub names_allocated : Bool
  pub states_allocated : Bool
  pub copied : ℕ → Bool

-- `xbdev_md_config_t`; the other members are not read.
pub record Config : Type 0 where
  pub chunk_size_kb : ℕ
  pub layout : ℕ

-- The request's context. `num_base_bdevs` is the length of `base_bdevs`.
pub record CreateCtx : Type 0 where
  pub name : Option Name
  pub level : Level
  pub base_bdevs : Option (List Name)
  pub config : Option Config

unfoldable pub log : SpdkCall → Md → Md
log call s = record s { calls = s.calls ++ call ∷ [] }

-- The loop that looks for each device.
unfoldable pub all_exist : (Name → Bool) → List Name → Bool
all_exist exists [] = true
all_exist exists (bdev ∷ bdevs) = if exists bdev then all_exist exists bdevs else false

-- `for (j = i; j < i + n; j++)` the disk is removed.
unfoldable pub remove_bases : Env → Name → ℕ → ℕ → List SpdkCall
remove_bases env name i zero = []
remove_bases env name i (suc n) =
    remove_base name i (env.removed i) ∷ remove_bases env name (suc i) n

-- The first `n` disks are removed, and the array is deleted.
unfoldable pub undo : Env → Name → ℕ → Md → Md
undo env name n s = record s {
  calls = s.calls ++ (remove_bases env name 0 n ++ delete_raid name env.deleted ∷ []);
}

-- The loop that adds the disks, from place `i` on.
unfoldable pub add_bases : Env → Name → ℕ → List Name → Md → Rc × Md
add_bases env name i [] s = (ok, s)
add_bases env name i (bdev ∷ bdevs) s =
    let added = log (add_base name bdev i (env.added i)) s in
    let rest = add_bases env name (suc i) bdevs added in
    elim (env.added i) [ ok ↦ rest | fail e ↦ (fail e, undo env name i added) ]

-- The loop that copies the names of the disks.
unfoldable pub copy_names : (ℕ → Bool) → ℕ → List Name → List (Option Name)
copy_names copied i [] = []
copy_names copied i (bdev ∷ bdevs) =
    (if copied i then some bdev else none) ∷ copy_names copied (suc i) bdevs

-- The record of a new array; the speed of its rebuild stays as it was.
unfoldable pub fill_record : Env → Name → Level → ℕ → ℕ → List Name → MdDev → MdDev
fill_record env name level strip layout bdevs d = record d {
  active = true;
  name = take 63 name;
  level = level;
  disk_count = length bdevs;
  disk_names = copy_names env.copied 0 bdevs;
  disk_state = replicate (length bdevs) true;
  chunk_size_kb = strip;
  layout = layout;
  uuid_str = take 36 env.uuid;
  rebuild_active = false;
  rebuild_progress = 0;
  failed_disk_count = 0;
  spare_disk_count = 0;
  spare_disks = [];
  degraded = false;
}

-- Where an allocation fails, the record has the new values but is not active and has no arrays; the
-- pointer to the spares is not set.
abbrev pub unfilled : MdDev → MdDev → MdDev
unfilled old d = record d {
  active = false;
  disk_names = [];
  disk_state = [];
  spare_disks = old.spare_disks;
}

-- From `find_free_md_slot` on.
unfoldable pub take_slot : Env → Name → Level → ℕ → ℕ → List Name → Md → Rc × Md
take_slot env name level strip layout bdevs s = elim (find_free_md_slot s.devices) [
  | none ↦ (fail enospc, undo env name (length bdevs) s)
  | some i ↦
      let old = get_or s.devices i zero_dev in
      let new = fill_record env name level strip layout bdevs old in
      if not env.names_allocated || not env.states_allocated
      then (
        fail enomem,
        record (undo env name (length bdevs) s) { devices = set s.devices i (unfilled old new) },
      )
      else (ok, record s { devices = set s.devices i new })
]

-- The disks are added, and the array gets a record.
unfoldable pub add_and_record : Env → Name → Level → ℕ → ℕ → List Name → Md → Rc × Md
add_and_record env name level strip layout bdevs s =
    let (rc, added) = add_bases env name 0 bdevs s in
    elim rc [ ok ↦ take_slot env name level strip layout bdevs added | fail e ↦ (fail e, added) ]

-- The call that creates an array of the level, if there is one.
unfoldable pub create_call : Env → Name → Level → ℕ → ℕ → ℕ → Option SpdkCall
create_call env name raid0 strip layout n =
    some (create_raid name raid0 (strip * 1024 % 2 ^ 64) 0 n env.created)
create_call env name raid1 strip layout n = some (create_raid name raid1 0 0 n env.created)
create_call env name raid5 strip layout n =
    some (create_raid name raid5 (strip * 1024 % 2 ^ 64) layout n env.created)
create_call env name raid10 strip layout n =
    some (create_raid name raid10 (strip * 1024 % 2 ^ 64) 0 n env.created)
create_call env name linear strip layout n = none
create_call env name raid4 strip layout n = none
create_call env name raid6 strip layout n = none
create_call env name (unknown l) strip layout n = none

-- The switch of `xbdev_md_create_on_thread` and the test of `xbdev_md_create`.
abbrev pub is_level : Level → Bool
is_level linear = true
is_level raid0 = true
is_level raid1 = true
is_level raid4 = true
is_level raid5 = true
is_level raid6 = true
is_level raid10 = true
is_level (unknown l) = false

-- The strip size and the layout that a configuration asks for.
unfoldable pub strip_size_kb : Option Config → ℕ
strip_size_kb none = 64
strip_size_kb (some config) = if config.chunk_size_kb == 0 then 64 else config.chunk_size_kb

unfoldable pub layout_of : Option Config → ℕ
layout_of none = 0
layout_of (some config) = config.layout

-- From the creation of the array on; `seen` is whether it is found afterwards.
unfoldable pub create_bdev : Env → Bool → Name → Level → ℕ → ℕ → List Name → Md → Rc × Md
create_bdev env seen name level strip layout bdevs s =
    elim (create_call env name level strip layout (length bdevs)) [
      | none ↦ (fail enotsup, s)
      | some call ↦ elim env.created [
        | fail e ↦ (fail e, log call s)
        | ok ↦
            if not seen
            then (fail enodev, log call s)
            else add_and_record env name level strip layout bdevs (log call s)
      ]
    ]

unfoldable pub create_named : Env → Level → Option Config → Name → List Name → Md → Rc × Md
create_named env level config name bdevs s =
    if ltb (length bdevs) 2 || not (is_level level)
    then (fail einval, s)
    else if not env.table_allocated
    then (fail enomem, s)
    else if not (all_exist env.exists bdevs)
    then (fail enodev, s)
    else create_bdev env env.visible name level (strip_size_kb config) (layout_of config) bdevs s

unfoldable pub create_on_thread : Env → CreateCtx → Md → Rc × Md
create_on_thread env ctx s = elim ctx.name [
  | none ↦ (fail einval, s)
  | some name ↦ elim ctx.base_bdevs [
    | none ↦ (fail einval, s)
    | some bdevs ↦ create_named env ctx.level ctx.config name bdevs s
  ]
]

-- The strip size is 64 KB and the layout 0, and it is not checked that the array is there.
unfoldable pub assemble_named : Env → Level → Name → List Name → Md → Rc × Md
assemble_named env level name bdevs s =
    if ltb (length bdevs) 2
    then (fail einval, s)
    else if not (all_exist env.exists bdevs)
    then (fail enodev, s)
    else create_bdev env true name level 64 0 bdevs s

unfoldable pub assemble_on_thread : Env → CreateCtx → Md → Rc × Md
assemble_on_thread env ctx s = elim ctx.name [
  | none ↦ (fail einval, s)
  | some name ↦ elim ctx.base_bdevs [
    | none ↦ (fail einval, s)
    | some bdevs ↦ assemble_named env ctx.level name bdevs s
  ]
]

-- The record is no longer active and has no arrays.
abbrev pub stopped : MdDev → MdDev
stopped d = record d { active = false; disk_names = []; disk_state = []; spare_disks = [] }

unfoldable pub stop_on_thread : Env → Name → Md → Rc × Md
stop_on_thread env name s = elim (find_md_by_name name s.devices) [
  | none ↦ (fail enoent, s)
  | some i ↦
      let deleted = log (delete_raid name env.deleted) s in
      elim env.deleted [
        | fail e ↦ (fail e, deleted)
        | ok ↦ (
          ok,
          record deleted { devices = set s.devices i (stopped (get_or s.devices i zero_dev)) },
        )
      ]
]
