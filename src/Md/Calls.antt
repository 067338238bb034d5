-- ===== src/Md/Calls.antt =====
-- src/libxbdev/md.c: the functions for ordinary threads. Each checks its arguments, and has the rest
-- done on an SPDK thread by a synchronous request.
use nblock.Prelude.{
  ℕ, ltb, if◌then◌else◌, Bool, true, false, not, ◌||◌, List, Option, none, some, length,
}
use nblock.Prelude.Names.{Name}
use nblock.Prelude.Errno.{einval, eexist, Rc, fail}
use nblock.Md.Device.{
  Level, linear, raid0, raid1, raid4, raid5, raid6, raid10, unknown, Md, md_name_exists,
}
use nblock.Md.Create.{
  Env, CreateCtx, is_level, create_on_thread, assemble_on_thread, stop_on_thread,
}
use nblock.Md.Manage.{
  SpareEnv, Command, manage_on_thread, replace_disk_on_thread, rebuild_control_on_thread,
  set_disk_state_on_thread,
}
use nblock.Md.Report.{Bdev, MdInfo, examine_on_thread, Sizes, MdDetail, detail_on_thread}
use nblock.Sync.{Sync, sync_call}

-- The checks that creation and assembly share; `supported` is the test of the level.
abbrev pub checked : (Level → Bool) → (CreateCtx → Md → Rc × Md) → CreateCtx → Md → Rc × Md
checked supported handler ctx s = elim ctx.name [
  | none ↦ (fail einval, s)
  | some name ↦ elim ctx.base_bdevs [
    | none ↦ (fail einval, s)
    | some bdevs ↦
        if ltb (length bdevs) 2 || not (supported ctx.level)
        then (fail einval, s)
        else (if md_name_exists name s.devices then (fail eexist, s) else handler ctx s)
  ]
]

unfoldable pub md_create : Env → Sync → CreateCtx → Md → Rc × Md
md_create env sync = checked is_level (λ ctx. sync_call sync (create_on_thread env ctx))

-- The configurations of the functions for one level.
abbrev pub create_with : Env → Sync → Level → ℕ → Option Name → Option (List Name) → Md → Rc × Md
create_with env sync level chunk_size_kb name bdevs = md_create env sync (record {
  name = name;
  level = level;
  base_bdevs = bdevs;
  config = some (record { chunk_size_kb = chunk_size_kb; layout = 0 });
})

pub md_create_raid0 : Env → Sync → Option Name → Option (List Name) → ℕ → Md → Rc × Md
md_create_raid0 env sync name bdevs chunk_size_kb =
    create_with env sync raid0 chunk_size_kb name bdevs

pub md_create_raid1 : Env → Sync → Option Name → Option (List Name) → Md → Rc × Md
md_create_raid1 env sync name bdevs = create_with env sync raid1 0 name bdevs

pub md_create_raid5 : Env → Sync → Option Name → Option (List Name) → ℕ → Md → Rc × Md
md_create_raid5 env sync name bdevs chunk_size_kb =
    create_with env sync raid5 chunk_size_kb name bdevs

pub md_create_raid10 : Env → Sync → Option Name → Option (List Name) → ℕ → Md → Rc × Md
md_create_raid10 env sync name bdevs chunk_size_kb =
    create_with env sync raid10 chunk_size_kb name bdevs

unfoldable pub md_create_linear : Env → Sync → Option Name → Option (List Name) → Md → Rc × Md
md_create_linear env sync name bdevs = create_with env sync linear 0 name bdevs

-- The levels that can be assembled.
abbrev pub is_assembled : Level → Bool
is_assembled linear = false
is_assembled raid0 = true
is_assembled raid1 = true
is_assembled raid4 = false
is_assembled raid5 = true
is_assembled raid6 = false
is_assembled raid10 = true
is_assembled (unknown l) = false

unfoldable pub md_assemble : Env → Sync → CreateCtx → Md → Rc × Md
md_assemble env sync = checked is_assembled (λ ctx. sync_call sync (assemble_on_thread env ctx))

unfoldable pub md_stop : Env → Sync → Option Name → Md → Rc × Md
md_stop env sync none s = (fail einval, s)
md_stop env sync (some name) s = sync_call sync (stop_on_thread env name) s

unfoldable pub md_manage : SpareEnv → Sync → Command → Option Name → Md → Rc × Md
md_manage env sync cmd none s = (fail einval, s)
md_manage env sync cmd (some name) s = sync_call sync (manage_on_thread env cmd name) s

unfoldable pub md_replace_disk :
    Env → Sync → Bool → Option Name → Option Name → Option Name → Md → Rc × Md
md_replace_disk env sync auto_rebuild none old_disk new_disk s = (fail einval, s)
md_replace_disk env sync auto_rebuild (some name) none new_disk s = (fail einval, s)
md_replace_disk env sync auto_rebuild (some name) (some old_disk) none s = (fail einval, s)
md_replace_disk env sync auto_rebuild (some name) (some old_disk) (some new_disk) s =
    sync_call sync (replace_disk_on_thread env auto_rebuild old_disk new_disk name) s

abbrev pub control : Sync → Option ℕ → Option Name → Md → Rc × Md
control sync start none s = (fail einval, s)
control sync start (some name) s = sync_call sync (rebuild_control_on_thread start name) s

unfoldable pub md_start_rebuild : Sync → Option Name → ℕ → Md → Rc × Md
md_start_rebuild sync name speed_limit_kb = control sync (some speed_limit_kb) name

unfoldable pub md_stop_rebuild : Sync → Option Name → Md → Rc × Md
md_stop_rebuild sync name = control sync none name

abbrev pub set_state : Sync → Bool → Option Name → Option Name → Md → Rc × Md
set_state sync is_faulty none disk s = (fail einval, s)
set_state sync is_faulty (some name) none s = (fail einval, s)
set_state sync is_faulty (some name) (some disk) s =
    sync_call sync (set_disk_state_on_thread is_faulty disk name) s

unfoldable pub md_set_faulty : Sync → Option Name → Option Name → Md → Rc × Md
md_set_faulty sync = set_state sync true

unfoldable pub md_set_normal : Sync → Option Name → Option Name → Md → Rc × Md
md_set_normal sync = set_state sync false

-- The last argument is the caller's structure, `none` for NULL, and so is the result's.
unfoldable pub md_examine :
    ℕ → (Name → Bdev) → Sync → Option Name → Md → Option MdInfo → Rc × Option MdInfo
md_examine room bdevs sync none s info = (fail einval, info)
md_examine room bdevs sync (some bdev) s none = (fail einval, none)
md_examine room bdevs sync (some bdev) s (some info) =
    let (rc, told) = sync_call sync (λ old. examine_on_thread room bdevs bdev old s) info in
    (rc, some told)

unfoldable pub md_detail :
    Sizes → (ℕ → ℕ) → Sync → Option Name → Md → Option MdDetail → Rc × Option MdDetail
md_detail sizes percent sync none s detail = (fail einval, detail)
md_detail sizes percent sync (some name) s none = (fail einval, none)
md_detail sizes percent sync (some name) s (some detail) =
    let (rc, told) = sync_call sync (λ old. detail_on_thread sizes percent name old s) detail in
    (rc, some told)
