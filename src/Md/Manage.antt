-- ===== src/Md/Manage.antt =====
-- src/libxbdev/md.c: the functions on an SPDK thread that change an array: its spares, its failed disks
-- and its rebuild. The progress of a rebuild is a float, with what the code does with it a parameter.
use nblock.Prelude.{
  ℕ, zero, suc, ◌+◌, ◌-◌, ◌==◌, ltb, if◌then◌else◌, Bool, true, false, not, ◌&&◌, ◌||◌, List, [],
  ◌∷◌, ◌++◌, Option, none, some, get_or, set, take,
}
use nblock.Prelude.Names.{Name}
use nblock.Prelude.Errno.{
  Errno, einval, enomem, enospc, enoent, enodev, eexist, ealready, Rc, ok, fail,
}
use nblock.Md.Device.{
  MdDev, zero_dev, Md, add_base, remove_base, find_md_by_name, find_disk, on_device,
}
use nblock.Md.Create.{Env, log}

-- The commands that `xbdev_md_manage_on_thread` knows, with their argument, where `none` is NULL, and
-- for a disk's number a negative one.
pub data Command : Type 0 where
  add_spare : Option Name → Command
  remove_spare : Option Name → Command
  fail_disk : Option ℕ → Command
  rebuild : Command
  other_command : ℕ → Command

-- Whether SPDK has the device, and whether `realloc` and `strdup` have memory.
pub record SpareEnv : Type 0 where
  pub exists : Name → Bool
  pub grown : Bool
  pub copied : Bool

abbrev pub is_found : Option ℕ → Bool
is_found none = false
is_found (some i) = true

-- Where `strdup` fails, the array has grown by an entry that is not counted.
unfoldable pub add_spare_to : SpareEnv → Name → MdDev → Rc × MdDev
add_spare_to env disk d =
    if not (env.exists disk)
    then (fail enodev, d)
    else if is_found (find_disk disk d.disk_count d.disk_names)
    then (fail eexist, d)
    else if is_found (find_disk disk d.spare_disk_count d.spare_disks)
    then (fail eexist, d)
    else if not env.grown
    then (fail enomem, d)
    else if not env.copied
    then (
      fail enomem,
      record d { spare_disks = take d.spare_disk_count d.spare_disks ++ none ∷ [] },
    )
    else (
      ok,
      record d {
        spare_disks = take d.spare_disk_count d.spare_disks ++ some disk ∷ [];
        spare_disk_count = d.spare_disk_count + 1;
      },
    )

-- The entries behind place `i` move one place forward.
unfoldable pub remove_at : ℕ → List (Option Name) → List (Option Name)
remove_at i [] = []
remove_at zero (disk ∷ disks) = disks
remove_at (suc i) (disk ∷ disks) = disk ∷ remove_at i disks

-- Whether the shrinking `realloc` succeeds makes no difference to the entries that are counted.
unfoldable pub remove_spare_from : Name → MdDev → Rc × MdDev
remove_spare_from disk d = elim (find_disk disk d.spare_disk_count d.spare_disks) [
  | none ↦ (fail enoent, d)
  | some i ↦ (
    ok,
    record d {
      spare_disks = remove_at i (take d.spare_disk_count d.spare_disks);
      spare_disk_count = d.spare_disk_count - 1;
    },
  )
]

abbrev pub set_failed : ℕ → MdDev → MdDev
set_failed i d = record d {
  disk_state = set d.disk_state i false;
  failed_disk_count = d.failed_disk_count + 1;
  degraded = true;
}

unfoldable pub fail_disk_of : ℕ → MdDev → Rc × MdDev
fail_disk_of i d =
    if not (ltb i d.disk_count)
    then (fail einval, d)
    else (if not (get_or d.disk_state i false) then (fail ealready, d) else (ok, set_failed i d))

unfoldable pub rebuild_of : MdDev → Rc × MdDev
rebuild_of d =
    if d.rebuild_active
    then (fail ealready, d)
    else if d.spare_disk_count == 0
    then (fail enospc, d)
    else (ok, record d { rebuild_active = true; rebuild_progress = 0; rebuild_speed_kb = 0 })

-- The switch on the command.
unfoldable pub run_command : SpareEnv → Command → MdDev → Rc × MdDev
run_command env (add_spare none) d = (fail einval, d)
run_command env (add_spare (some disk)) d = add_spare_to env disk d
run_command env (remove_spare none) d = (fail einval, d)
run_command env (remove_spare (some disk)) d = remove_spare_from disk d
run_command env (fail_disk none) d = (fail einval, d)
run_command env (fail_disk (some i)) d = fail_disk_of i d
run_command env rebuild d = rebuild_of d
run_command env (other_command c) d = (fail einval, d)

unfoldable pub manage_on_thread : SpareEnv → Command → Name → Md → Rc × Md
manage_on_thread env cmd name s = on_device name (run_command env cmd) s

-- What is written once SPDK has the new disk. The count of failed disks goes down also if the old
-- disk had not failed.
unfoldable pub replaced : Bool → Bool → Name → ℕ → MdDev → MdDev
replaced copied auto_rebuild new_disk i d =
    let failed = d.failed_disk_count - 1 in
    record d {
      disk_names = set d.disk_names i (if copied then some new_disk else none);
      disk_state = set d.disk_state i true;
      failed_disk_count = failed;
      degraded = if failed == 0 && not auto_rebuild then false else d.degraded;
      rebuild_active = if auto_rebuild then true else d.rebuild_active;
      rebuild_progress = if auto_rebuild then 0 else d.rebuild_progress;
    }

-- `env` has what SPDK returns for the removal and the addition at the place of the disk. Where the
-- addition fails, the record still has the old disk, which SPDK no longer has.
unfoldable pub replace_at : Env → Bool → Name → Name → ℕ → ℕ → MdDev → Md → Rc × Md
replace_at env auto_rebuild name new_disk slot i d s =
    let without = log (remove_base name i (env.removed i)) s in
    let with_new = log (add_base name new_disk i (env.added i)) without in
    elim (env.removed i) [
      | fail e ↦ (fail e, without)
      | ok ↦ elim (env.added i) [
        | fail e ↦ (fail e, with_new)
        | ok ↦ (
          ok,
          record with_new {
            devices = set s.devices slot (replaced (env.copied i) auto_rebuild new_disk i d);
          },
        )
      ]
    ]

unfoldable pub replace_disk_on_thread : Env → Bool → Name → Name → Name → Md → Rc × Md
replace_disk_on_thread env auto_rebuild old_disk new_disk name s =
    elim (find_md_by_name name s.devices) [
      | none ↦ (fail enoent, s)
      | some slot ↦
          let d = get_or s.devices slot zero_dev in
          elim (find_disk old_disk d.disk_count d.disk_names) [
            | none ↦ (fail enoent, s)
            | some i ↦
                if not (env.exists new_disk)
                then (fail enodev, s)
                else replace_at env auto_rebuild name new_disk slot i d s
          ]
    ]

-- `none` stops the rebuild, and `some` starts it with a limit of the speed.
unfoldable pub rebuild_control : Option ℕ → MdDev → Rc × MdDev
rebuild_control (some speed_limit_kb) d =
    if d.rebuild_active then (fail ealready, d) else if not d.degraded then (fail einval, d) else (
      ok,
      record d { rebuild_active = true; rebuild_progress = 0; rebuild_speed_kb = speed_limit_kb },
    )
rebuild_control none d =
    if not d.rebuild_active then (fail ealready, d) else (ok, record d { rebuild_active = false })

unfoldable pub rebuild_control_on_thread : Option ℕ → Name → Md → Rc × Md
rebuild_control_on_thread start name s = on_device name (rebuild_control start) s

abbrev pub set_working : ℕ → MdDev → MdDev
set_working i d =
    let failed = d.failed_disk_count - 1 in
    record d {
      disk_state = set d.disk_state i true;
      failed_disk_count = failed;
      degraded = if failed == 0 then false else d.degraded;
    }

unfoldable pub set_disk_state : Bool → Name → MdDev → Rc × MdDev
set_disk_state is_faulty disk d = elim (find_disk disk d.disk_count d.disk_names) [
  | none ↦ (fail enoent, d)
  | some i ↦
      let works = get_or d.disk_state i false in
      if is_faulty
      then (ok, if works then set_failed i d else d)
      else (ok, if works then d else set_working i d)
]

unfoldable pub set_disk_state_on_thread : Bool → Name → Name → Md → Rc × Md
set_disk_state_on_thread is_faulty disk name s = on_device name (set_disk_state is_faulty disk) s

-- Tests of a float against 0.0 and 1.0, and its product with 100.0.
pub record Floats : Type 0 where
  pub below_zero : ℕ → Bool
  pub above_one : ℕ → Bool
  pub from_one : ℕ → Bool
  pub percent : ℕ → ℕ

unfoldable pub progress_of : Floats → ℕ → MdDev → Rc × MdDev
progress_of float progress d =
    if not d.rebuild_active
    then (ok, d)
    else if not (float.from_one progress)
    then (ok, record d { rebuild_progress = progress })
    else (
      ok,
      record d {
        rebuild_progress = progress;
        rebuild_active = false;
        degraded = if d.failed_disk_count == 0 then false else d.degraded;
      },
    )

unfoldable pub update_rebuild_progress : Floats → Option Name → ℕ → Md → Rc × Md
update_rebuild_progress float none progress s = (fail einval, s)
update_rebuild_progress float (some name) progress s =
    if float.below_zero progress || float.above_one progress
    then (fail einval, s)
    else on_device name (progress_of float progress) s

-- The two results are the progress in percent and whether the rebuild is active.
unfoldable pub get_rebuild_progress : Floats → Option Name → Md → Rc × Option (ℕ × Bool)
get_rebuild_progress float none s = (fail einval, none)
get_rebuild_progress float (some name) s = elim (find_md_by_name name s.devices) [
  | none ↦ (fail enoent, none)
  | some i ↦
      let d = get_or s.devices i zero_dev in
      (ok, some (float.percent d.rebuild_progress, d.rebuild_active))
]

-- The names, or the error. `copied` is whether `strdup` has memory for the name at a place.
pub data Listed : Type 0 where
  listed : List Name → Listed
  refused : Errno → Listed

-- The loop over the records; `none` where a copy fails.
unfoldable pub list_names : (ℕ → Bool) → ℕ → ℕ → List MdDev → Option (List Name)
list_names copied count zero devices = some []
list_names copied count (suc room) [] = some []
list_names copied count (suc room) (d ∷ devices) =
    let rest = list_names copied (suc count) room devices in
    let skipped = list_names copied count (suc room) devices in
    if not d.active
    then skipped
    else (if not (copied count)
        then none
        else (elim rest [ none ↦ none | some names ↦ some (d.name ∷ names) ]))

-- `has_array` is whether the array of the caller is not NULL; a negative size is 0 here.
unfoldable pub md_list : (ℕ → Bool) → Bool → ℕ → Md → Listed
md_list copied has_array max_names s =
    if not has_array || max_names == 0
    then refused einval
    else (elim (list_names copied 0 max_names s.devices) [
      | none ↦ refused enomem
      | some names ↦ listed names
    ])
