-- ===== src/Md/Device.antt =====
-- src/libxbdev/md.c: the record of an array, the table of 16 records, and the start and end of the
-- module. A `float` is given by its bits, so 0.0 is 0. An array in memory that is NULL or was freed is
-- the empty list, and an entry of it that is NULL is `none`.
use nblock.Prelude.{
  ℕ, zero, suc, if◌then◌else◌, Bool, true, false, not, ◌&&◌, List, [], ◌∷◌, Option, none, some, map,
  get_or, set, replicate,
}
use nblock.Prelude.Names.{Name, same_name}
use nblock.Prelude.Errno.{enoent, Rc, ok, fail}

-- The values of XBDEV_MD_LEVEL_*, and all others.
pub data Level : Type 0 where
  linear raid0 raid1 raid4 raid5 raid6 raid10 : Level
  unknown : ℕ → Level

-- `base_bdev`, which no function uses, is left out, and so is the lock.
pub record MdDev : Type 0 where
  pub active : Bool
  pub name : Name
  pub level : Level
  pub disk_count : ℕ
  pub disk_names : List (Option Name)
  pub disk_state : List Bool
  pub chunk_size_kb : ℕ
  pub layout : ℕ
  pub uuid_str : Name
  pub rebuild_active : Bool
  pub rebuild_progress : ℕ
  pub rebuild_speed_kb : ℕ
  pub failed_disk_count : ℕ
  pub spare_disk_count : ℕ
  pub spare_disks : List (Option Name)
  pub degraded : Bool

-- What `memset` leaves; level 0 is the linear one.
abbrev pub zero_dev : MdDev
zero_dev = record {
  active = false;
  name = [];
  level = linear;
  disk_count = 0;
  disk_names = [];
  disk_state = [];
  chunk_size_kb = 0;
  layout = 0;
  uuid_str = [];
  rebuild_active = false;
  rebuild_progress = 0;
  rebuild_speed_kb = 0;
  failed_disk_count = 0;
  spare_disk_count = 0;
  spare_disks = [];
  degraded = false;
}

-- The calls of SPDK that change its arrays, with what they returned. The first name is that of the
-- array; a creation has its level, the strip size and the layout, where they are passed, and the number
-- of disks, and an addition or removal the place of the disk.
pub data SpdkCall : Type 0 where
  create_raid : Name → Level → ℕ → ℕ → ℕ → Rc → SpdkCall
  add_base : Name → Name → ℕ → Rc → SpdkCall
  remove_base : Name → ℕ → Rc → SpdkCall
  delete_raid : Name → Rc → SpdkCall

-- The static variables of the file, and the calls of SPDK so far, the first one first.
pub record Md : Type 0 where
  pub devices : List MdDev
  pub initialized : Bool
  pub calls : List SpdkCall

-- XBDEV_MD_MAX_RAIDS
abbrev pub max_raids : ℕ
max_raids = 16

unfoldable pub module_init : Md → Rc × Md
module_init s =
    if s.initialized
    then (ok, s)
    else (ok, record s { devices = replicate max_raids zero_dev; initialized = true })

-- The arrays are freed, but the records stay as they are, active ones too, with pointers to freed
-- memory.
abbrev pub release : MdDev → MdDev
release d = record d { disk_names = []; disk_state = []; spare_disks = [] }

unfoldable pub module_fini : Md → Md
module_fini s =
    if not s.initialized
    then s
    else record s { devices = map release s.devices; initialized = false }

-- The index that a search found, one place further.
abbrev pub next : Option ℕ → Option ℕ
next none = none
next (some i) = some (suc i)

unfoldable pub find_free_md_slot : List MdDev → Option ℕ
find_free_md_slot [] = none
find_free_md_slot (d ∷ devices) =
    let rest = next (find_free_md_slot devices) in if not d.active then some 0 else rest

-- `d->active && strcmp(d->name, name) == 0`
abbrev pub bears : Name → MdDev → Bool
bears name d = d.active && same_name d.name name

unfoldable pub find_md_by_name : Name → List MdDev → Option ℕ
find_md_by_name name [] = none
find_md_by_name name (d ∷ devices) =
    let rest = next (find_md_by_name name devices) in if bears name d then some 0 else rest

unfoldable pub md_name_exists : Name → List MdDev → Bool
unfolding find_md_by_name
md_name_exists name devices = elim (find_md_by_name name devices) [ none ↦ false | some i ↦ true ]

-- What many functions do: search the array, return -ENOENT if there is none, and work on its record.
unfoldable pub on_device : Name → (MdDev → Rc × MdDev) → Md → Rc × Md
on_device name body s = elim (find_md_by_name name s.devices) [
  | none ↦ (fail enoent, s)
  | some i ↦
      let (rc, d) = body (get_or s.devices i zero_dev) in
      (rc, record s { devices = set s.devices i d })
]

-- `disk_names[i] && strcmp(disk_names[i], name) == 0`
abbrev pub holds : Name → Option Name → Bool
holds name none = false
holds name (some disk) = same_name disk name

-- The loop over the disks of an array, or its spares, that stops at the first with the name.
unfoldable pub find_disk : Name → ℕ → List (Option Name) → Option ℕ
find_disk name zero disks = none
find_disk name (suc count) [] = none
find_disk name (suc count) (disk ∷ disks) =
    let rest = next (find_disk name count disks) in if holds name disk then some 0 else rest

unfoldable pub md_run : Name → Md → Rc
md_run name s = elim (find_md_by_name name s.devices) [ none ↦ fail enoent | some i ↦ ok ]
