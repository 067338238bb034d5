-- ===== src/Md/Report.antt =====
-- src/libxbdev/md.c: the functions on an SPDK thread that tell what a device is to the arrays, and what
-- an array is made of. The caller's structure is given and returned, for its members that are not
-- written stay as they are.
use nblock.Prelude.{
  ℕ, suc, ◌+◌, ◌*◌, ◌/◌, ◌%◌, ◌^◌, ◌==◌, if◌then◌else◌, Bool, true, false, not, ◌||◌, List, [], ◌∷◌,
  Option, none, some, get_or, take,
}
use nblock.Prelude.Names.{Name}
use nblock.Prelude.Errno.{enoent, Rc, ok, fail}
use nblock.Md.Device.{
  Level, raid0, raid1, raid5, raid6, raid10, linear, raid4, unknown, MdDev, zero_dev, Md,
  find_md_by_name, find_disk,
}

-- `xbdev_md_info_t`, which no header defines, by the members that are written; the level is `none` for
-- -1. `room` is the number of bytes that `raid_name` has, but one.
pub record MdInfo : Type 0 where
  pub is_raid : Bool
  pub is_raid_member : Bool
  pub is_spare : Bool
  pub is_failed : Bool
  pub raid_name : Name
  pub level : Option Level
  pub member_index : ℕ

-- What `memset` leaves: level 0 is the linear one.
abbrev pub zero_info : MdInfo
zero_info = record {
  is_raid = false;
  is_raid_member = false;
  is_spare = false;
  is_failed = false;
  raid_name = [];
  level = some linear;
  member_index = 0;
}

-- What SPDK says of a device: `some` with the name of the product if it is an array.
pub data Bdev : Type 0 where
  absent plain : Bdev
  raid : Name → Bdev

-- Whether a text starts with another, and `strstr(text, part) != NULL`.
unfoldable pub starts_with : Name → Name → Bool
starts_with [] text = true
starts_with (c ∷ part) [] = false
starts_with (c ∷ part) (b ∷ text) =
    let rest = starts_with part text in if c == b then rest else false

unfoldable pub contains : Name → Name → Bool
unfolding starts_with
contains part [] = starts_with part []
contains part (c ∷ text) =
    let rest = contains part text in if starts_with part (c ∷ text) then true else rest

-- "RAID", and the digits behind it.
abbrev pub product : Name → Name
product digits = b'R' ∷ b'A' ∷ b'I' ∷ b'D' ∷ digits

unfoldable pub level_of_product : Name → Option Level
level_of_product text =
    if contains (product (b'0' ∷ [])) text
    then some raid0
    else if contains (product (b'1' ∷ [])) text
    then some raid1
    else if contains (product (b'5' ∷ [])) text
    then some raid5
    else if contains (product (b'1' ∷ b'0' ∷ [])) text
    then some raid10
    else none

-- What is written where the device is a disk, or a spare, of an array.
abbrev pub member_info : ℕ → MdDev → ℕ → MdInfo
member_info room d i = record zero_info {
  is_raid_member = true;
  raid_name = take room d.name;
  level = some d.level;
  member_index = i;
  is_failed = not (get_or d.disk_state i false);
}

abbrev pub spare_info : ℕ → MdDev → MdInfo
spare_info room d = record zero_info {
  is_raid_member = true;
  is_spare = true;
  raid_name = take room d.name;
  level = some d.level;
}

-- The two loops over the disks and the spares of an array; `none` where it has neither.
unfoldable pub examine_device : ℕ → Name → MdDev → Option MdInfo
examine_device room bdev d = elim (find_disk bdev d.disk_count d.disk_names) [
  | some i ↦ some (member_info room d i)
  | none ↦ elim (find_disk bdev d.spare_disk_count d.spare_disks) [
    | some i ↦ some (spare_info room d)
    | none ↦ none
  ]
]

-- The loop over the arrays, up to the first that has the device.
unfoldable pub examine_all : ℕ → Name → List MdDev → MdInfo
examine_all room bdev [] = zero_info
examine_all room bdev (d ∷ devices) =
    let rest = examine_all room bdev devices in
    if not d.active
    then rest
    else elim (examine_device room bdev d) [ none ↦ rest | some info ↦ info ]

unfoldable pub examine_on_thread : ℕ → (Name → Bdev) → Name → MdInfo → Md → Rc × MdInfo
examine_on_thread room bdevs bdev info s = elim (bdevs bdev) [
  | absent ↦ (fail enoent, info)
  | raid text ↦ (
    ok,
    record zero_info { is_raid = true; raid_name = take room bdev; level = level_of_product text },
  )
  | plain ↦ (ok, examine_all room bdev s.devices)
]

-- XBDEV_MD_STATE_*, those that are used.
pub data State : Type 0 where
  active degraded resyncing recovering : State

pub data Role : Type 0 where
  parity data_disk : Role

pub record DiskInfo : Type 0 where
  pub number : ℕ
  pub name : Name
  pub works : Bool
  pub size : ℕ
  pub role : Role

-- `xbdev_md_detail_t`. `resync_status` is whether it is set, and `resync_progress` the bits of a float.
pub record MdDetail : Type 0 where
  pub level : Level
  pub raid_disks : ℕ
  pub active_disks : ℕ
  pub working_disks : ℕ
  pub failed_disks : ℕ
  pub spare_disks : ℕ
  pub size : ℕ
  pub chunk_size : ℕ
  pub state : State
  pub resync_status : Bool
  pub resync_progress : ℕ
  pub resync_speed : ℕ
  pub uuid : Name
  pub degraded_mode : Bool
  pub disks : List DiskInfo

-- The number of working disks among those in the list, and that of the others.
unfoldable pub count_working : List Bool → ℕ
count_working [] = 0
count_working (works ∷ states) = (if works then 1 else 0) + count_working states

unfoldable pub count_failed : List Bool → ℕ
count_failed [] = 0
count_failed (works ∷ states) = (if works then 0 else 1) + count_failed states

-- The number of blocks and the size of one, for a device that SPDK has.
abbrev pub Sizes : Type 0
Sizes = Name → Option (ℕ × ℕ)

abbrev pub size_kb : ℕ → ℕ → ℕ
size_kb blocks block_size = blocks * block_size % 2 ^ 64 / 1024

unfoldable pub state_of : MdDev → State
state_of d =
    if d.rebuild_active
    then (if d.degraded then resyncing else recovering)
    else (if d.degraded then degraded else active)

unfoldable pub role_of : Level → ℕ → ℕ → Role
role_of raid5 count i = if i + 1 == count then parity else data_disk
role_of raid6 count i = if i + 1 == count || i + 2 == count then parity else data_disk
role_of linear count i = data_disk
role_of raid0 count i = data_disk
role_of raid1 count i = data_disk
role_of raid4 count i = data_disk
role_of raid10 count i = data_disk
role_of (unknown l) count i = data_disk

-- A name that is NULL, which the code copies from all the same, leaves the old one here.
abbrev pub or_old : Option Name → Name → Name
or_old none old = old
or_old (some name) old = take 63 name

abbrev pub size_of : Sizes → Option Name → ℕ → ℕ
size_of sizes none old = old
size_of sizes (some name) old = elim (sizes name) [
  | none ↦ old
  | some (blocks, block_size) ↦ size_kb blocks block_size
]

-- The loop over the disks, from place `i` on, which ends where the disks or the caller's 32 places do.
unfoldable pub fill_disks :
    Sizes → Level → ℕ → ℕ → List (Option Name) → List Bool → List DiskInfo → List DiskInfo
fill_disks sizes level count i [] states old = old
fill_disks sizes level count i (name ∷ names) states [] = []
fill_disks sizes level count i (name ∷ names) [] (o ∷ old) = o ∷ old
fill_disks sizes level count i (name ∷ names) (works ∷ states) (o ∷ old) =
    record {
      number = i;
      name = or_old name o.name;
      works = works;
      size = size_of sizes name o.size;
      role = role_of level count i;
    }
    ∷ fill_disks sizes level count (suc i) names states old

-- `percent` is the product of a float with 100.0.
unfoldable pub detail_of : Sizes → (ℕ → ℕ) → ℕ × ℕ → MdDev → MdDetail → MdDetail
detail_of sizes percent (blocks, block_size) d old =
    let states = take d.disk_count d.disk_state in
    record {
      level = d.level;
      raid_disks = d.disk_count;
      active_disks = count_working states;
      working_disks = count_working states;
      failed_disks = count_failed states;
      spare_disks = d.spare_disk_count;
      size = size_kb blocks block_size;
      chunk_size = d.chunk_size_kb;
      state = state_of d;
      resync_status = if d.rebuild_active then true else old.resync_status;
      resync_progress =
          if d.rebuild_active then percent d.rebuild_progress else old.resync_progress;
      resync_speed = if d.rebuild_active then d.rebuild_speed_kb else old.resync_speed;
      uuid = take 36 d.uuid_str;
      degraded_mode = d.degraded;
      disks =
          fill_disks sizes d.level d.disk_count 0 (take d.disk_count d.disk_names) d.disk_state
            old.disks;
    }

unfoldable pub detail_on_thread : Sizes → (ℕ → ℕ) → Name → MdDetail → Md → Rc × MdDetail
detail_on_thread sizes percent name old s = elim (sizes name) [
  | none ↦ (fail enoent, old)
  | some measured ↦ elim (find_md_by_name name s.devices) [
    | none ↦ (fail enoent, old)
    | some i ↦ (ok, detail_of sizes percent measured (get_or s.devices i zero_dev) old)
  ]
]
