-- ===== src/Raid/Status.antt =====
-- The check of an array's state in src/libxbdev/raid.c: changes of state raise events, and disks that
-- failed are replaced by hot spares.
use nblock.Prelude.{
  ℕ, suc, ◌==◌, ltb, if◌then◌else◌, Bool, true, false, not, ◌&&◌, ◌||◌, List, [], ◌∷◌, ◌++◌, Option,
  none, some, take, get_or, set,
}
use nblock.Prelude.Names.{Name, same_name, is_blank, clip}
use nblock.Prelude.Errno.{Rc, ok, fail}
use nblock.Raid.Spares.{SpareEntry, or_empty, find_hot_spare}
use nblock.Raid.Events.{
  EventType, disk_failure, hot_spare_activated, raid_degraded, raid_resyncing, raid_recovered,
  raid_failed, replace_disk, Slot, Raid, Disk, Detail, Env, notify,
}

-- `XBDEV_MD_STATE_ACTIVE` and those after it, and `XBDEV_MD_DISK_FAULTY`.
abbrev pub state_active : ℕ
state_active = 1

abbrev pub state_degraded : ℕ
state_degraded = 2

abbrev pub state_resyncing : ℕ
state_resyncing = 3

abbrev pub state_failed : ℕ
state_failed = 6

abbrev pub disk_faulty : ℕ
disk_faulty = 1

abbrev pub is_ok : Rc → Bool
is_ok ok = true
is_ok (fail e) = false

-- The rest of `_xbdev_raid_handle_disk_failure`, after the search for a spare.
unfoldable pub replace_or_degrade :
    Env → Name → Name → Rc × Option Name × List SpareEntry → Raid → Raid
replace_or_degrade env md_name disk_name (rc, spare, left) s =
    let searched : Raid = record s { spares = left } in
    if is_ok rc && not (is_blank (or_empty spare))
    then notify env hot_spare_activated (some md_name) spare (record searched {
      log = searched.log ++ replace_disk md_name disk_name (or_empty spare) ∷ [];
    })
    else notify env raid_degraded (some md_name) none searched

unfoldable pub handle_disk_failure : Env → Name → Name → Raid → Raid
handle_disk_failure env md_name disk_name s =
    let told = notify env disk_failure (some md_name) (some disk_name) s in
    replace_or_degrade env md_name disk_name (find_hot_spare (some md_name) true 256 told.spares)
      told

-- The loop over the first `raid_disks` of the 32 disks in the detail.
unfoldable pub handle_faulty : Env → Name → List Disk → Raid → Raid
handle_faulty env md_name [] s = s
handle_faulty env md_name (disk ∷ disks) s =
    let handled = handle_disk_failure env md_name disk.name s in
    handle_faulty env md_name disks (if disk.state == disk_faulty then handled else s)

-- The event of a change of state.
unfoldable pub state_event : ℕ → ℕ → Option EventType
state_event last now =
    if now == state_degraded && not (last == state_degraded)
    then some raid_degraded
    else (if now == state_resyncing && not (last == state_resyncing)
        then some raid_resyncing
        else (if now == state_active && last == state_resyncing
            then some raid_recovered
            else (if now == state_failed then some raid_failed else none)))

unfoldable pub notify_state : Env → Name → ℕ → ℕ → Raid → Raid
notify_state env md_name last now s = if last == now then s else (elim (state_event last now) [
  | none ↦ s
  | some type ↦ notify env type (some md_name) none s
])

-- The index of the first record that is empty or has the name.
unfoldable pub find_slot : Name → List Slot → Option ℕ
find_slot md_name [] = none
find_slot md_name (slot ∷ slots) =
    let rest = find_slot md_name slots in
    if is_blank slot.md_name || same_name slot.md_name md_name
    then some 0
    else elim rest [ none ↦ none | some i ↦ some (suc i) ]

abbrev pub zero_slot : Slot
zero_slot = record { md_name = []; last_state = 0; failed_disks = 0; resync_progress = 0 }

abbrev pub new_record : Name → Detail → Slot
new_record md_name detail = record {
  md_name = md_name;
  last_state = detail.state;
  failed_disks = detail.failed_disks;
  resync_progress = detail.resync_progress;
}

-- The check from the record at index i on.
unfoldable pub check_slot : Env → Name → Detail → ℕ → Raid → Raid
check_slot env md_name detail i s =
    let slot = get_or s.states i zero_slot in
    let told = notify_state env md_name slot.last_state detail.state s in
    let handled = handle_faulty env md_name (take detail.raid_disks detail.disks) told in
    let checked = if ltb slot.failed_disks detail.failed_disks then handled else told in
    if is_blank slot.md_name
    then record s { states = set s.states i (new_record (clip md_name) detail) }
    else record checked { states = set checked.states i (new_record slot.md_name detail) }

unfoldable pub check_status : Env → Option Name → Raid → Raid
check_status env none s = s
check_status env (some md_name) s = elim (env.detail s.log md_name) [
  | none ↦ s
  | some detail ↦ elim (find_slot md_name s.states) [
    | none ↦ s
    | some i ↦ check_slot env md_name detail i s
  ]
]
