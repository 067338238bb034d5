-- ===== src/DeviceList/Scan.antt =====
-- `xbdev_scan_devices` of src/libxbdev/device_list.c, and the functions that call it.
use nblock.Prelude.{
  ℕ, zero, suc, ◌+◌, ◌-◌, ◌*◌, ◌/◌, ◌%◌, ◌^◌, leb, if◌then◌else◌, Bool, true, false, not, List, [],
  ◌∷◌, Option, none, some,
}
use nblock.Prelude.Errno.{enomem, Rc, ok, fail}
use nblock.Prelude.Names.{Name}
use nblock.DeviceList.{
  Entry, DeviceList, removed, find_device_entry, change_entry, notify, add_device_entry,
}

-- What SPDK and the allocator say during a scan: the names of the devices, in which NULL is `none`;
-- what `xbdev_get_device_info` stores, where it returns 0; whether the array, the copy of the name
-- number `i` and the entry for a name are allocated.
pub record Env (Info : Type 0) : Type 0 where
  pub bdevs : List (Option Name)
  pub device_info : Name → Option Info
  pub array_allocated : Bool
  pub copied : ℕ → Bool
  pub entry_allocated : Name → Bool
  pub blank : Name → Info

module _ {Info : Type 0} (env : Env Info) where
  -- The loop over the devices, with `room` names still to be stored, of which the next is number
  -- `i`. `none` where a copy fails.
  unfoldable pub collect : ℕ → ℕ → List (Option Name) → Option (List Name)
  collect zero i bdevs = some []
  collect (suc room) i [] = some []
  collect (suc room) i (none ∷ bdevs) = collect (suc room) i bdevs
  collect (suc room) i (some name ∷ bdevs) =
      let rest = collect room (i + 1) bdevs in
      if not (env.copied i)
      then none
      else elim rest [ none ↦ none | some names ↦ some (name ∷ names) ]

  -- The first step: every entry is off.
  unfoldable pub all_offline : List (Entry Info) → List (Entry Info)
  all_offline [] = []
  all_offline (e ∷ es) = record e { online = false } ∷ all_offline es

  -- The second step, for one name.
  unfoldable pub refresh : Name → DeviceList Info → DeviceList Info
  refresh name s = elim (env.device_info name) [
    | none ↦ s
    | some info ↦ elim (find_device_entry name s.entries) [
      | some _ ↦ record s {
        entries = change_entry name (λ e. record e { online = true; info = info }) s.entries;
      }
      | none ↦ (add_device_entry env.blank (env.entry_allocated name) name (some info) s).1
    ]
  ]

  unfoldable pub refresh_all : List Name → DeviceList Info → DeviceList Info
  refresh_all [] s = s
  refresh_all (name ∷ names) s = refresh_all names (refresh name s)

  -- The third step: what is still off is reported and leaves the list.
  unfoldable pub sweep : List (Entry Info) → List (Entry Info)
  sweep [] = []
  sweep (e ∷ es) = if e.online then e ∷ sweep es else sweep es

  unfoldable pub report : List (Entry Info) → DeviceList Info → DeviceList Info
  report [] s = s
  report (e ∷ es) s = if e.online then report es s else report es (notify (removed e.name e.info) s)

  -- `max_devices` is 256.
  unfoldable pub scan_devices : DeviceList Info → Rc × DeviceList Info
  scan_devices s =
      if not env.array_allocated then (fail enomem, s) else elim (collect 256 0 env.bdevs) [
        | none ↦ (fail enomem, s)
        | some names ↦
            let t = refresh_all names (record s { entries = all_offline s.entries }) in
            (ok, record (report t.entries t) { entries = sweep t.entries })
      ]

  -- `now` and `hz` are what `spdk_get_ticks` and `spdk_get_ticks_hz` return. Both differences and
  -- the product are in `uint64_t`.
  unfoldable pub device_monitor_poll : ℕ → ℕ → DeviceList Info → DeviceList Info
  device_monitor_poll now hz s =
      if leb (s.scan_interval_ms * hz % 2 ^ 64 / 1000) ((now + 2 ^ 64 - s.last_scan_time) % 2 ^ 64)
      then record (scan_devices s).1 { last_scan_time = now }
      else s

  unfoldable pub start_device_monitoring : ℕ → ℕ → DeviceList Info → Rc × DeviceList Info
  start_device_monitoring now interval_ms s = if s.monitor_running then (ok, s) else (
    ok,
    (scan_devices (record s {
      scan_interval_ms = if leb 1 interval_ms then interval_ms else s.scan_interval_ms;
      last_scan_time = now;
      monitor_running = true;
    })).1,
  )
