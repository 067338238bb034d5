-- ===== src/DeviceList.antt =====
-- src/libxbdev/device_list.c: the list of the devices that were found, and its scan. Locks are not
-- modelled: each function runs alone, also where it calls the user's function. A name is the list of
-- its bytes without the final 0. What SPDK and the allocator say is a parameter.
pub mod Scan
pub mod Entries
pub mod Listing
pub mod Tests
use nblock.Prelude.{
  ℕ, zero, suc, ◌+◌, ◌-◌, ◌*◌, ◌/◌, ◌%◌, ◌^◌, ◌==◌, leb, ltb, if◌then◌else◌, Bool, true, false, not,
  ◌&&◌, List, [], ◌∷◌, ◌++◌, Option, none, some, take, length, map,
}
use nblock.Prelude.Names.{Name, same_name, clip}
use nblock.Prelude.Errno.{einval, enomem, enoent, eperm, Rc, ok, fail}

-- `Info` is `xbdev_device_info_t`, which the list only copies.
module _ (Info : Type 0) where
  pub record Entry : Type 0 where
    pub name : Name
    pub info : Info
    pub online : Bool

  -- A call of the user's function: the kind of event, the name, the device and the argument.
  pub data Event : Type 0 where
    added removed : Name → Info → Option ℕ → Event

  -- `g_device_list`; `entries` is the linked list from its head on.
  pub record DeviceList : Type 0 where
    pub entries : List Entry
    pub monitor_running : Bool
    pub event_cb : Option ℕ
    pub cb_arg : Option ℕ
    pub scan_interval_ms : ℕ
    pub last_scan_time : ℕ
    pub log : List Event

module _ {Info : Type 0} where
  -- `mutex_ok` says whether `pthread_mutex_init` returns 0; -1 is -EPERM. The last fields stay as they were.
  unfoldable pub device_list_init : Bool → DeviceList Info → Rc × DeviceList Info
  device_list_init mutex_ok s = if not mutex_ok then (fail eperm, s) else (
    ok,
    record s {
      entries = [];
      monitor_running = false;
      event_cb = none;
      cb_arg = none;
      scan_interval_ms = 1000;
    },
  )

  unfoldable pub device_list_fini : DeviceList Info → DeviceList Info
  device_list_fini s = record s {
    entries = [];
    monitor_running = false;
    event_cb = none;
    cb_arg = none;
  }

  unfoldable pub find_device_entry : Name → List (Entry Info) → Option (Entry Info)
  find_device_entry name [] = none
  find_device_entry name (e ∷ es) =
      let rest = find_device_entry name es in if same_name e.name name then some e else rest

  -- A change through the pointer that `find_device_entry` returns.
  unfoldable pub change_entry :
      Name → (Entry Info → Entry Info) → List (Entry Info) → List (Entry Info)
  change_entry name f [] = []
  change_entry name f (e ∷ es) =
      let rest = change_entry name f es in if same_name e.name name then f e ∷ es else e ∷ rest

  -- The call of the user's function, if there is one.
  unfoldable pub notify : (Option ℕ → Event Info) → DeviceList Info → DeviceList Info
  notify event s = elim s.event_cb [
    | none ↦ s
    | some _ ↦ record s { log = s.log ++ event s.cb_arg ∷ [] }
  ]

  -- `blank name` is what the code stores where it is given no device: zeros and the name.
  unfoldable pub add_device_entry :
      (Name → Info) → Bool → Name → Option Info → DeviceList Info → Rc × DeviceList Info
  add_device_entry blank allocated name info s =
      let device : Info = elim info [ none ↦ blank name | some i ↦ i ] in
      let entry : Entry Info = record { name = clip name; info = device; online = true } in
      elim (find_device_entry name s.entries) [
        | some _ ↦ (ok, s)
        | none ↦
            if not allocated
            then (fail enomem, s)
            else (ok, notify (added name device) (record s { entries = entry ∷ s.entries }))
      ]

  unfoldable pub mark_device_offline : Name → DeviceList Info → Rc × DeviceList Info
  mark_device_offline name s = elim (find_device_entry name s.entries) [
    | none ↦ (fail enoent, s)
    | some e ↦
        if e.online
        then (
          ok,
          notify (removed name e.info) (record s {
            entries = change_entry name (λ e. record e { online = false }) s.entries;
          }),
        )
        else (ok, s)
  ]

  unfoldable pub mark_device_online : Name → DeviceList Info → Rc × DeviceList Info
  mark_device_online name s = elim (find_device_entry name s.entries) [
    | none ↦ (fail enoent, s)
    | some e ↦ if e.online then (ok, s) else (
      ok,
      notify (added name e.info)
          (record s { entries = change_entry name (λ e. record e { online = true }) s.entries }),
    )
  ]

  unfoldable pub get_device_count : DeviceList Info → ℕ
  get_device_count s = length s.entries

  unfoldable pub register_device_event_callback :
      Option ℕ → Option ℕ → DeviceList Info → Rc × DeviceList Info
  register_device_event_callback cb cb_arg s = (ok, record s { event_cb = cb; cb_arg = cb_arg })

  unfoldable pub set_device_scan_interval : ℕ → DeviceList Info → Rc × DeviceList Info
  set_device_scan_interval interval_ms s =
      if interval_ms == 0
      then (fail einval, s)
      else (ok, record s { scan_interval_ms = interval_ms })

  unfoldable pub stop_device_monitoring : DeviceList Info → DeviceList Info
  stop_device_monitoring s = record s { monitor_running = false }

  unfoldable pub device_exists : Name → DeviceList Info → Bool
  device_exists name s = elim (find_device_entry name s.entries) [
    | none ↦ false
    | some e ↦ e.online
  ]
