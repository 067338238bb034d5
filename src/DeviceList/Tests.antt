-- ===== src/DeviceList/Tests.antt =====
-- The theorem on the scan of src/libxbdev/device_list.c: a device has gone, one has changed, and one
-- is new.
use nblock.Prelude.{ℕ, ◌≡◌, refl, true, [], ◌∷◌, none, some, if◌then◌else◌}
use nblock.Prelude.Errno.{ok}
use nblock.Prelude.Names.{Name, same_name, clip}
use nblock.DeviceList.{DeviceList, find_device_entry}
use nblock.DeviceList.Scan.{Env, scan_devices}
use nblock.DeviceList.Entries.{Distinct, online_entry}
use nblock.DeviceList.Listing.{present, AllStored, scan_devices_lem}

abbrev nvme : Name
nvme = 110 ∷ 48 ∷ []

abbrev sata : Name
sata = 115 ∷ 48 ∷ []

abbrev usb : Name
usb = 117 ∷ 48 ∷ []

-- The device's information is a number of blocks.
abbrev machine : Env ℕ
machine = record {
  bdevs = some sata ∷ none ∷ some usb ∷ [];
  device_info = λ name. if same_name name usb then some 30 else some 20;
  array_allocated = true;
  copied = λ _. true;
  entry_allocated = λ _. true;
  blank = λ _. 0;
}

abbrev known : DeviceList ℕ
known = record {
  entries =
      record { name = nvme; info = 10; online = true }
      ∷ record { name = sata; info = 15; online = true }
      ∷ [];
  monitor_running = true;
  event_cb = none;
  cb_arg = none;
  scan_interval_ms = 1000;
  last_scan_time = 0;
  log = [];
}

known-Distinct : Distinct known.entries
unfolding Distinct find_device_entry
known-Distinct = (refl, (refl, refl))

found-AllStored : AllStored machine (sata ∷ usb ∷ [])
unfolding AllStored clip
found-AllStored = (refl, refl, (refl, refl, tt))

scan_devices_lem_example :
    let (rc, t) = scan_devices machine known in
    (rc ≡ ok) × (find_device_entry usb t.entries ≡ some (online_entry usb 30)) × Distinct t.entries
unfolding present
scan_devices_lem_example =
    scan_devices_lem machine known usb refl (λ i. refl) found-AllStored known-Distinct
