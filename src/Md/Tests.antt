-- ===== src/Md/Tests.antt =====
-- The theorems on src/libxbdev/md.c for an array of two disks, one of which fails.
use nblock.Prelude.{
  ℕ, zero, suc, ◌+◌, ◌≤◌, ◌≡◌, ◌≢◌, refl, true, false, List, [], ◌∷◌, none, some, replicate, arith,
  if◌then◌else◌, ◌==◌,
}
use nblock.Prelude.Names.{Name}
use nblock.Prelude.Errno.{ok, eio, fail}
use nblock.Md.Device.{
  raid0, raid1, raid10, MdDev, zero_dev, Md, find_md_by_name, find_disk, md_run, find_free_md_slot,
  md_name_exists, on_device,
}
use nblock.Md.Create.{
  Env, strip_size_kb, layout_of, all_exist, add_bases, take_slot, add_and_record, create_call,
  create_bdev, create_named, create_on_thread, log,
}
use nblock.Md.Manage.{
  SpareEnv, add_spare, remove_spare, run_command, manage_on_thread, replaced, md_list, listed,
  add_spare_to,
}
use nblock.Md.Report.{
  plain, active, zero_info, product, level_of_product, examine_device, examine_on_thread, MdDetail,
  detail_of, count_failed,
}
use nblock.Md.Calls.{md_create, md_stop}
use nblock.Md.Valid.{IsValid}
use nblock.Md.Sound.{Sound}
use nblock.Md.Run.{
  create, stop, set_faulty, restart, run, IsValid-run, Distinct-idle, EachSound-idle,
}
use nblock.Md.Created.{is_ok, new_array, request, device_of-md_create, description}
use nblock.Md.Stopped.{md_stop-md_create}
use nblock.Md.Faults.{detail_of-counts, replaced_working, remove_spare-add_spare}
use nblock.Md.Listed.{
  active_names, md_list_lem, examine-add_spare, level_of_product-ne-raid10, has_name, Unrelated,
}
use nblock.Md.Table.{device_of}
use nblock.Sync.{Completes, Sync, sync_call}

abbrev md0 : Name
md0 = 109 ∷ 48 ∷ []

abbrev disk_a : Name
disk_a = 97 ∷ []

abbrev disk_b : Name
disk_b = 98 ∷ []

abbrev disk_c : Name
disk_c = 99 ∷ []

abbrev two_disks : List Name
two_disks = disk_a ∷ disk_b ∷ []

-- SPDK and the allocator do all that they are asked to.
abbrev willing : Env
willing = record {
  exists = λ name. true;
  created = ok;
  visible = true;
  added = λ i. ok;
  removed = λ i. ok;
  deleted = ok;
  uuid = [];
  table_allocated = true;
  names_allocated = true;
  states_allocated = true;
  copied = λ i. true;
}

-- The second disk cannot be added.
abbrev half : Env
half = record willing { added = λ i. if i == 1 then fail eio else ok }

abbrev served : Sync
served = record { allocated = true; ran = true; executed = ok }

served-Completes : Completes served
served-Completes = record { allocated = refl; ran = refl; executed = refl }

abbrev idle : Md
idle = record { devices = replicate 16 zero_dev; initialized = true; calls = [] }

idle-IsValid : IsValid idle
idle-IsValid = record { sized = refl; distinct = Distinct-idle 16; sound = EachSound-idle 16 }

-- An array that counts one failed disk, the first, and has no spare.
abbrev array : MdDev
array = record zero_dev {
  active = true;
  name = md0;
  level = raid1;
  disk_count = 2;
  disk_names = some disk_a ∷ some disk_b ∷ [];
  disk_state = false ∷ true ∷ [];
  failed_disk_count = 1;
  degraded = true;
}

array-Sound : Sound array
unfolding count_failed
array-Sound = record {
  named = refl;
  stated = refl;
  enough = omega arith;
  spares = omega arith;
  counted = omega arith;
  calm = refl;
}

abbrev one_array : Md
one_array = record idle { devices = array ∷ replicate 15 zero_dev }

one_array-IsValid : IsValid one_array
unfolding find_md_by_name
one_array-IsValid = record {
  sized = refl;
  distinct = (λ up. refl, Distinct-idle 15);
  sound = (λ up. array-Sound, EachSound-idle 15);
}

abbrev roomy : SpareEnv
roomy = record { exists = λ name. true; grown = true; copied = true }

abbrev blank_detail : MdDetail
blank_detail = record {
  level = raid0;
  raid_disks = 0;
  active_disks = 0;
  working_disks = 0;
  failed_disks = 0;
  spare_disks = 0;
  size = 0;
  chunk_size = 0;
  state = active;
  resync_status = false;
  resync_progress = 0;
  resync_speed = 0;
  uuid = [];
  degraded_mode = false;
  disks = [];
}

created : (md_create willing served (request md0 raid1 two_disks none) idle).0 ≡ ok
unfolding md_create sync_call create_on_thread create_named create_bdev create_call all_exist
    add_and_record add_bases take_slot find_free_md_slot find_md_by_name md_name_exists
    strip_size_kb log
created = refl

found : find_disk disk_b 2 array.disk_names ≡ some 1
unfolding find_disk
found = refl

added : (run_command roomy (add_spare (some disk_c)) array).0 ≡ ok
unfolding run_command add_spare_to find_disk
added = refl

array_found : find_md_by_name md0 one_array.devices ≡ some 0
unfolding find_md_by_name
array_found = refl

array_grown : (manage_on_thread roomy (add_spare (some disk_c)) md0 one_array).0 ≡ ok
unfolding manage_on_thread on_device find_md_by_name run_command add_spare_to find_disk
array_grown = refl

idle-Unrelated : (n : ℕ) → Unrelated disk_c (replicate n zero_dev)
idle-Unrelated zero = tt
idle-Unrelated (suc n) = (λ up. absurd (cc up), idle-Unrelated n)

unrelated : Unrelated disk_c one_array.devices
unfolding examine_device find_disk
unrelated = (λ up. refl, idle-Unrelated 15)

IsValid-run_example : IsValid (
    run
      (create willing served (request md0 raid1 two_disks none)
        ∷ set_faulty served (some md0) (some disk_a)
        ∷ stop willing served (some md0)
        ∷ restart
        ∷ [])
      idle)
IsValid-run_example =
    IsValid-run
      (create willing served (request md0 raid1 two_disks none)
        ∷ set_faulty served (some md0) (some disk_a)
        ∷ stop willing served (some md0)
        ∷ restart
        ∷ [])
      idle (omega arith, tt) idle-IsValid

device_of-md_create_example :
    description
      (device_of md0 (md_create willing served (request md0 raid1 two_disks none) idle).1.devices)
    ≡ some (new_array md0 raid1 none two_disks [])
unfolding md_create sync_call create_on_thread create_named create_bdev create_call all_exist
    add_and_record add_bases take_slot find_free_md_slot find_md_by_name md_name_exists
    strip_size_kb layout_of log device_of
device_of-md_create_example =
    device_of-md_create willing served md0 raid1 two_disks none md0 idle (omega arith) (λ i. refl)
      served-Completes

md_stop-md_create_example :
    description (
      device_of disk_a
        (md_stop willing served
          (some md0)
          (md_create willing served (request md0 raid1 two_disks none) idle).1).1.devices)
    ≡ none
unfolding device_of
md_stop-md_create_example =
    md_stop-md_create willing willing served served md0 raid1 two_disks none disk_a idle
      idle-IsValid (omega arith) served-Completes served-Completes created refl

detail_of-counts_example :
    (let detail = detail_of (λ name. none) (λ x. x) (8, 512) array blank_detail in
      (detail.active_disks + detail.failed_disks ≡ detail.raid_disks)
      × (detail.failed_disks ≡ 1)
      × (1 ≤ detail.failed_disks)
      × (detail.state ≡ active → array.failed_disk_count ≡ 0))
unfolding count_failed
detail_of-counts_example =
    detail_of-counts (λ name. none) (λ x. x) (8, 512) array blank_detail array-Sound

replaced_working_example :
    (let new = replaced true false disk_c 1 array in
      (new.degraded ≡ false)
      × (new.failed_disk_count ≡ 0)
      × (count_failed new.disk_state ≡ count_failed array.disk_state)
      × (1 ≤ count_failed new.disk_state))
replaced_working_example = replaced_working true disk_c 1 array array-Sound (omega arith) refl refl

remove_spare-add_spare_example :
    run_command roomy
      (remove_spare (some disk_c))
      (run_command roomy (add_spare (some disk_c)) array).1
    ≡ (ok, array)
remove_spare-add_spare_example = remove_spare-add_spare roomy roomy disk_c array array-Sound added

md_list_lem_example :
    (md_list (λ k. true) true 4 one_array ≡ listed (md0 ∷ []))
    × (is_ok (md_run md0 one_array) ≡ true)
unfolding active_names has_name
md_list_lem_example = md_list_lem (λ k. true) 4 md0 one_array (λ k. refl) (omega arith)

examine-add_spare_example :
    examine_on_thread 63
      (λ name. plain)
      disk_c
      zero_info
      (manage_on_thread roomy (add_spare (some disk_c)) md0 one_array).1
    ≡ (
      ok,
      record {
        is_raid = false;
        is_raid_member = true;
        is_spare = true;
        is_failed = false;
        raid_name = md0;
        level = some raid1;
        member_index = 0;
      },
    )
examine-add_spare_example =
    examine-add_spare 63 (λ name. plain) roomy md0 disk_c 0 zero_info one_array one_array-IsValid
      unrelated refl array_found array_grown

level_of_product-ne-raid10_example : level_of_product (product (b'1' ∷ b'0' ∷ [])) ≢ some raid10
level_of_product-ne-raid10_example = level_of_product-ne-raid10 (product (b'1' ∷ b'0' ∷ []))
