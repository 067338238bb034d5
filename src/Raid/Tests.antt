-- ===== src/Raid/Tests.antt =====
-- The theorems on src/libxbdev/raid.c for an array of three disks, two of which fail, with a spare of
-- its own in use and a free global one.
use nblock.Prelude.{◌≡◌, refl, true, false, List, [], ◌∷◌, none, some, arith, replicate}
use nblock.Prelude.Names.{Name}
use nblock.Prelude.Errno.{ok}
use nblock.Raid.Spares.{SpareEntry, take_spare, find_hot_spare, free_spare, release_hot_spare}
use nblock.Raid.Find.{Distinct, Found, find_hot_spare-Found, release-find_hot_spare}
use nblock.Raid.Events.{replace_disk, Slot, Raid, Detail, Env, notify}
use nblock.Raid.Status.{
  replace_or_degrade, handle_disk_failure, handle_faulty, state_event, notify_state, find_slot,
  zero_slot, check_slot, check_status,
}
use nblock.Raid.Records.{tracked, tracked-check_status}
use nblock.Raid.Asked.{
  candidates, free_names, Named, faulty_names, paired, rest_after, replacements,
}
use nblock.Raid.Failures.{replacements-check_status}

abbrev md0 : Name
md0 = 109 ∷ 48 ∷ []

abbrev md1 : Name
md1 = 109 ∷ 49 ∷ []

abbrev disk_a : Name
disk_a = 97 ∷ []

abbrev spare_own : Name
spare_own = 120 ∷ []

abbrev spare_all : Name
spare_all = 121 ∷ []

abbrev two_spares : List SpareEntry
two_spares =
    record { md_name = md0; disk_name = spare_own; in_use = true }
    ∷ record { md_name = []; disk_name = spare_all; in_use = false }
    ∷ []

abbrev two_spares_used : List SpareEntry
two_spares_used =
    record { md_name = md0; disk_name = spare_own; in_use = true }
    ∷ record { md_name = []; disk_name = spare_all; in_use = true }
    ∷ []

abbrev degraded : Detail
degraded = record {
  state = 2;
  raid_disks = 3;
  failed_disks = 2;
  resync_progress = 0;
  disks =
      record { name = disk_a; state = 1 }
      ∷ record { name = 98 ∷ []; state = 0 }
      ∷ record { name = 99 ∷ []; state = 1 }
      ∷ [];
}

abbrev machine : Env
machine = record {
  md_size = 256;
  disk_size = 256;
  clock = λ log. 100;
  detail = λ log name. some degraded;
}

abbrev seen_before : Slot
seen_before = record { md_name = md0; last_state = 1; failed_disks = 0; resync_progress = 0 }

abbrev watched : Raid
watched = record {
  callbacks = record { cb = 5; ctx = none } ∷ [];
  spares = two_spares;
  states = seen_before ∷ replicate 31 zero_slot;
  active = true;
  timer = none;
  pollers = [];
  log = [];
}

two_spares-Distinct : Distinct two_spares
unfolding Distinct free_spare
two_spares-Distinct = (refl, (refl, refl))

two_spares-Named : Named two_spares
unfolding Named
two_spares-Named = (refl, (refl, refl))

find_hot_spare-Found_example :
    Found md0 256 two_spares (find_hot_spare (some md0) true 256 two_spares)
find_hot_spare-Found_example = find_hot_spare-Found md0 256 two_spares (omega arith)

spare_found : find_hot_spare (some md0) true 256 two_spares ≡ (ok, some spare_all, two_spares_used)
unfolding find_hot_spare take_spare
spare_found = refl

release-find_hot_spare_example :
    release_hot_spare (some spare_all) two_spares_used ≡ (ok, two_spares)
release-find_hot_spare_example =
    release-find_hot_spare md0 spare_all 256 two_spares two_spares_used two_spares-Distinct
      (omega arith) spare_found

md0-found : find_slot md0 watched.states ≡ some 0
unfolding find_slot
md0-found = refl

tracked-check_status_example :
    tracked md0 (check_status machine (some md0) watched).states
    ≡ some (record { md_name = md0; last_state = 2; failed_disks = 2; resync_progress = 0 })
tracked-check_status_example =
    tracked-check_status machine md0 md0 degraded 0 watched (omega arith) refl refl refl md0-found

replacements-check_status_example :
    let t = check_status machine (some md0) watched in
    (replacements t.log ≡ replace_disk md0 disk_a spare_all ∷ []) × (candidates md0 t.spares ≡ [])
unfolding faulty_names candidates free_names paired rest_after replacements
replacements-check_status_example =
    replacements-check_status machine md0 degraded 0 watched two_spares-Named refl md0-found refl
      (omega arith)

abbrev idle : Raid
idle = record watched { active = false }

-- One disk gets the global spare, the other leaves the array degraded.
one_replaced :
    replacements (check_status machine (some md0) watched).log
    ≡ replace_disk md0 disk_a spare_all ∷ []
unfolding check_status find_slot check_slot notify_state state_event notify handle_faulty
    handle_disk_failure replace_or_degrade find_hot_spare take_spare replacements
one_replaced = refl
