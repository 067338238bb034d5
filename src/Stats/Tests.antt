-- ===== src/Stats/Tests.antt =====
-- The theorems on src/libxbdev/stats.c: the history for four samples, a reset between them, and three
-- places; and the table of devices with one start and one device that is not there.
use nblock.Prelude.{
  ◌≡◌, refl, sym, List, ℕ, zero, suc, ◌+◌, [], ◌∷◌, true, false, none, some, replicate, arith,
}
use nblock.Prelude.Names.{Name}
use nblock.Prelude.Errno.{enoent, ok, fail}
use nblock.Stats.{start_history, get_history}
use nblock.Stats.Recent.{Call, records, resets, run, last_samples, get_history-run}
use nblock.Stats.Collect.{
  Config, StartEnv, Stats, zero_ctx, find_ctx, find_free, collect_start, stats_fini,
}
use nblock.Stats.Report.{stats_get}
use nblock.Stats.Accounts.{total, EachIdle, Accounted}
use nblock.Stats.Pollers.{TableCall, start, sample_at, run_calls, pollers-stats_fini}
use nblock.Stats.Listed.{stats_get-collect_start}
use nblock.Sync.{Sync, Completes}

abbrev calls_made : List (Call ℕ)
calls_made = records 9 ∷ resets ∷ records 1 ∷ records 2 ∷ records 3 ∷ records 4 ∷ []

get_history-run_example : get_history 0 2 (run 0 calls_made (start_history 0 3)) ≡ 4 ∷ 3 ∷ []
unfolding last_samples
get_history-run_example = get_history-run 0 calls_made 3 2 (omega arith) (omega arith)

abbrev idle : Stats ℕ
idle = record { contexts = replicate 128 (zero_ctx 0); initialized = true; pollers = 0 }

idle-EachIdle : (n : ℕ) → EachIdle {Sample = ℕ} 0 (replicate n (zero_ctx 0))
idle-EachIdle zero = tt
idle-EachIdle (suc n) = (λ down. refl, idle-EachIdle n)

idle-total : (n : ℕ) → total {Sample = ℕ} 0 (replicate n (zero_ctx 0)) ≡ 0
unfolding total
idle-total zero = refl
idle-total (suc n) = ground (arith, idle-total n)

idle-Accounted : Accounted 0 idle
idle-Accounted = record { up = refl; counted = sym (idle-total 128); idle = idle-EachIdle 128 }

abbrev willing : StartEnv
willing = record {
  exists = true;
  history_allocated = true;
  heatmap_allocated = true;
  registered = true;
  time = 5;
}

abbrev served : Sync
served = record { allocated = true; ran = true; executed = ok }

served-Completes : Completes served
served-Completes = record { allocated = refl; ran = refl; executed = refl }

abbrev plain_config : Config
plain_config = record {
  collection_interval_ms = 10;
  keep_history = true;
  history_size = 4;
  track_hotspots = false;
  hotspot_segments = 0;
}

abbrev disk : Name
disk = 100 ∷ []

abbrev table_calls : List (TableCall ℕ)
table_calls =
    start willing served (some disk) (some plain_config)
    ∷ sample_at (λ taken. taken) (some (λ old. old + 1)) 0
    ∷ start willing served (some disk) (some plain_config)
    ∷ []

pollers-stats_fini_example :
    Accounted 0 (run_calls 0 table_calls idle)
    × ((stats_fini 0 (run_calls 0 table_calls idle)).pollers ≡ 0)
pollers-stats_fini_example = pollers-stats_fini 0 table_calls idle idle-Accounted

no_disk : find_ctx 0 disk idle.contexts ≡ none
unfolding find_ctx
no_disk = refl

first_free : find_free 0 idle.contexts ≡ some 0
unfolding find_free
first_free = refl

stats_get-collect_start_example :
    ((collect_start 0
        (record willing { exists = false })
        served
        (some disk)
        (some plain_config)
        idle).0
      ≡ fail enoent)
    × (stats_get 0 false
          (some disk)
          (collect_start 0
            (record willing { exists = false })
            served
            (some disk)
            (some plain_config)
            idle).1
        ≡ (ok, some 0))
stats_get-collect_start_example =
    stats_get-collect_start 0 (record willing { exists = false }) served disk plain_config 0 idle
      refl served-Completes (omega arith) no_disk first_free
