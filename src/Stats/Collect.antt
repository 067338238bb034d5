-- ===== src/Stats/Collect.antt =====
-- src/libxbdev/stats.c: the table of devices whose statistics are collected, with the start, the stop and
-- the poller of a collection. The calculation of rates, averages and alerts, which is on floats, is a
-- parameter, and so is what SPDK, the allocator and the clock do. What the configuration has that is
-- only copied is left out.
use nblock.Prelude.{
  ℕ, suc, ◌+◌, ◌-◌, ◌%◌, ◌^◌, ltb, if◌then◌else◌, Bool, true, false, not, ◌&&◌, List, [], ◌∷◌,
  Option, none, some, get_or, set, replicate,
}
use nblock.Prelude.Names.{Name, same_name, clip}
use nblock.Prelude.Errno.{einval, enomem, enoent, Rc, ok, fail}
use nblock.Stats.{History, start_history, record_sample}
use nblock.Sync.{Sync, sync_call}

pub record Config : Type 0 where
  pub collection_interval_ms : ℕ
  pub keep_history : Bool
  pub history_size : ℕ
  pub track_hotspots : Bool
  pub hotspot_segments : ℕ

-- What is outside the file: whether SPDK has the device, the three allocations, and the time.
pub record StartEnv : Type 0 where
  pub exists : Bool
  pub history_allocated : Bool
  pub heatmap_allocated : Bool
  pub registered : Bool
  pub time : ℕ

module _ (Sample : Type 0) where
  pub record Samples : Type 0 where
    pub current : Sample
    pub previous : Sample
    pub avg : Sample
    pub peak : Sample

  -- `history`, `io_heatmap` and `poller` have a flag or `none` for NULL.
  pub record StatsCtx : Type 0 where
    pub device_name : Name
    pub active : Bool
    pub config : Config
    pub samples : Samples
    pub has_history : Bool
    pub history : History Sample
    pub io_heatmap : Option (List ℕ)
    pub poller : Bool
    pub start_time : ℕ
    pub total_samples : ℕ

  -- The static variables of the file; `pollers` is how many pollers SPDK has of it.
  pub record Stats : Type 0 where
    pub contexts : List StatsCtx
    pub initialized : Bool
    pub pollers : ℕ

abbrev pub zero_config : Config
zero_config = record {
  collection_interval_ms = 0;
  keep_history = false;
  history_size = 0;
  track_hotspots = false;
  hotspot_segments = 0;
}

-- XBDEV_MAX_STAT_DEVICES
abbrev pub max_stat_devices : ℕ
max_stat_devices = 128

module _ {Sample : Type 0} (zero_sample : Sample) where
  abbrev pub zero_samples : Samples Sample
  zero_samples = record {
    current = zero_sample;
    previous = zero_sample;
    avg = zero_sample;
    peak = zero_sample;
  }

  -- What `memset` leaves.
  abbrev pub zero_ctx : StatsCtx Sample
  zero_ctx = record {
    device_name = [];
    active = false;
    config = zero_config;
    samples = zero_samples;
    has_history = false;
    history = record { history = []; history_count = 0; history_index = 0; history_capacity = 0 };
    io_heatmap = none;
    poller = false;
    start_time = 0;
    total_samples = 0;
  }

  unfoldable pub stats_init : Stats Sample → Rc × Stats Sample
  stats_init s =
      if s.initialized
      then (ok, s)
      else (ok, record s { contexts = replicate max_stat_devices zero_ctx; initialized = true })

  abbrev pub cleared : StatsCtx Sample → StatsCtx Sample
  cleared ctx = if ctx.active then zero_ctx else ctx

  -- The loop over the contexts: those that are active are cleared, and their pollers are given back.
  unfoldable pub clear_all : List (StatsCtx Sample) → List (StatsCtx Sample)
  clear_all [] = []
  clear_all (ctx ∷ contexts) = cleared ctx ∷ clear_all contexts

  unfoldable pub active_pollers : List (StatsCtx Sample) → ℕ
  active_pollers [] = 0
  active_pollers (ctx ∷ contexts) =
      (if ctx.active && ctx.poller then 1 else 0) + active_pollers contexts

  unfoldable pub stats_fini : Stats Sample → Stats Sample
  stats_fini s = if not s.initialized then s else record s {
    contexts = clear_all s.contexts;
    pollers = s.pollers - active_pollers s.contexts;
    initialized = false;
  }

  abbrev pub next : Option ℕ → Option ℕ
  next none = none
  next (some i) = some (suc i)

  abbrev pub bears : Name → StatsCtx Sample → Bool
  bears name ctx = ctx.active && same_name ctx.device_name name

  -- The search for an active context of the device, which many functions repeat.
  unfoldable pub find_ctx : Name → List (StatsCtx Sample) → Option ℕ
  find_ctx name [] = none
  find_ctx name (ctx ∷ contexts) =
      let rest = next (find_ctx name contexts) in if bears name ctx then some 0 else rest

  unfoldable pub find_free : List (StatsCtx Sample) → Option ℕ
  find_free [] = none
  find_free (ctx ∷ contexts) =
      let rest = next (find_free contexts) in if not ctx.active then some 0 else rest

  abbrev pub fresh_ctx : Name → StatsCtx Sample
  fresh_ctx name = record zero_ctx {
    device_name = clip name;
    active = true;
    config = record zero_config { collection_interval_ms = 1000 };
  }

  -- The place of the context, and the table with it.
  unfoldable pub find_or_alloc_stats_ctx : Name → Stats Sample → Option ℕ × Stats Sample
  find_or_alloc_stats_ctx name s = elim (find_ctx name s.contexts) [
    | some i ↦ (some i, s)
    | none ↦ elim (find_free s.contexts) [
      | none ↦ (none, s)
      | some i ↦ (some i, record s { contexts = set s.contexts i (fresh_ctx name) })
    ]
  ]

  -- The old poller is given back and the old arrays are freed; then the context is set up, without
  -- arrays and poller.
  abbrev pub set_up : Config → StatsCtx Sample → StatsCtx Sample
  set_up config ctx = record ctx {
    config = config;
    active = true;
    samples = zero_samples;
    has_history = false;
    io_heatmap = none;
    poller = false;
    total_samples = 0;
  }

  abbrev pub with_history : Config → StatsCtx Sample → StatsCtx Sample
  with_history config ctx = record ctx {
    has_history = true;
    history = start_history zero_sample config.history_size;
  }

  -- The allocation of the history, where it is asked for; `none` where it fails.
  unfoldable pub give_history : StartEnv → Config → StatsCtx Sample → Option (StatsCtx Sample)
  give_history env config ctx =
      if not (config.keep_history && ltb 0 config.history_size)
      then some ctx
      else if not env.history_allocated
      then none
      else some (with_history config ctx)

  unfoldable pub give_heatmap : StartEnv → Config → StatsCtx Sample → Option (StatsCtx Sample)
  give_heatmap env config ctx =
      if not (config.track_hotspots && ltb 0 config.hotspot_segments)
      then some ctx
      else if not env.heatmap_allocated
      then none
      else some (record ctx { io_heatmap = some (replicate config.hotspot_segments 0) })

  abbrev pub without_arrays : StatsCtx Sample → StatsCtx Sample
  without_arrays ctx = record ctx { has_history = false; io_heatmap = none }

  -- What the function leaves in the context, once it has found the device.
  unfoldable pub start_ctx : StartEnv → Config → StatsCtx Sample → Rc × StatsCtx Sample
  start_ctx env config ctx =
      let plain = set_up config ctx in
      elim (give_history env config plain) [
        | none ↦ (fail enomem, plain)
        | some kept ↦ elim (give_heatmap env config kept) [
          | none ↦ (fail enomem, record kept { has_history = false })
          | some full ↦
              let timed : StatsCtx Sample = record full { start_time = env.time } in
              if env.registered
              then (ok, record timed { poller = true })
              else (fail enomem, without_arrays timed)
        ]
      ]

  abbrev pub held : StatsCtx Sample → ℕ
  held ctx = if ctx.poller then 1 else 0

  unfoldable pub start_on_thread : StartEnv → Config → ℕ → Stats Sample → Rc × Stats Sample
  start_on_thread env config i s =
      let ctx = get_or s.contexts i zero_ctx in
      let (rc, new) = start_ctx env config ctx in
      if not env.exists then (fail enoent, s) else (
        rc,
        record s { contexts = set s.contexts i new; pollers = s.pollers - held ctx + held new },
      )

  unfoldable pub collect_start :
      StartEnv → Sync → Option Name → Option Config → Stats Sample → Rc × Stats Sample
  collect_start env sync none config s = (fail einval, s)
  collect_start env sync (some name) none s = (fail einval, s)
  collect_start env sync (some name) (some config) s =
      let (place, found) = find_or_alloc_stats_ctx name s in
      elim place [
        | none ↦ (fail enomem, found)
        | some i ↦ sync_call sync (start_on_thread env config i) found
      ]

  unfoldable pub stop_on_thread : Name → Stats Sample → Rc × Stats Sample
  stop_on_thread name s = elim (find_ctx name s.contexts) [
    | none ↦ (fail enoent, s)
    | some i ↦
        let ctx = get_or s.contexts i zero_ctx in
        (
          ok,
          record s {
            contexts = set s.contexts i (record ctx { poller = false; active = false });
            pollers = s.pollers - held ctx;
          },
        )
  ]

  unfoldable pub collect_stop : Sync → Option Name → Stats Sample → Rc × Stats Sample
  collect_stop sync none s = (fail einval, s)
  collect_stop sync (some name) s = sync_call sync (stop_on_thread name) s

  -- A run of the poller of a context. `read` is what SPDK tells of the device, if it has it, as a sample
  -- made from the current one; `rates` sets rates, averages and peaks.
  unfoldable pub poll_ctx :
      (Samples Sample → Samples Sample)
      → Option (Sample → Sample)
      → StatsCtx Sample
      → StatsCtx Sample
  poll_ctx rates none ctx = ctx
  poll_ctx rates (some read) ctx =
      let old = ctx.samples in
      let taken : Samples Sample = record old {
        previous = old.current;
        current = read old.current;
      } in
      let rated = rates taken in
      let later = ltb 0 ctx.total_samples in
      if not ctx.active then ctx else record ctx {
        samples = if later then rated else taken;
        history =
            if later && ctx.config.keep_history && ctx.has_history
            then record_sample rated.current ctx.history
            else ctx.history;
        total_samples = (ctx.total_samples + 1) % 2 ^ 64;
      }

  -- `stats_poller_callback` of the context at a place.
  unfoldable pub poll :
      (Samples Sample → Samples Sample) → Option (Sample → Sample) → ℕ → Stats Sample → Stats Sample
  poll rates read i s = record s {
    contexts = set s.contexts i (poll_ctx rates read (get_or s.contexts i zero_ctx));
  }
