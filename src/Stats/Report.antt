-- ===== src/Stats/Report.antt =====
-- What src/libxbdev/stats.c tells of a device whose statistics are collected, and the reset.
use nblock.Prelude.{
  ℕ, ltb, if◌then◌else◌, Bool, not, ◌||◌, List, [], Option, none, some, get_or, set, take,
  replicate,
}
use nblock.Prelude.Names.{Name}
use nblock.Prelude.Errno.{einval, enoent, Rc, ok, fail}
use nblock.Stats.{reset_history, get_history}
use nblock.Stats.Collect.{StatsCtx, Stats, zero_samples, zero_ctx, find_ctx}

module _ {Sample : Type 0} (zero_sample : Sample) where
  -- What these functions share.
  unfoldable pub read_ctx :
      {A : Type 0} → (StatsCtx Sample → A) → Option Name → Stats Sample → Rc × Option A
  read_ctx tell none s = (fail einval, none)
  read_ctx tell (some name) s = elim (find_ctx zero_sample name s.contexts) [
    | none ↦ (fail enoent, none)
    | some i ↦ (ok, some (tell (get_or s.contexts i (zero_ctx zero_sample))))
  ]

  unfoldable pub stats_get : Bool → Option Name → Stats Sample → Rc × Option Sample
  stats_get get_avg = read_ctx (λ ctx. if get_avg then ctx.samples.avg else ctx.samples.current)

  pub get_peak : Option Name → Stats Sample → Rc × Option Sample
  get_peak = read_ctx (λ ctx. ctx.samples.peak)

  -- The samples that are copied; their number is the number of entries that is told.
  pub device_history : ℕ → Option Name → Stats Sample → Rc × Option (List Sample)
  device_history max_entries = read_ctx (λ ctx.
      if not ctx.config.keep_history || not ctx.has_history
      then []
      else get_history zero_sample max_entries ctx.history)

  abbrev pub segments : ℕ → Option (List ℕ) → ℕ → List ℕ
  segments max_segments none n = []
  segments max_segments (some counts) n =
      take (if ltb max_segments n then max_segments else n) counts

  pub get_heatmap : ℕ → Option Name → Stats Sample → Rc × Option (List ℕ)
  get_heatmap max_segments = read_ctx (λ ctx.
      if not ctx.config.track_hotspots
      then []
      else segments max_segments ctx.io_heatmap ctx.config.hotspot_segments)

  abbrev pub zero_map : ℕ → Option (List ℕ) → Option (List ℕ)
  zero_map n none = none
  zero_map n (some counts) = some (replicate n 0)

  abbrev pub reset_ctx : ℕ → StatsCtx Sample → StatsCtx Sample
  reset_ctx time ctx = record ctx {
    samples = zero_samples zero_sample;
    history = if ctx.has_history then reset_history zero_sample ctx.history else ctx.history;
    io_heatmap = zero_map ctx.config.hotspot_segments ctx.io_heatmap;
    start_time = time;
    total_samples = 0;
  }

  unfoldable pub stats_reset : ℕ → Option Name → Stats Sample → Rc × Stats Sample
  stats_reset time none s = (fail einval, s)
  stats_reset time (some name) s = elim (find_ctx zero_sample name s.contexts) [
    | none ↦ (fail enoent, s)
    | some i ↦ (
      ok,
      record s {
        contexts = set s.contexts i (reset_ctx time (get_or s.contexts i (zero_ctx zero_sample)));
      },
    )
  ]
