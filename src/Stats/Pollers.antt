-- ===== src/Stats/Pollers.antt =====
-- The pollers of src/libxbdev/stats.c over sequences of calls, and at the end of the module.
use mathlib.Core.Path.{subst}
use nblock.Prelude.{
  ℕ, List, [], ◌∷◌, Option, none, some, set, Bool-cases, Option-cases, ◌≡◌, refl, sym, inl, inr,
  arith,
}
use nblock.Prelude.Names.{Name}
use nblock.Stats.Collect.{
  Config, StartEnv, Samples, StatsCtx, Stats, active_pollers, stats_fini, find_ctx, collect_start,
  stop_on_thread, collect_stop, poll_ctx, poll,
}
use nblock.Stats.Report.{reset_ctx, stats_reset}
use nblock.Sync.{Sync, sync_call, sync_call-keeps}
use nblock.Stats.Accounts.{
  ctx_at, total, EachIdle, Accounted, EachIdle-at, Accounted-same, Accounted-collect_start,
  Accounted-stop_on_thread,
}

-- The calls that can change the table, each with what the code outside the file answers.
pub data TableCall (Sample : Type 0) : Type 0 where
  start : StartEnv → Sync → Option Name → Option Config → TableCall Sample
  stop : Sync → Option Name → TableCall Sample
  sample_at : (Samples Sample → Samples Sample) → Option (Sample → Sample) → ℕ → TableCall Sample
  reset : ℕ → Option Name → TableCall Sample

module _ {Sample : Type 0} (zero_sample : Sample) where
  unfoldable pub run_call : TableCall Sample → Stats Sample → Stats Sample
  run_call (start env sync name config) s = (collect_start zero_sample env sync name config s).1
  run_call (stop sync name) s = (collect_stop zero_sample sync name s).1
  run_call (sample_at rates read i) s = poll zero_sample rates read i s
  run_call (reset time name) s = (stats_reset zero_sample time name s).1

  unfoldable pub run_calls : List (TableCall Sample) → Stats Sample → Stats Sample
  run_calls [] s = s
  run_calls (call ∷ calls) s = run_calls calls (run_call call s)

  Accounted-poll :
      (rates : Samples Sample → Samples Sample) (read : Option (Sample → Sample)) (i : ℕ)
      (s : Stats Sample)
      → Accounted zero_sample s
      → Accounted zero_sample (poll zero_sample rates read i s)
  unfolding poll poll_ctx
  Accounted-poll rates read i s v =
      let old = ctx_at zero_sample s.contexts i in
      let new = poll_ctx zero_sample rates read old in
      let off = EachIdle-at zero_sample s.contexts i v.idle in
      elim (Option-cases read) [
        | inl nothing' ↦
            Accounted-same zero_sample s i new v (ground (arith, nothing'))
              (λ down. ground (arith, nothing', off, down))
        | inr (r, told) ↦
            Accounted-same zero_sample s i new v (ground (arith, told))
              (λ down. ground (arith, told, off, down))
      ]

  Accounted-stats_reset :
      (time : ℕ) (name : Option Name) (s : Stats Sample)
      → Accounted zero_sample s
      → Accounted zero_sample (stats_reset zero_sample time name s).1
  unfolding stats_reset
  Accounted-stats_reset time none s v = v
  Accounted-stats_reset time (some name) s v =
      elim (Option-cases (find_ctx zero_sample name s.contexts)) [
        | inl missing ↦ ground (arith, missing, v)
        | inr (i, at) ↦
            let new = reset_ctx zero_sample time (ctx_at zero_sample s.contexts i) in
            let done =
              Accounted-same zero_sample s i new v refl
                (EachIdle-at zero_sample s.contexts i v.idle) in
            let same : (stats_reset zero_sample time (some name) s).1
                ≡ record s { contexts = set s.contexts i new } =
              ground (arith, at) in
            subst (Accounted zero_sample) (sym same) done
      ]

  pub Accounted-run :
      (calls : List (TableCall Sample)) (s : Stats Sample)
      → Accounted zero_sample s
      → Accounted zero_sample (run_calls calls s)
  unfolding run_calls run_call collect_stop
  Accounted-run [] s v = v
  Accounted-run (start env sync name config ∷ calls) s v =
      Accounted-run calls (collect_start zero_sample env sync name config s).1
        (Accounted-collect_start zero_sample env sync name config s v)
  Accounted-run (stop sync none ∷ calls) s v = Accounted-run calls s v
  Accounted-run (stop sync (some name) ∷ calls) s v =
      let handler = stop_on_thread zero_sample name in
      let done =
        sync_call-keeps (Accounted zero_sample) sync handler s v
          (Accounted-stop_on_thread zero_sample name s v) in
      Accounted-run calls (sync_call sync handler s).1 done
  Accounted-run (sample_at rates read i ∷ calls) s v =
      Accounted-run calls (poll zero_sample rates read i s) (Accounted-poll rates read i s v)
  Accounted-run (reset time name ∷ calls) s v =
      Accounted-run calls (stats_reset zero_sample time name s).1
        (Accounted-stats_reset time name s v)

  active-total :
      (contexts : List (StatsCtx Sample))
      → EachIdle zero_sample contexts
      → active_pollers zero_sample contexts ≡ total zero_sample contexts
  unfolding active_pollers total
  active-total [] all = refl
  active-total (ctx ∷ contexts) all = elim (Bool-cases ctx.active) [
    | inl up ↦ ground (arith, up, active-total contexts all.1)
    | inr down ↦ ground (arith, down, all.0 down, active-total contexts all.1)
  ]

  -- While the module is up and SPDK has exactly the pollers of the active contexts, any sequence of
  -- starts, stops, samples and resets keeps this so, whatever SPDK and the allocator answer and whatever
  -- becomes of the requests; and the end of the module then gives back every poller.
  pub pollers-stats_fini :
      (calls : List (TableCall Sample)) (s : Stats Sample)
      → Accounted zero_sample s
      → Accounted zero_sample (run_calls calls s)
        × ((stats_fini zero_sample (run_calls calls s)).pollers ≡ 0)
  unfolding stats_fini
  pollers-stats_fini calls s v =
      let end = Accounted-run calls s v in
      let all = active-total (run_calls calls s).contexts end.idle in
      (end, ground (arith, end.up, end.counted, all))
