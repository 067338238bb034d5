-- ===== src/Stats/Accounts.antt =====
-- The count of the pollers of src/libxbdev/stats.c: SPDK has exactly those that the contexts have, also
-- after a start or a stop.
use mathlib.Core.Path.{subst}
use nblock.Prelude.{
  ℕ, zero, suc, ◌+◌, ◌-◌, ◌<◌, ◌≤◌, true, false, List, [], ◌∷◌, Option, none, some, get_or, set,
  length, length-set, Bool-cases, Option-cases, ◌≡◌, refl, sym, ◌∙◌, inl, inr, arith,
}
use nblock.Prelude.Names.{Name}
use nblock.Stats.Collect.{
  Config, StartEnv, StatsCtx, Stats, zero_ctx, bears, find_ctx, find_free, fresh_ctx,
  find_or_alloc_stats_ctx, give_history, give_heatmap, start_ctx, held, start_on_thread,
  collect_start, stop_on_thread,
}
use nblock.Sync.{Sync, sync_call, sync_call-keeps}

module _ {Sample : Type 0} (zero_sample : Sample) where
  abbrev pub Ctx : Type 0
  Ctx = StatsCtx Sample

  abbrev pub ctx_at : List Ctx → ℕ → Ctx
  ctx_at contexts i = get_or contexts i (zero_ctx zero_sample)

  unfoldable pub total : List Ctx → ℕ
  total [] = 0
  total (ctx ∷ contexts) = held zero_sample ctx + total contexts

  -- A context that is not active has no poller.
  abbrev pub EachIdle : List Ctx → Type 0
  EachIdle [] = Unit {0}
  EachIdle (ctx ∷ contexts) = (ctx.active ≡ false → ctx.poller ≡ false) × EachIdle contexts

  -- The module is up, and SPDK has as many pollers of it as there are contexts with one, all active.
  pub record Accounted (s : Stats Sample) : Type 0 where
    pub up : s.initialized ≡ true
    pub counted : s.pollers ≡ total s.contexts
    pub idle : EachIdle s.contexts

  total-set :
      (contexts : List Ctx) (i : ℕ) (new : Ctx)
      → i < length contexts
      → total (set contexts i new) + held zero_sample (ctx_at contexts i)
        ≡ (total contexts + held zero_sample new)
  unfolding total
  total-set [] i new small = elim small [ ]
  total-set (ctx ∷ contexts) zero new small = omega arith
  total-set (ctx ∷ contexts) (suc i) new small =
      omega (arith, total-set contexts i new (omega arith))

  -- A change that leaves the poller, also at a place that is not there.
  total-set_same :
      (contexts : List Ctx) (i : ℕ) (new : Ctx)
      → new.poller ≡ (ctx_at contexts i).poller
      → total (set contexts i new) ≡ total contexts
  unfolding total
  total-set_same [] i new same = refl
  total-set_same (ctx ∷ contexts) zero new same = ground (arith, same)
  total-set_same (ctx ∷ contexts) (suc i) new same =
      omega (arith, total-set_same contexts i new same)

  EachIdle-set :
      (contexts : List Ctx) (i : ℕ) (new : Ctx)
      → EachIdle contexts
      → (new.active ≡ false → new.poller ≡ false)
      → EachIdle (set contexts i new)
  EachIdle-set [] i new all idle = tt
  EachIdle-set (ctx ∷ contexts) zero new all idle = (idle, all.1)
  EachIdle-set (ctx ∷ contexts) (suc i) new all idle =
      (all.0, EachIdle-set contexts i new all.1 idle)

  pub EachIdle-at :
      (contexts : List Ctx) (i : ℕ)
      → EachIdle contexts
      → (ctx_at contexts i).active ≡ false
      → (ctx_at contexts i).poller ≡ false
  EachIdle-at [] i all down = refl
  EachIdle-at (ctx ∷ contexts) zero all down = all.0 down
  EachIdle-at (ctx ∷ contexts) (suc i) all down = EachIdle-at contexts i all.1 down

  pub find_ctx-range :
      (name : Name) (contexts : List Ctx) (i : ℕ)
      → find_ctx zero_sample name contexts ≡ some i
      → (i < length contexts) × (bears zero_sample name (ctx_at contexts i) ≡ true)
  unfolding find_ctx
  find_ctx-range name [] i found = absurd (cc found)
  find_ctx-range name (ctx ∷ contexts) i found = elim (Bool-cases (bears zero_sample name ctx)) [
    | inl here ↦ let at : i ≡ 0 = ground (arith, found, here) in rw at (omega arith, here)
    | inr there ↦ elim (Option-cases (find_ctx zero_sample name contexts)) [
      | inl stuck ↦ absurd (ground (arith, found, there, stuck))
      | inr (j, at) ↦
          let step : i ≡ suc j = ground (arith, found, there, at) in
          let (small, fits) = find_ctx-range name contexts j at in rw step (omega arith, fits)
    ]
  ]

  pub find_free-range :
      (contexts : List Ctx) (i : ℕ)
      → find_free zero_sample contexts ≡ some i
      → (i < length contexts) × ((ctx_at contexts i).active ≡ false)
  unfolding find_free
  find_free-range [] i found = absurd (cc found)
  find_free-range (ctx ∷ contexts) i found = elim (Bool-cases ctx.active) [
    | inr here ↦ let at : i ≡ 0 = ground (arith, found, here) in rw at (omega arith, here)
    | inl there ↦ elim (Option-cases (find_free zero_sample contexts)) [
      | inl stuck ↦ absurd (ground (arith, found, there, stuck))
      | inr (j, at) ↦
          let step : i ≡ suc j = ground (arith, found, there, at) in
          let (small, free) = find_free-range contexts j at in rw step (omega arith, free)
    ]
  ]

  held-le-total :
      (contexts : List Ctx) (i : ℕ) → held zero_sample (ctx_at contexts i) ≤ total contexts
  unfolding total
  held-le-total [] i = omega arith
  held-le-total (ctx ∷ contexts) zero = omega arith
  held-le-total (ctx ∷ contexts) (suc i) = omega (arith, held-le-total contexts i)

  -- A context is replaced by another, and the number of pollers changes as the contexts' does.
  Accounted-set :
      (s : Stats Sample) (i : ℕ) (new : Ctx)
      → Accounted s
      → i < length s.contexts
      → (new.active ≡ false → new.poller ≡ false)
      → Accounted (record s {
        contexts = set s.contexts i new;
        pollers = s.pollers - held zero_sample (ctx_at s.contexts i) + held zero_sample new;
      })
  Accounted-set s i new v small idle =
      let sum = total-set s.contexts i new small in
      record {
        up = v.up;
        counted = omega (arith, sum, v.counted, held-le-total s.contexts i);
        idle = EachIdle-set s.contexts i new v.idle idle;
      }

  pub Accounted-same :
      (s : Stats Sample) (i : ℕ) (new : Ctx)
      → Accounted s
      → new.poller ≡ (ctx_at s.contexts i).poller
      → (new.active ≡ false → new.poller ≡ false)
      → Accounted (record s { contexts = set s.contexts i new })
  Accounted-same s i new v poller idle = record {
    up = v.up;
    counted = v.counted ∙ sym (total-set_same s.contexts i new poller);
    idle = EachIdle-set s.contexts i new v.idle idle;
  }

  -- A context that is found or allocated is in the table.
  record Placed (i : ℕ) (s : Stats Sample) : Type 0 where
    sound : Accounted s
    small : i < length s.contexts

  Placed-find_or_alloc :
      (name : Name) (s : Stats Sample) (i : ℕ)
      → Accounted s
      → (find_or_alloc_stats_ctx zero_sample name s).0 ≡ some i
      → Placed i (find_or_alloc_stats_ctx zero_sample name s).1
  unfolding find_or_alloc_stats_ctx
  Placed-find_or_alloc name s i v got = elim (Option-cases (find_ctx zero_sample name s.contexts)) [
    | inr (j, at) ↦
        let (small, here) = find_ctx-range name s.contexts j at in
        let e : j ≡ i = ground (arith, got, at) in
        let same : (find_or_alloc_stats_ctx zero_sample name s).1 ≡ s = ground (arith, at) in
        subst (Placed i) (sym same) (record { sound = v; small = omega (arith, small, e) })
    | inl missing ↦ elim (Option-cases (find_free zero_sample s.contexts)) [
      | inl full ↦ absurd (ground (arith, got, missing, full))
      | inr (j, at) ↦
          let (small, free) = find_free-range s.contexts j at in
          let e : j ≡ i = ground (arith, got, missing, at) in
          let new = fresh_ctx zero_sample name in
          let off = EachIdle-at s.contexts j v.idle free in
          let t : Stats Sample = record s { contexts = set s.contexts j new } in
          let same : (find_or_alloc_stats_ctx zero_sample name s).1 ≡ t =
            ground (arith, missing, at) in
          subst (Placed i) (sym same) (record {
            sound = Accounted-same s j new v (sym off) (λ down. refl);
            small = omega (arith, small, e, length-set s.contexts j new);
          })
    ]
  ]

  full_table :
      (name : Name) (s : Stats Sample)
      → (find_or_alloc_stats_ctx zero_sample name s).0 ≡ none
      → (find_or_alloc_stats_ctx zero_sample name s).1 ≡ s
  unfolding find_or_alloc_stats_ctx
  full_table name s full = elim (Option-cases (find_ctx zero_sample name s.contexts)) [
    | inr (j, at) ↦ absurd (ground (arith, full, at))
    | inl missing ↦ elim (Option-cases (find_free zero_sample s.contexts)) [
      | inl none_free ↦ ground (arith, missing, none_free)
      | inr (j, at) ↦ absurd (ground (arith, full, missing, at))
    ]
  ]

  -- The context that a start leaves is active.
  start_ctx-active :
      (env : StartEnv) (config : Config) (ctx : Ctx)
      → (start_ctx zero_sample env config ctx).1.active ≡ true
  unfolding start_ctx give_history give_heatmap
  start_ctx-active env config ctx = ground arith

  Accounted-start_on_thread :
      (env : StartEnv) (config : Config) (i : ℕ) (s : Stats Sample)
      → Accounted s
      → i < length s.contexts
      → Accounted (start_on_thread zero_sample env config i s).1
  unfolding start_on_thread
  Accounted-start_on_thread env config i s v small =
      let new = (start_ctx zero_sample env config (ctx_at s.contexts i)).1 in
      let up = start_ctx-active env config (ctx_at s.contexts i) in
      let done = Accounted-set s i new v small (λ down. absurd (cc (up, down))) in
      ground (arith, v, done)

  pub Accounted-collect_start :
      (env : StartEnv) (sync : Sync) (name : Option Name) (config : Option Config)
      (s : Stats Sample)
      → Accounted s
      → Accounted (collect_start zero_sample env sync name config s).1
  unfolding collect_start
  Accounted-collect_start env sync none config s v = v
  Accounted-collect_start env sync (some name) none s v = v
  Accounted-collect_start env sync (some name) (some config) s v =
      let found = find_or_alloc_stats_ctx zero_sample name s in
      elim (Option-cases found.0) [
        | inl full ↦
            let same : (collect_start zero_sample env sync (some name) (some config) s).1
                ≡ found.1 =
              ground (arith, full) in
            subst Accounted (sym (same ∙ full_table name s full)) v
        | inr (i, at) ↦
            let placed = Placed-find_or_alloc name s i v at in
            let handler = start_on_thread zero_sample env config i in
            let done = Accounted-start_on_thread env config i found.1 placed.sound placed.small in
            let same : (collect_start zero_sample env sync (some name) (some config) s).1
                ≡ (sync_call sync handler found.1).1 =
              ground (arith, at) in
            subst Accounted (sym same)
              (sync_call-keeps Accounted sync handler found.1 placed.sound done)
      ]

  pub Accounted-stop_on_thread :
      (name : Name) (s : Stats Sample)
      → Accounted s
      → Accounted (stop_on_thread zero_sample name s).1
  unfolding stop_on_thread
  Accounted-stop_on_thread name s v = elim (Option-cases (find_ctx zero_sample name s.contexts)) [
    | inl missing ↦ ground (arith, missing, v)
    | inr (i, at) ↦
        let (small, here) = find_ctx-range name s.contexts i at in
        let new : Ctx = record (ctx_at s.contexts i) { poller = false; active = false } in
        let done = Accounted-set s i new v small (λ down. refl) in
        let t = (stop_on_thread zero_sample name s).1 in
        record {
          up = ground (arith, at, done.up);
          counted = ground (arith, at, done.counted);
          idle =
              let e : t.contexts ≡ set s.contexts i new = ground (arith, at) in
              subst EachIdle (sym e) done.idle;
        }
  ]
