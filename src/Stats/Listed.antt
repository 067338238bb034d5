-- ===== src/Stats/Listed.antt =====
-- What src/libxbdev/stats.c tells of a device whose collection was started.
use nblock.Prelude.{
  ℕ, zero, suc, ◌≤◌, ◌<◌, true, false, List, [], ◌∷◌, none, some, set, length, get_or-set_self,
  Option-cases, ◌≡◌, ap, ◌∙◌, inl, inr, arith,
}
use nblock.Prelude.Names.{Name, same_name, same_name_self, clip_short}
use nblock.Prelude.Errno.{enoent, ok, fail}
use nblock.Stats.Collect.{
  Config, StartEnv, StatsCtx, Stats, zero_ctx, bears, find_ctx, find_free, fresh_ctx,
  find_or_alloc_stats_ctx, start_on_thread, collect_start,
}
use nblock.Stats.Report.{read_ctx, stats_get}
use nblock.Stats.Accounts.{find_free-range}
use nblock.Sync.{Sync, Completes, sync_call_lem}

module _ {Sample : Type 0} (zero_sample : Sample) where
  find_ctx-set :
      (name : Name) (contexts : List (StatsCtx Sample)) (i : ℕ) (new : StatsCtx Sample)
      → find_ctx zero_sample name contexts ≡ none
      → i < length contexts
      → bears zero_sample name new ≡ true
      → find_ctx zero_sample name (set contexts i new) ≡ some i
  unfolding find_ctx
  find_ctx-set name [] i new missing small here = elim small [ ]
  find_ctx-set name (ctx ∷ contexts) zero new missing small here = ground (arith, here)
  find_ctx-set name (ctx ∷ contexts) (suc i) new missing small here =
      elim (Option-cases (find_ctx zero_sample name contexts)) [
        | inl rest ↦
            let later = find_ctx-set name contexts i new rest (omega arith) here in
            ground (arith, missing, rest, later)
        | inr (j, at) ↦ absurd (ground (arith, missing, at))
      ]

  -- The start of a collection for a device that SPDK does not have and that has no context, where there
  -- is a free one, the name has at most 255 bytes and the request is completed: it returns -ENOENT,
  -- but the context stays taken, and the statistics of the device are then told, as zeros.
  pub stats_get-collect_start :
      (env : StartEnv) (sync : Sync) (name : Name) (config : Config) (i : ℕ) (s : Stats Sample)
      → env.exists ≡ false
      → Completes sync
      → length name ≤ 255
      → find_ctx zero_sample name s.contexts ≡ none
      → find_free zero_sample s.contexts ≡ some i
      → ((collect_start zero_sample env sync (some name) (some config) s).0 ≡ fail enoent)
        × (stats_get zero_sample false
              (some name)
              (collect_start zero_sample env sync (some name) (some config) s).1
            ≡ (ok, some zero_sample))
  unfolding collect_start find_or_alloc_stats_ctx start_on_thread stats_get read_ctx
  stats_get-collect_start env sync name config i s lost done short missing free =
      let (small, _) = find_free-range zero_sample s.contexts i free in
      let new = fresh_ctx zero_sample name in
      let t : Stats Sample = record s { contexts = set s.contexts i new } in
      let sent = sync_call_lem sync (start_on_thread zero_sample env config i) t done in
      let named : same_name new.device_name name ≡ true =
        ap (λ n. same_name n name) (clip_short name short) ∙ same_name_self name in
      let found = find_ctx-set name s.contexts i new missing small named in
      let at = get_or-set_self s.contexts i new (zero_ctx zero_sample) small in
      (
        ground (arith, missing, free, lost, sent),
        ground (arith, missing, free, lost, sent, found, at),
      )
