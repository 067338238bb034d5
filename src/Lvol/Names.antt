-- ===== src/Lvol/Names.antt =====
-- The names of logical volumes in src/libxbdev/lvol.c, `lvs_name/lvol_name`, and the renaming.
use mathlib.Core.Path.{subst}
use nblock.Prelude.{
  ℕ, ◌<◌, Bool, true, not, ◌&&◌, ◌==◌, if◌then◌else◌, List, [], ◌∷◌, ◌++◌, Option, Option-cases,
  Bool-cases, some, length, ◌≡◌, ◌↔◌, refl, inl, inr, ap, ap₂, sym, ◌∙◌, arith,
}
use nblock.Prelude.Names.{Name, same_name}
use nblock.Prelude.Errno.{einval, fail}
use nblock.Sync.{Sync, Completes, sync_call_lem}
use nblock.Lvol.{
  Op, lvol_rename_op, Spdk, slash, split_name, parsed, parse_lvol_name, with_lvol, rename_on_thread,
  rename,
}

-- No byte is the separator.
unfoldable pub no_slash : Name → Bool
no_slash [] = true
no_slash (c ∷ name) = not (c == slash) && no_slash name

-- Two names in one result.
abbrev both : Name → Name → Option (Name × Name)
both a b = some (a, b)

both-inj : (a b c d : Name) → both a b ≡ both c d → (a ≡ c) × (b ≡ d)
both-inj a b c d e = (cc e, cc e)

parsed-inj : (a b c d : Name) → parsed a b ≡ parsed c d → (a ≡ c) × (b ≡ d)
parsed-inj a b c d e = (cc e, cc e)

split_name-join :
    (lvs lvol : Name) → no_slash lvs ≡ true → split_name (lvs ++ slash ∷ lvol) ≡ some (lvs, lvol)
unfolding split_name no_slash
split_name-join [] lvol clean = refl
split_name-join (c ∷ lvs) lvol clean =
    let rest = split_name-join lvs lvol (ground (arith, clean)) in ground (arith, clean, rest)

split_name-parts :
    (full lvs lvol : Name)
    → split_name full ≡ some (lvs, lvol)
    → (full ≡ lvs ++ slash ∷ lvol) × (no_slash lvs ≡ true)
unfolding split_name no_slash
split_name-parts [] lvs lvol e = absurd (cc e)
split_name-parts (c ∷ full) lvs lvol e = elim (Bool-cases (c == slash)) [
  | inl at ↦
      let (empty, rest) = both-inj [] full lvs lvol (ground (arith, e, at)) in
      let sep : c ≡ slash = ground (arith, at) in (cc (empty, rest, sep), ap no_slash (sym empty))
  | inr other ↦ elim (Option-cases (split_name full)) [
    | inl stuck ↦ absurd (ground (arith, e, other, stuck))
    | inr ((first, second), found) ↦
        let (joined, clean) = split_name-parts full first second found in
        let (front, back) =
          both-inj (c ∷ first) second lvs lvol (ground (arith, e, other, found)) in
        let bytes : no_slash (c ∷ first) ≡ true = ground (arith, other, clean) in
        (
          ap (λ n. c ∷ n) joined ∙ ap₂ (λ a b. a ++ slash ∷ b) front back,
          sym (ap no_slash front) ∙ bytes,
        )
  ]
]

-- `_xbdev_parse_lvol_name` with room for two strings: it gives the two parts exactly when the name is
-- their concatenation with a `/` between them, the first has no `/`, and both fit with their final 0.
pub parse_lvol_name_iff :
    (lvs_size lvol_size : ℕ) (full lvs lvol : Name)
    → (parse_lvol_name lvs_size lvol_size (some full) ≡ parsed lvs lvol) ↔ (
        (full ≡ lvs ++ slash ∷ lvol)
        × (no_slash lvs ≡ true)
        × (length lvs < lvs_size)
        × (length lvol < lvol_size))
unfolding parse_lvol_name
parse_lvol_name_iff lvs_size lvol_size full lvs lvol = (
  λ e. elim (Option-cases (split_name full)) [
    | inl stuck ↦ absurd (ground (arith, e, stuck))
    | inr ((first, second), found) ↦
        let (joined, clean) = split_name-parts full first second found in
        let (front, back) = parsed-inj first second lvs lvol (ground (arith, e, found)) in
        let small : length first < lvs_size = ground (arith, e, found) in
        let fits : length second < lvol_size = ground (arith, e, found) in
        (
          joined ∙ ap₂ (λ a b. a ++ slash ∷ b) front back,
          sym (ap no_slash front) ∙ clean,
          subst (λ n. length n < lvs_size) front small,
          subst (λ n. length n < lvol_size) back fits,
        )
  ],
  λ (e, clean, small, fits).
      let found = ap split_name e ∙ split_name-join lvs lvol clean in
      ground (arith, found, small, fits),
)

-- A rename
pub rename_lem :
    (env : Spdk) (sync : Sync) (lvs lvol new_lvs new_lvol : Name) (ops : List Op)
    → Completes sync
    → no_slash lvs ≡ true
    → length lvs < 256
    → length lvol < 256
    → no_slash new_lvs ≡ true
    → length new_lvs < 256
    → length new_lvol < 256
    → env.has_lvs lvs ≡ true
    → env.has_lvol lvs lvol ≡ true
    → rename env sync (some (lvs ++ slash ∷ lvol)) (some (new_lvs ++ slash ∷ new_lvol)) ops ≡ (
        if same_name lvs new_lvs
        then (env.completion, ops ++ lvol_rename_op lvs lvol new_lvol ∷ [])
        else (fail einval, ops))
unfolding rename rename_on_thread with_lvol
rename_lem env sync lvs lvol new_lvs new_lvol ops done clean a b new_clean c d has has' =
    let joined = lvs ++ slash ∷ lvol in
    let new_joined = new_lvs ++ slash ∷ new_lvol in
    let old = (parse_lvol_name_iff 256 256 joined lvs lvol).1 (refl, clean, a, b) in
    let new = (parse_lvol_name_iff 256 256 new_joined new_lvs new_lvol).1 (refl, new_clean, c, d) in
    sync_call_lem sync (rename_on_thread env joined new_joined) ops done
    ∙ ground (arith, old, new, has, has')
