-- ===== src/Raid/Failures.antt =====
-- How the state check of src/libxbdev/raid.c spends the hot spares on the disks that failed.
use mathlib.Core.Path.{subst}
use nblock.Prelude.{
  ℕ, ◌<◌, ◌==◌, false, List, [], ◌∷◌, ◌++◌, Option, none, some, get_or, set, take, Bool-cases,
  Option-cases, ◌≡◌, refl, sym, ap, ◌∙◌, append-nil, append_assoc, inl, inr, arith,
}
use nblock.Prelude.Names.{Name, is_blank}
use nblock.Prelude.Errno.{Rc, ok}
use nblock.Raid.Spares.{SpareEntry}
use nblock.Raid.Find.{Found, dedicated, global, exhausted, find_hot_spare-Found}
use nblock.Raid.Events.{
  disk_failure, hot_spare_activated, raid_degraded, replace_disk, Raid, Disk, Detail, Env, notify,
}
use nblock.Raid.Status.{
  replace_or_degrade, handle_disk_failure, handle_faulty, notify_state, find_slot, zero_slot,
  check_slot, check_status, disk_faulty, state_event, new_record,
}
use nblock.Raid.Asked.{
  candidates, Named, faulty_names, paired, rest_after, replacements, replacements-append,
  replacements-notify, spares-notify, candidates-dedicated, candidates-global, candidates-NoneFree,
  Named-Taken, is_blank-take,
}

-- What failures of the disks in the array do to a state whose spares were `spares`.
abbrev Handled : Name → List Name → List SpareEntry → Raid → Raid → Type 0
Handled md_name disks spares s t =
    (candidates md_name t.spares ≡ rest_after disks (candidates md_name spares))
    × (replacements t.log ≡ replacements s.log ++ paired md_name disks (candidates md_name spares))
    × Named t.spares

-- A search that found a spare, the first of the candidates.
replace_or_degrade-found :
    (env : Env) (md_name disk_name disk : Name) (s : Raid) (spares left : List SpareEntry)
    → candidates md_name spares ≡ disk ∷ candidates md_name left
    → Named left
    → is_blank disk ≡ false
    → Handled md_name
        (disk_name ∷ [])
        spares
        s
        (replace_or_degrade env md_name disk_name (ok, some (take 255 disk), left) s)
unfolding replace_or_degrade notify replacements paired rest_after
replace_or_degrade-found env md_name disk_name disk s spares left first named_left named_disk =
    let filled : is_blank (take 255 disk) ≡ false = is_blank-take 254 disk named_disk in
    let asked = replace_disk md_name disk_name (take 255 disk) in
    let searched : Raid = record s { spares = left; log = s.log ++ asked ∷ [] } in
    let told =
      replacements-notify env hot_spare_activated (some md_name) (some (take 255 disk)) searched in
    let more = replacements-append s.log (asked ∷ []) in
    rw (filled, first) (refl, told ∙ more, named_left)

-- One search and what follows it, from what the search may return.
replace_or_degrade-Found :
    (env : Env) (md_name disk_name : Name) (s : Raid) {spares : List SpareEntry}
    {r : Rc × Option Name × List SpareEntry}
    → Found md_name 256 spares r
    → Named spares
    → Handled md_name (disk_name ∷ []) spares s (replace_or_degrade env md_name disk_name r s)
unfolding replace_or_degrade notify paired rest_after
replace_or_degrade-Found env md_name disk_name s {spares} (dedicated {disk} {left} taken) named =
    let (named_left, named_disk) = Named-Taken taken named in
    replace_or_degrade-found env md_name disk_name disk s spares left (candidates-dedicated taken)
      named_left named_disk
replace_or_degrade-Found env md_name disk_name s {spares} (global {disk} {left} none_own taken)
      named =
    let (named_left, named_disk) = Named-Taken taken named in
    replace_or_degrade-found env md_name disk_name disk s spares left
      (candidates-global md_name taken none_own) named_left named_disk
replace_or_degrade-Found env md_name disk_name s {spares} (exhausted none_own none_global) named =
    let none_left = candidates-NoneFree md_name spares none_own none_global in
    let told =
      replacements-notify env raid_degraded (some md_name) none (record s { spares = spares }) in
    rw none_left (refl, told ∙ sym (append-nil (replacements s.log)), named)

handle_disk_failure_lem :
    (env : Env) (md_name disk_name : Name) (s : Raid)
    → Named s.spares
    → Handled md_name (disk_name ∷ []) s.spares s (handle_disk_failure env md_name disk_name s)
unfolding handle_disk_failure
handle_disk_failure_lem env md_name disk_name s named =
    let told = notify env disk_failure (some md_name) (some disk_name) s in
    let kept = spares-notify env disk_failure (some md_name) (some disk_name) s in
    let found = find_hot_spare-Found md_name 256 told.spares (omega arith) in
    let (left, asked, still) =
      replace_or_degrade-Found env md_name disk_name told found (subst Named (sym kept) named) in
    let quiet = replacements-notify env disk_failure (some md_name) (some disk_name) s in
    (
      left ∙ ap (λ l. rest_after (disk_name ∷ []) (candidates md_name l)) kept,
      asked
          ∙ ap (λ l. l ++ paired md_name (disk_name ∷ []) (candidates md_name told.spares)) quiet
          ∙ ap (λ l. replacements s.log ++ paired md_name (disk_name ∷ []) (candidates md_name l))
              kept,
      still,
    )

paired-nil : (md_name : Name) (disks : List Name) → paired md_name disks [] ≡ []
unfolding paired
paired-nil md_name [] = refl
paired-nil md_name (disk ∷ disks) = refl

rest_after-nil : (disks : List Name) → rest_after disks [] ≡ []
unfolding rest_after
rest_after-nil [] = refl
rest_after-nil (disk ∷ disks) = refl

-- The first failure, and then the others.
paired_cons :
    (md_name disk : Name) (disks spares : List Name)
    → paired md_name (disk ∷ []) spares ++ paired md_name disks (rest_after (disk ∷ []) spares)
      ≡ paired md_name (disk ∷ disks) spares
unfolding paired rest_after
paired_cons md_name disk disks [] = paired-nil md_name disks
paired_cons md_name disk disks (spare ∷ spares) = refl

rest_after_cons :
    (disk : Name) (disks spares : List Name)
    → rest_after disks (rest_after (disk ∷ []) spares) ≡ rest_after (disk ∷ disks) spares
unfolding rest_after
rest_after_cons disk disks [] = rest_after-nil disks
rest_after_cons disk disks (spare ∷ spares) = refl

handle_faulty_lem :
    (env : Env) (md_name : Name) (disks : List Disk) (s : Raid)
    → Named s.spares
    → Handled md_name (faulty_names disks) s.spares s (handle_faulty env md_name disks s)
unfolding handle_faulty faulty_names paired rest_after
handle_faulty_lem env md_name [] s named = (refl, sym (append-nil (replacements s.log)), named)
handle_faulty_lem env md_name (disk ∷ disks) s named =
    elim (Bool-cases (disk.state == disk_faulty)) [
      | inr works ↦
          let counts : faulty_names (disk ∷ disks) ≡ faulty_names disks = ground (arith, works) in
          let runs : handle_faulty env md_name (disk ∷ disks) s
              ≡ handle_faulty env md_name disks s =
            ground (arith, works) in
          subst (λ n. Handled md_name n s.spares s (handle_faulty env md_name (disk ∷ disks) s))
            (sym counts)
            (subst (Handled md_name (faulty_names disks) s.spares s) (sym runs)
              (handle_faulty_lem env md_name disks s named))
      | inl faulty ↦
          let handled = handle_disk_failure env md_name disk.name s in
          let (left, asked, still) = handle_disk_failure_lem env md_name disk.name s named in
          let (later, more, named_end) = handle_faulty_lem env md_name disks handled still in
          let names = faulty_names disks in
          let spares = candidates md_name s.spares in
          let first = paired md_name (disk.name ∷ []) spares in
          let others = paired md_name names (rest_after (disk.name ∷ []) spares) in
          let counts : faulty_names (disk ∷ disks) ≡ disk.name ∷ names = ground (arith, faulty) in
          let runs : handle_faulty env md_name (disk ∷ disks) s
              ≡ handle_faulty env md_name disks handled =
            ground (arith, faulty) in
          let all : Handled md_name (disk.name ∷ names) s.spares s
              (handle_faulty env md_name disks handled) =
            (
              later ∙ ap (rest_after names) left ∙ rest_after_cons disk.name names spares,
              more
                  ∙ ap (λ l. replacements handled.log ++ paired md_name names l) left
                  ∙ ap (λ l. l ++ others) asked
                  ∙ append_assoc (replacements s.log) first others
                  ∙ ap (λ l. replacements s.log ++ l) (paired_cons md_name disk.name names spares),
              named_end,
            ) in
          subst (λ n. Handled md_name n s.spares s (handle_faulty env md_name (disk ∷ disks) s))
            (sym counts) (subst (Handled md_name (disk.name ∷ names) s.spares s) (sym runs) all)
    ]

notify_state_lem :
    (env : Env) (md_name : Name) (last now : ℕ) (s : Raid)
    → ((notify_state env md_name last now s).spares ≡ s.spares)
      × (replacements (notify_state env md_name last now s).log ≡ replacements s.log)
unfolding notify_state
notify_state_lem env md_name last now s = elim (Bool-cases (last == now)) [
  | inl same ↦ (ground (arith, same), ground (arith, same))
  | inr differ ↦ elim (Option-cases (state_event last now)) [
    | inl quiet ↦ (ground (arith, differ, quiet), ground (arith, differ, quiet))
    | inr (type, raised) ↦ (
      ground (arith, differ, raised, spares-notify env type (some md_name) none s),
      ground (arith, differ, raised, replacements-notify env type (some md_name) none s),
    )
  ]
]

-- If no spare has an empty name, and a check that finds the detail and the array's own record sees the
-- number of failed disks risen, then xbdev_md_manage is asked for exactly these replacements in the
-- array: the first disk that the detail calls faulty by the first free spare, the second by the second,
-- and so on, as long as there are both, where the free spares of the array come before the free global
-- ones. The spares that are then free for the array are those that were not named.
pub replacements-check_status :
    (env : Env) (md_name : Name) (detail : Detail) (i : ℕ) (s : Raid)
    → Named s.spares
    → env.detail s.log md_name ≡ some detail
    → find_slot md_name s.states ≡ some i
    → is_blank (get_or s.states i zero_slot).md_name ≡ false
    → (get_or s.states i zero_slot).failed_disks < detail.failed_disks
    → let faulty = faulty_names (take detail.raid_disks detail.disks) in
      let t = check_status env (some md_name) s in
      (replacements t.log
        ≡ replacements s.log ++ paired md_name faulty (candidates md_name s.spares))
      × (candidates md_name t.spares ≡ rest_after faulty (candidates md_name s.spares))
unfolding check_status check_slot
replacements-check_status env md_name detail i s named told found own risen =
    let disks = take detail.raid_disks detail.disks in
    let slot = get_or s.states i zero_slot in
    let state_told = notify_state env md_name slot.last_state detail.state s in
    let (kept, quiet) = notify_state_lem env md_name slot.last_state detail.state s in
    let (left, asked, still) =
      handle_faulty_lem env md_name disks state_told (subst Named (sym kept) named) in
    let handled = handle_faulty env md_name disks state_told in
    let faulty = faulty_names disks in
    let runs : check_status env (some md_name) s
        ≡ record handled { states = set handled.states i (new_record slot.md_name detail) } =
      ground (arith, told, found, own) in
    (
      ap (λ (v : Raid). replacements v.log) runs
          ∙ asked
          ∙ ap (λ l. l ++ paired md_name faulty (candidates md_name state_told.spares)) quiet
          ∙ ap (λ l. replacements s.log ++ paired md_name faulty (candidates md_name l)) kept,
      ap (λ (v : Raid). candidates md_name v.spares) runs
          ∙ left
          ∙ ap (λ l. rest_after faulty (candidates md_name l)) kept,
    )
