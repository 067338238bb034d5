-- ===== src/Md/Faults.antt =====
-- Failed disks and spares in src/libxbdev/md.c: what a repair and a removal take back, and what the
-- report on an array says.
use nblock.Prelude.{
  ℕ, zero, suc, ◌+◌, ◌<◌, ◌≤◌, ◌==◌, Bool, true, false, not, List, [], ◌∷◌, ◌++◌, Option, none,
  some, get_or, set, take, take_all, length, length-append, length-take, Option-cases, ◌≡◌, refl,
  sym, ap, ◌∙◌, inl, inr, arith,
}
use nblock.Prelude.Names.{Name, same_name_self}
use nblock.Prelude.Errno.{ok}
use nblock.Md.Device.{MdDev, find_disk}
use nblock.Md.Manage.{
  SpareEnv, add_spare, remove_spare, add_spare_to, remove_spare_from, remove_at, run_command,
  set_disk_state, replaced,
}
use nblock.Md.Report.{count_working, count_failed, Sizes, MdDetail, detail_of, state_of, active}
use nblock.Md.Sound.{Sound, count_failed-set, failure}

set-set_back :
    (states : List Bool) (i : ℕ) (works : Bool)
    → get_or states i false ≡ true
    → set (set states i works) i true ≡ states
set-set_back [] i works was = refl
set-set_back (s ∷ states) zero works was = ap (λ b. b ∷ states) (sym was)
set-set_back (s ∷ states) (suc i) works was = ap (◌∷◌ s) (set-set_back states i works was)

get_or-set_here : (states : List Bool) (i : ℕ) → get_or (set states i false) i false ≡ false
get_or-set_here [] i = refl
get_or-set_here (s ∷ states) zero = refl
get_or-set_here (s ∷ states) (suc i) = get_or-set_here states i

-- In an array that is degraded exactly if it counts a failed disk, a disk that works and is set faulty
-- and then normal leaves the record as it was, and both calls return 0.
set_normal-set_faulty :
    (disk : Name) (d : MdDev) (i : ℕ)
    → d.degraded ≡ not (d.failed_disk_count == 0)
    → find_disk disk d.disk_count d.disk_names ≡ some i
    → get_or d.disk_state i false ≡ true
    → ((set_disk_state true disk d).0 ≡ ok)
      × (set_disk_state false disk (set_disk_state true disk d).1 ≡ (ok, d))
unfolding set_disk_state
set_normal-set_faulty disk d i exact at works =
    let back = set-set_back d.disk_state i false works in
    let gone = get_or-set_here d.disk_state i in
    (ground (arith, at, works), ground (arith, exact, at, works, back, gone))

count-parts : (states : List Bool) → count_working states + count_failed states ≡ length states
unfolding count_working count_failed
count-parts [] = refl
count-parts (s ∷ states) = ground (arith, count-parts states)

-- The report on a sound array counts each disk once, as active or as failed; it counts all failed disks,
-- which are no fewer than the array's own count; and what it calls active and not degraded counts
-- none itself.
pub detail_of-counts :
    (sizes : Sizes) (percent : ℕ → ℕ) (measured : ℕ × ℕ) (d : MdDev) (old : MdDetail)
    → Sound d
    → (let detail = detail_of sizes percent measured d old in
        (detail.active_disks + detail.failed_disks ≡ detail.raid_disks)
        × (detail.failed_disks ≡ count_failed d.disk_state)
        × (d.failed_disk_count ≤ detail.failed_disks)
        × (detail.state ≡ active → d.failed_disk_count ≡ 0))
unfolding detail_of state_of
detail_of-counts sizes percent measured d old v =
    let all = take_all d.disk_count d.disk_state (omega (arith, v.stated)) in
    let parts = count-parts d.disk_state in
    (
      ground (arith, all, parts, v.stated),
      ground (arith, all),
      ground (arith, all, v.counted),
      λ e. ground (arith, v.calm, e),
    )

-- If a disk that works is replaced, without a rebuild, in an array that counts one failed disk, the
-- array is no longer degraded and counts none, but the disk that failed is still in it: as many
-- disks have failed as before.
pub replaced_working :
    (copied : Bool) (new_disk : Name) (i : ℕ) (d : MdDev)
    → Sound d
    → i < d.disk_count
    → get_or d.disk_state i false ≡ true
    → d.failed_disk_count ≡ 1
    → (let new = replaced copied false new_disk i d in
        (new.degraded ≡ false)
        × (new.failed_disk_count ≡ 0)
        × (count_failed new.disk_state ≡ count_failed d.disk_state)
        × (1 ≤ count_failed new.disk_state))
unfolding replaced
replaced_working copied new_disk i d v small works one =
    let more = count_failed-set d.disk_state i true (omega (arith, v.stated)) in
    let same = set-set_back d.disk_state i true works in
    let zero' : failure (get_or d.disk_state i false) ≡ 0 = ap failure works in
    let kept : count_failed (set d.disk_state i true) ≡ count_failed d.disk_state =
      omega (arith, more, zero') in
    (ground (arith, one), ground (arith, one), kept, omega (arith, kept, v.counted, one))

-- A name that is not among the first `count` entries is found behind them.
pub find_disk-append :
    (name : Name) (count : ℕ) (disks : List (Option Name))
    → count ≤ length disks
    → find_disk name count disks ≡ none
    → find_disk name (count + 1) (take count disks ++ some name ∷ []) ≡ some count
unfolding find_disk
find_disk-append name zero disks room missing = ground (arith, same_name_self name)
find_disk-append name (suc count) [] room missing = elim room [ ]
find_disk-append name (suc count) (disk ∷ disks) room missing =
    elim (Option-cases (find_disk name count disks)) [
      | inr (j, at) ↦ absurd (ground (arith, missing, at))
      | inl later ↦
          let found = find_disk-append name count disks (omega arith) later in
          let e : suc count + 1 ≡ suc (count + 1) = omega arith in
          rw e (ground (arith, missing, later, found))
    ]

remove_at-append :
    (disks : List (Option Name)) (disk : Option Name)
    → remove_at (length disks) (disks ++ disk ∷ []) ≡ disks
unfolding remove_at
remove_at-append [] disk = refl
remove_at-append (d ∷ disks) disk = ap (◌∷◌ d) (remove_at-append disks disk)

-- On a sound array, the removal of a spare that was just added returns 0 and gives back the record that
-- there was before, with exactly the spares in memory that were counted.
pub remove_spare-add_spare :
    (env env' : SpareEnv) (disk : Name) (d : MdDev)
    → Sound d
    → (run_command env (add_spare (some disk)) d).0 ≡ ok
    → run_command env' (remove_spare (some disk)) (run_command env (add_spare (some disk)) d).1
      ≡ (ok, record d { spare_disks = take d.spare_disk_count d.spare_disks })
unfolding run_command add_spare_to remove_spare_from
remove_spare-add_spare env env' disk d v good =
    let count = d.spare_disk_count in
    let kept = take count d.spare_disks in
    let n : length kept ≡ count = omega (arith, length-take count d.spare_disks, v.spares) in
    elim (Option-cases (find_disk disk count d.spare_disks)) [
      | inr (i, known) ↦ absurd (ground (arith, good, known))
      | inl missing ↦
          let found = find_disk-append disk count d.spare_disks v.spares missing in
          let longer = length-append kept (some disk ∷ []) in
          let all = take_all (count + 1) (kept ++ some disk ∷ []) (omega (arith, longer, n)) in
          let at = ap (λ k. remove_at k (kept ++ some disk ∷ [])) (sym n) in
          let back = at ∙ remove_at-append kept (some disk) in
          ground (arith, good, missing, found, all, back)
    ]
