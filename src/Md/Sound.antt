-- ===== src/Md/Sound.antt =====
-- What holds of the record of each active array of src/libxbdev/md.c, and that the functions on an SPDK
-- thread that change a record keep it.
use nblock.Prelude.{
  ℕ, zero, suc, ◌+◌, ◌-◌, ◌<◌, ◌≤◌, ◌==◌, ltb, if◌then◌else◌, Bool, true, false, List, [], ◌∷◌,
  ◌++◌, Option, none, some, get_or, set, take, length, length-set, length-append, length-take,
  Bool-cases, ltb→lt, Option-cases, ◌≡◌, refl, ap, ◌∙◌, inl, inr, arith,
}
use nblock.Prelude.Names.{Name}
use nblock.Md.Device.{MdDev, find_disk, holds}
use nblock.Md.Report.{count_failed}
use nblock.Md.Manage.{
  SpareEnv, Command, add_spare, remove_spare, fail_disk, rebuild, other_command, add_spare_to,
  remove_spare_from, remove_at, set_failed, fail_disk_of, rebuild_of, run_command, replaced,
  rebuild_control, set_working, set_disk_state, Floats, progress_of,
}

-- The arrays have as many entries as disks are counted, which are two at least; there are no fewer
-- spares in memory than are counted, and no fewer failed disks; an array that is not degraded counts
-- no failed disk.
pub record Sound (d : MdDev) : Type 0 where
  pub named : length d.disk_names ≡ d.disk_count
  pub stated : length d.disk_state ≡ d.disk_count
  pub enough : 2 ≤ d.disk_count
  pub spares : d.spare_disk_count ≤ length d.spare_disks
  pub counted : d.failed_disk_count ≤ count_failed d.disk_state
  pub calm : (if d.degraded then 0 else d.failed_disk_count) ≡ 0

pub find_disk-range :
    (name : Name) (count : ℕ) (disks : List (Option Name)) (i : ℕ)
    → find_disk name count disks ≡ some i
    → (i < count) × (holds name (get_or disks i none) ≡ true)
unfolding find_disk
find_disk-range name zero disks i found = absurd (cc found)
find_disk-range name (suc count) [] i found = absurd (cc found)
find_disk-range name (suc count) (disk ∷ disks) i found = elim (Bool-cases (holds name disk)) [
  | inl here ↦ let at : i ≡ 0 = ground (arith, found, here) in rw at (omega arith, here)
  | inr there ↦ elim (Option-cases (find_disk name count disks)) [
    | inl stuck ↦ absurd (ground (arith, found, there, stuck))
    | inr (j, at) ↦
        let step : i ≡ suc j = ground (arith, found, there, at) in
        let (small, fits) = find_disk-range name count disks j at in rw step (omega arith, fits)
  ]
]

-- What a disk adds to the number of failed ones.
abbrev pub failure : Bool → ℕ
failure works = if works then 0 else 1

pub count_failed-set :
    (states : List Bool) (i : ℕ) (works : Bool)
    → i < length states
    → count_failed (set states i works) + failure (get_or states i false)
      ≡ (count_failed states + failure works)
unfolding count_failed
count_failed-set [] i works small = elim small [ ]
count_failed-set (s ∷ states) zero works small = omega arith
count_failed-set (s ∷ states) (suc i) works small =
    omega (arith, count_failed-set states i works (omega arith))

-- A body keeps a sound record sound, active and under its name.
pub record Kept (d new : MdDev) : Type 0 where
  pub sound : Sound new
  pub up : new.active ≡ d.active
  pub same : new.name ≡ d.name

pub Kept-self : (d : MdDev) → Sound d → Kept d d
Kept-self d v = record { sound = v; up = refl; same = refl }

pub Kept-set_failed :
    (i : ℕ) (d : MdDev)
    → Sound d
    → i < d.disk_count
    → get_or d.disk_state i false ≡ true
    → Kept d (set_failed i d)
Kept-set_failed i d v small works =
    let more = count_failed-set d.disk_state i false (omega (arith, v.stated)) in
    let one : failure (get_or d.disk_state i false) ≡ 0 = ap failure works in
    record {
      sound = record {
        named = v.named;
        stated = length-set d.disk_state i false ∙ v.stated;
        enough = v.enough;
        spares = v.spares;
        counted = omega (arith, v.counted, more, one);
        calm = refl;
      };
      up = refl;
      same = refl;
    }

-- A disk that works again, whether or not it worked before, with the count lowered by one at most.
lowered :
    (d : MdDev) (i : ℕ)
    → Sound d
    → i < d.disk_count
    → d.failed_disk_count - 1 ≤ count_failed (set d.disk_state i true)
lowered d i v small =
    let less = count_failed-set d.disk_state i true (omega (arith, v.stated)) in
    ground (arith, v.counted, less)

pub Kept-set_working : (i : ℕ) (d : MdDev) → Sound d → i < d.disk_count → Kept d (set_working i d)
Kept-set_working i d v small = record {
  sound = record {
    named = v.named;
    stated = length-set d.disk_state i true ∙ v.stated;
    enough = v.enough;
    spares = v.spares;
    counted = lowered d i v small;
    calm = ground (arith, v.calm);
  };
  up = refl;
  same = refl;
}

pub Kept-replaced :
    (copied auto : Bool) (disk : Name) (i : ℕ) (d : MdDev)
    → Sound d
    → i < d.disk_count
    → Kept d (replaced copied auto disk i d)
unfolding replaced
Kept-replaced copied auto disk i d v small = record {
  sound = record {
    named = length-set d.disk_names i (if copied then some disk else none) ∙ v.named;
    stated = length-set d.disk_state i true ∙ v.stated;
    enough = v.enough;
    spares = v.spares;
    counted = lowered d i v small;
    calm = ground (arith, v.calm);
  };
  up = refl;
  same = refl;
}

pub Kept-set_disk_state :
    (faulty : Bool) (disk : Name) (d : MdDev) → Sound d → Kept d (set_disk_state faulty disk d).1
unfolding set_disk_state
Kept-set_disk_state faulty disk d v =
    elim (Option-cases (find_disk disk d.disk_count d.disk_names)) [
      | inl missing ↦ ground (arith, missing, Kept-self d v)
      | inr (i, at) ↦
          let small = (find_disk-range disk d.disk_count d.disk_names i at).0 in
          let working = Kept-set_working i d v small in
          elim (Bool-cases (get_or d.disk_state i false)) [
            | inl works ↦
                ground (arith, at, works, Kept-self d v, Kept-set_failed i d v small works)
            | inr failed ↦ ground (arith, at, failed, Kept-self d v, working)
          ]
    ]

length-remove_at :
    (i : ℕ) (disks : List (Option Name))
    → i < length disks
    → length (remove_at i disks) + 1 ≡ length disks
unfolding remove_at
length-remove_at i [] small = elim small [ ]
length-remove_at zero (disk ∷ disks) small = omega arith
length-remove_at (suc i) (disk ∷ disks) small =
    omega (arith, length-remove_at i disks (omega arith))

-- The spares of a record are replaced by as many as are counted, at least.
Kept-spares :
    (d : MdDev) (count : ℕ) (spares : List (Option Name))
    → Sound d
    → count ≤ length spares
    → Kept d (record d { spare_disks = spares; spare_disk_count = count })
Kept-spares d count spares v room = record {
  sound = record {
    named = v.named;
    stated = v.stated;
    enough = v.enough;
    spares = room;
    counted = v.counted;
    calm = v.calm;
  };
  up = refl;
  same = refl;
}

-- The spares that are counted, and one more entry.
grown :
    (d : MdDev) (entry : Option Name)
    → Sound d
    → length (take d.spare_disk_count d.spare_disks ++ entry ∷ []) ≡ d.spare_disk_count + 1
grown d entry v =
    length-append (take d.spare_disk_count d.spare_disks) (entry ∷ [])
    ∙ omega (arith, length-take d.spare_disk_count d.spare_disks, v.spares)

pub Kept-add_spare_to :
    (env : SpareEnv) (disk : Name) (d : MdDev) → Sound d → Kept d (add_spare_to env disk d).1
unfolding add_spare_to
Kept-add_spare_to env disk d v =
    let counted = take d.spare_disk_count d.spare_disks in
    let failed =
      Kept-spares d d.spare_disk_count (counted ++ none ∷ []) v (omega (arith, grown d none v)) in
    let done =
      Kept-spares d (d.spare_disk_count + 1) (counted ++ some disk ∷ []) v
        (omega (arith, grown d (some disk) v)) in
    ground (arith, Kept-self d v, failed, done)

pub Kept-remove_spare_from :
    (disk : Name) (d : MdDev) → Sound d → Kept d (remove_spare_from disk d).1
unfolding remove_spare_from
Kept-remove_spare_from disk d v =
    elim (Option-cases (find_disk disk d.spare_disk_count d.spare_disks)) [
      | inl missing ↦ ground (arith, missing, Kept-self d v)
      | inr (i, at) ↦
          let (small, _) = find_disk-range disk d.spare_disk_count d.spare_disks i at in
          let counted = take d.spare_disk_count d.spare_disks in
          let all : length counted ≡ d.spare_disk_count =
            omega (arith, length-take d.spare_disk_count d.spare_disks, v.spares) in
          let one = length-remove_at i counted (omega (arith, all, small)) in
          let left =
            Kept-spares d (d.spare_disk_count - 1) (remove_at i counted) v
              (omega (arith, all, one)) in
          ground (arith, at, left)
    ]

-- The flags of the rebuild do not matter.
Kept-rebuild :
    (d : MdDev) (active : Bool) (progress speed : ℕ)
    → Sound d
    → Kept d (record d {
      rebuild_active = active;
      rebuild_progress = progress;
      rebuild_speed_kb = speed;
    })
Kept-rebuild d active progress speed v = record {
  sound = record {
    named = v.named;
    stated = v.stated;
    enough = v.enough;
    spares = v.spares;
    counted = v.counted;
    calm = v.calm;
  };
  up = refl;
  same = refl;
}

pub Kept-fail_disk_of : (i : ℕ) (d : MdDev) → Sound d → Kept d (fail_disk_of i d).1
unfolding fail_disk_of
Kept-fail_disk_of i d v = elim (Bool-cases (ltb i d.disk_count)) [
  | inr outside ↦ ground (arith, outside, Kept-self d v)
  | inl inside ↦ elim (Bool-cases (get_or d.disk_state i false)) [
    | inr failed ↦ ground (arith, inside, failed, Kept-self d v)
    | inl works ↦
        let kept = Kept-set_failed i d v (ltb→lt i d.disk_count inside) works in
        ground (arith, inside, works, kept)
  ]
]

pub Kept-run_command :
    (env : SpareEnv) (cmd : Command) (d : MdDev) → Sound d → Kept d (run_command env cmd d).1
unfolding run_command rebuild_of
Kept-run_command env (add_spare none) d v = Kept-self d v
Kept-run_command env (add_spare (some disk)) d v = Kept-add_spare_to env disk d v
Kept-run_command env (remove_spare none) d v = Kept-self d v
Kept-run_command env (remove_spare (some disk)) d v = Kept-remove_spare_from disk d v
Kept-run_command env (fail_disk none) d v = Kept-self d v
Kept-run_command env (fail_disk (some i)) d v = Kept-fail_disk_of i d v
Kept-run_command env rebuild d v = ground (arith, Kept-self d v, Kept-rebuild d true 0 0 v)
Kept-run_command env (other_command c) d v = Kept-self d v

pub Kept-rebuild_control :
    (start : Option ℕ) (d : MdDev) → Sound d → Kept d (rebuild_control start d).1
unfolding rebuild_control
Kept-rebuild_control (some speed) d v = ground (arith, Kept-self d v, Kept-rebuild d true 0 speed v)
Kept-rebuild_control none d v =
    ground (arith, Kept-self d v, Kept-rebuild d false d.rebuild_progress d.rebuild_speed_kb v)

pub Kept-progress_of :
    (float : Floats) (progress : ℕ) (d : MdDev) → Sound d → Kept d (progress_of float progress d).1
unfolding progress_of
Kept-progress_of float progress d v =
    let kept = Kept-rebuild d d.rebuild_active progress d.rebuild_speed_kb v in
    ground (arith, Kept-self d v, kept, finished)
  where
    finished : Kept d (record d {
      rebuild_progress = progress;
      rebuild_active = false;
      degraded = if d.failed_disk_count == 0 then false else d.degraded;
    })
    finished = record {
      sound = record {
        named = v.named;
        stated = v.stated;
        enough = v.enough;
        spares = v.spares;
        counted = v.counted;
        calm = ground (arith, v.calm);
      };
      up = refl;
      same = refl;
    }
