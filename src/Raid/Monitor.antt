-- ===== src/Raid/Monitor.antt =====
-- The monitor of src/libxbdev/raid.c, its timer, and the start and end of the module.
use mathlib.Core.Path.{subst}
use nblock.Prelude.{
  ℕ, zero, suc, ◌+◌, ◌==◌, if◌then◌else◌, Bool, true, false, not, List, [], ◌∷◌, Option, none, some,
  length, ◌≡◌, refl, ap, ◌∙◌, arith,
}
use nblock.Prelude.Names.{Name}
use nblock.Prelude.Errno.{enomem, Rc, ok, fail}
use nblock.Raid.Spares.{cleanup_hot_spares}
use nblock.Raid.Events.{Raid, Env}
use nblock.Raid.Status.{check_status}

-- `spdk_poller_register` gives a handle, or NULL, which is an argument here; SPDK calls the poller
-- again and again until the handle is given back.
unfoldable pub register_poller : Option ℕ → Raid → Raid
register_poller none s = record s { timer = none }
register_poller (some h) s = record s { timer = some h; pollers = h ∷ s.pollers }

unfoldable pub raid_monitor_timer_cb : Option ℕ → Raid → Raid
raid_monitor_timer_cb handle s = if not s.active then s else register_poller handle s

unfoldable pub md_monitor_start : Option ℕ → Raid → Rc × Raid
md_monitor_start handle s =
    let started = register_poller handle (record s { active = true }) in
    if s.active then (ok, s) else elim handle [
      | none ↦ (fail enomem, record started { active = false })
      | some h ↦ (ok, started)
    ]

unfoldable pub drop_handle : ℕ → List ℕ → List ℕ
drop_handle h [] = []
drop_handle h (x ∷ xs) = let rest = drop_handle h xs in if x == h then xs else x ∷ rest

unfoldable pub md_monitor_stop : Raid → Rc × Raid
md_monitor_stop s = if not s.active then (ok, s) else elim s.timer [
  | none ↦ (ok, record s { active = false })
  | some h ↦ (ok, record s { active = false; timer = none; pollers = drop_handle h s.pollers })
]

-- The devices that SPDK lists, each with the test for a RAID volume; at most `room` are taken.
unfoldable pub raid_names : ℕ → List (Name × Bool) → List Name
raid_names room [] = []
raid_names zero (bdev ∷ bdevs) = []
raid_names (suc room) (bdev ∷ bdevs) =
    let with_it = raid_names room bdevs in
    let without = raid_names (suc room) bdevs in if bdev.1 then bdev.0 ∷ with_it else without

unfoldable pub check_all : Env → List Name → Raid → Raid
check_all env [] s = s
check_all env (name ∷ names) s = check_all env names (check_status env (some name) s)

unfoldable pub raid_health_check_timer_cb : Env → List (Name × Bool) → Option ℕ → Raid → Raid
raid_health_check_timer_cb env bdevs handle s =
    if not s.active then s else register_poller handle (check_all env (raid_names 32 bdevs) s)

unfoldable pub raid_module_init : Raid → Raid
raid_module_init s = record s { spares = []; callbacks = []; active = false; timer = none }

unfoldable pub raid_module_fini : Raid → Raid
raid_module_fini s =
    let stopped : Raid = (md_monitor_stop s).1 in
    record stopped { spares = cleanup_hot_spares stopped.spares; callbacks = [] }

-- Some runs of the timer, with the handle that each registration gives.
unfoldable pub ticks : List ℕ → Raid → Raid
ticks [] s = s
ticks (h ∷ handles) s = ticks handles (raid_monitor_timer_cb (some h) s)

-- The monitor runs, its handle was the last to be registered, and `n` others are.
record Running (n : ℕ) (s : Raid) : Type 0 where
  handle : ℕ
  others : List ℕ
  active : s.active ≡ true
  timer : s.timer ≡ some handle
  pollers : s.pollers ≡ handle ∷ others
  count : length others ≡ n

Running-timer_cb :
    (h n : ℕ) (s : Raid) → Running n s → Running (suc n) (raid_monitor_timer_cb (some h) s)
unfolding raid_monitor_timer_cb register_poller
Running-timer_cb h n s r = simp r.active (record {
  handle = h;
  others = s.pollers;
  active = refl;
  timer = refl;
  pollers = refl;
  count = ap length r.pollers ∙ ap suc r.count;
})

Running-ticks :
    (handles : List ℕ) (n : ℕ) (s : Raid)
    → Running n s
    → Running (length handles + n) (ticks handles s)
unfolding ticks
Running-ticks [] n s r = subst (λ k. Running k s) (omega arith) r
Running-ticks (h ∷ handles) n s r =
    let next = raid_monitor_timer_cb (some h) s in
    let all = Running-ticks handles (suc n) next (Running-timer_cb h n s r) in
    subst (λ k. Running k (ticks handles next)) (omega arith) all

-- If the monitor is not active, SPDK holds none of its pollers, and the registrations at the start
-- and at each run of the timer succeed, then after the end of the monitor SPDK still holds as many
-- pollers as there were runs of the timer.
pub pollers-md_monitor_stop :
    (first : ℕ) (handles : List ℕ) (s : Raid)
    → s.active ≡ false
    → s.pollers ≡ []
    → length (md_monitor_stop (ticks handles (md_monitor_start (some first) s).1)).1.pollers
      ≡ length handles
unfolding md_monitor_start md_monitor_stop register_poller drop_handle
pollers-md_monitor_stop first handles s idle clean =
    let started : Running 0 (md_monitor_start (some first) s).1 = rw idle record {
      handle = first;
      others = s.pollers;
      active = refl;
      timer = refl;
      pollers = refl;
      count = ap length clean;
    } in
    let r = Running-ticks handles 0 (md_monitor_start (some first) s).1 started in
    let last = ticks handles (md_monitor_start (some first) s).1 in
    let dropped : drop_handle r.handle (r.handle ∷ r.others) ≡ r.others = ground arith in
    let stopped : (md_monitor_stop last).1.pollers ≡ r.others =
      simp (r.active, r.timer, r.pollers) dropped in
    ap length stopped ∙ r.count ∙ omega arith
