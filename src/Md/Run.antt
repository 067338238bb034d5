-- ===== src/Md/Run.antt =====
-- Sequences of calls of the functions of src/libxbdev/md.c, and what holds of every table that they
-- reach.
use mathlib.Core.Path.{subst}
use nblock.Prelude.{
  ℕ, zero, suc, replicate, ◌≤◌, ltb, Bool, true, false, not, ◌||◌, List, [], ◌∷◌, Option, none,
  some, length, length-replicate, Bool-cases, Option-cases, ◌≡◌, refl, sym, inl, inr, arith,
}
use nblock.Prelude.Names.{Name}
use nblock.Prelude.Errno.{Rc, ok}
use nblock.Md.Device.{
  Level, MdDev, zero_dev, on_device, Md, module_init, module_fini, find_md_by_name, md_name_exists,
}
use nblock.Md.Create.{
  Env, CreateCtx, is_level, create_on_thread, create_named, assemble_on_thread, assemble_named,
  stop_on_thread,
}
use nblock.Md.Manage.{
  SpareEnv, Command, Floats, run_command, manage_on_thread, replace_disk_on_thread, rebuild_control,
  rebuild_control_on_thread, set_disk_state, set_disk_state_on_thread, update_rebuild_progress,
  progress_of,
}
use nblock.Md.Calls.{
  checked, md_create, is_assembled, md_assemble, md_stop, md_manage, md_replace_disk,
  md_start_rebuild, md_stop_rebuild, md_set_faulty, md_set_normal,
}
use nblock.Md.Sound.{
  Sound, Kept, Kept-run_command, Kept-rebuild_control, Kept-set_disk_state, Kept-progress_of,
}
use nblock.Md.Table.{Distinct}
use nblock.Md.Valid.{EachSound, IsValid, on_device-IsValid}
use nblock.Md.Keeps.{
  create_named-IsValid, assemble_named-IsValid, stop_on_thread-IsValid,
  replace_disk_on_thread-IsValid,
}
use nblock.Sync.{Sync, sync_call, sync_call-keeps}

-- The calls that can change the table, each with what the code outside the file answers. A restart is
-- the end of the module and its start.
pub data Call : Type 0 where
  create assemble : Env → Sync → CreateCtx → Call
  stop : Env → Sync → Option Name → Call
  manage : SpareEnv → Sync → Command → Option Name → Call
  replace : Env → Sync → Bool → Option Name → Option Name → Option Name → Call
  start_rebuild : Sync → Option Name → ℕ → Call
  stop_rebuild : Sync → Option Name → Call
  set_faulty set_normal : Sync → Option Name → Option Name → Call
  progress : Floats → Option Name → ℕ → Call
  restart : Call

unfoldable pub step : Call → Md → Md
unfolding module_init module_fini
step (create env sync ctx) s = (md_create env sync ctx s).1
step (assemble env sync ctx) s = (md_assemble env sync ctx s).1
step (stop env sync name) s = (md_stop env sync name s).1
step (manage env sync cmd name) s = (md_manage env sync cmd name s).1
step (replace env sync auto name old_disk new_disk) s =
    (md_replace_disk env sync auto name old_disk new_disk s).1
step (start_rebuild sync name speed) s = (md_start_rebuild sync name speed s).1
step (stop_rebuild sync name) s = (md_stop_rebuild sync name s).1
step (set_faulty sync name disk) s = (md_set_faulty sync name disk s).1
step (set_normal sync name disk) s = (md_set_normal sync name disk s).1
step (progress float name value) s = (update_rebuild_progress float name value s).1
step restart s = (module_init (module_fini s)).1

unfoldable pub run : List Call → Md → Md
run [] s = s
run (call ∷ calls) s = run calls (step call s)

-- The name of a new array fits in its record.
abbrev pub HasRoom : Option Name → Type 0
HasRoom none = Unit {0}
HasRoom (some name) = length name ≤ 63

abbrev pub NamesFit : List Call → Type 0
NamesFit [] = Unit {0}
NamesFit (create env sync ctx ∷ calls) = HasRoom ctx.name × NamesFit calls
NamesFit (assemble env sync ctx ∷ calls) = HasRoom ctx.name × NamesFit calls
NamesFit (stop env sync name ∷ calls) = NamesFit calls
NamesFit (manage env sync cmd name ∷ calls) = NamesFit calls
NamesFit (replace env sync auto name old_disk new_disk ∷ calls) = NamesFit calls
NamesFit (start_rebuild sync name speed ∷ calls) = NamesFit calls
NamesFit (stop_rebuild sync name ∷ calls) = NamesFit calls
NamesFit (set_faulty sync name disk ∷ calls) = NamesFit calls
NamesFit (set_normal sync name disk ∷ calls) = NamesFit calls
NamesFit (progress float name value ∷ calls) = NamesFit calls
NamesFit (restart ∷ calls) = NamesFit calls

fresh_name :
    (name : Name) (s : Md)
    → md_name_exists name s.devices ≡ false
    → find_md_by_name name s.devices ≡ none
unfolding md_name_exists
fresh_name name s new = elim (Option-cases (find_md_by_name name s.devices)) [
  | inl missing ↦ missing
  | inr (i, at) ↦ absurd (ground (arith, at, new))
]

-- The checks before a creation or an assembly leave the state as it is, or let the rest be done for a
-- name that is not in the table.
checked-keeps :
    (P : Md → Type 0) (supported : Level → Bool) (handler : CreateCtx → Md → Rc × Md)
    (ctx : CreateCtx) (s : Md)
    → P s
    → ((name : Name) (bdevs : List Name)
        → ctx.name ≡ some name
        → ctx.base_bdevs ≡ some bdevs
        → find_md_by_name name s.devices ≡ none
        → P (handler ctx s).1)
    → P (checked supported handler ctx s).1
checked-keeps P supported handler ctx s before after = elim (Option-cases ctx.name) [
  | inl no_name ↦ left (ground (arith, no_name))
  | inr (name, e) ↦ elim (Option-cases ctx.base_bdevs) [
    | inl no_bdevs ↦ left (ground (arith, e, no_bdevs))
    | inr (bdevs, f) ↦ elim (Bool-cases (ltb (length bdevs) 2 || not (supported ctx.level))) [
      | inl bad ↦ left (ground (arith, e, f, bad))
      | inr good ↦ elim (Bool-cases (md_name_exists name s.devices)) [
        | inl known ↦ left (ground (arith, e, f, good, known))
        | inr new ↦
            let same : (checked supported handler ctx s).1 ≡ (handler ctx s).1 =
              ground (arith, e, f, good, new) in
            subst P (sym same) (after name bdevs e f (fresh_name name s new))
      ]
    ]
  ]
]
  where
    left : (checked supported handler ctx s).1 ≡ s → P (checked supported handler ctx s).1
    left same = subst P (sym same) before

fits : (given : Option Name) (name : Name) → given ≡ some name → HasRoom given → length name ≤ 63
fits given name e room = subst HasRoom e room

md_create-IsValid :
    (env : Env) (sync : Sync) (ctx : CreateCtx) (s : Md)
    → HasRoom ctx.name
    → IsValid s
    → IsValid (md_create env sync ctx s).1
unfolding md_create create_on_thread
md_create-IsValid env sync ctx s room v =
    checked-keeps IsValid is_level (λ c. sync_call sync (create_on_thread env c)) ctx s v
      λ name bdevs e f fresh.
        let short = fits ctx.name name e room in
        let done = create_named-IsValid env ctx.level ctx.config name bdevs s short fresh v in
        let same : create_named env ctx.level ctx.config name bdevs s ≡ create_on_thread env ctx s =
          ground (arith, e, f) in
        sync_call-keeps IsValid sync (create_on_thread env ctx) s v
          (subst (λ r. IsValid r.1) same done)

md_assemble-IsValid :
    (env : Env) (sync : Sync) (ctx : CreateCtx) (s : Md)
    → HasRoom ctx.name
    → IsValid s
    → IsValid (md_assemble env sync ctx s).1
unfolding md_assemble assemble_on_thread
md_assemble-IsValid env sync ctx s room v =
    checked-keeps IsValid is_assembled (λ c. sync_call sync (assemble_on_thread env c)) ctx s v
      λ name bdevs e f fresh.
        let short = fits ctx.name name e room in
        let done = assemble_named-IsValid env ctx.level name bdevs s short fresh v in
        let same : assemble_named env ctx.level name bdevs s ≡ assemble_on_thread env ctx s =
          ground (arith, e, f) in
        sync_call-keeps IsValid sync (assemble_on_thread env ctx) s v
          (subst (λ r. IsValid r.1) same done)

module _ (sync : Sync) (name : Name) (body : MdDev → Rc × MdDev) (s : Md) where
  on_device_call-IsValid :
      ((d : MdDev) → Sound d → Kept d (body d).1)
      → IsValid s
      → IsValid (sync_call sync (on_device name body) s).1
  on_device_call-IsValid keep v =
      sync_call-keeps IsValid sync (on_device name body) s v (on_device-IsValid name body s keep v)

pub Distinct-idle : (n : ℕ) → Distinct (replicate n zero_dev)
Distinct-idle zero = tt
Distinct-idle (suc n) = (λ up. absurd (cc up), Distinct-idle n)

pub EachSound-idle : (n : ℕ) → EachSound (replicate n zero_dev)
EachSound-idle zero = tt
EachSound-idle (suc n) = (λ up. absurd (cc up), EachSound-idle n)

pub step-IsValid : (call : Call) (s : Md) → NamesFit (call ∷ []) → IsValid s → IsValid (step call s)
unfolding step md_stop md_manage manage_on_thread md_replace_disk md_start_rebuild md_stop_rebuild
    rebuild_control_on_thread md_set_faulty md_set_normal set_disk_state_on_thread
    update_rebuild_progress module_init module_fini
step-IsValid (create env sync ctx) s (room, _) v = md_create-IsValid env sync ctx s room v
step-IsValid (assemble env sync ctx) s (room, _) v = md_assemble-IsValid env sync ctx s room v
step-IsValid (stop env sync none) s room v = v
step-IsValid (stop env sync (some name)) s room v =
    sync_call-keeps IsValid sync (stop_on_thread env name) s v (stop_on_thread-IsValid env name s v)
step-IsValid (manage env sync cmd none) s room v = v
step-IsValid (manage env sync cmd (some name)) s room v =
    on_device_call-IsValid sync name (run_command env cmd) s (Kept-run_command env cmd) v
step-IsValid (replace env sync auto none old_disk new_disk) s room v = v
step-IsValid (replace env sync auto (some name) none new_disk) s room v = v
step-IsValid (replace env sync auto (some name) (some old_disk) none) s room v = v
step-IsValid (replace env sync auto (some name) (some old_disk) (some new_disk)) s room v =
    sync_call-keeps IsValid sync (replace_disk_on_thread env auto old_disk new_disk name) s v
      (replace_disk_on_thread-IsValid env auto old_disk new_disk name s v)
step-IsValid (start_rebuild sync none speed) s room v = v
step-IsValid (start_rebuild sync (some name) speed) s room v =
    on_device_call-IsValid sync name (rebuild_control (some speed)) s
      (Kept-rebuild_control (some speed)) v
step-IsValid (stop_rebuild sync none) s room v = v
step-IsValid (stop_rebuild sync (some name)) s room v =
    on_device_call-IsValid sync name (rebuild_control none) s (Kept-rebuild_control none) v
step-IsValid (set_faulty sync none disk) s room v = v
step-IsValid (set_faulty sync (some name) none) s room v = v
step-IsValid (set_faulty sync (some name) (some disk)) s room v =
    on_device_call-IsValid sync name (set_disk_state true disk) s (Kept-set_disk_state true disk) v
step-IsValid (set_normal sync none disk) s room v = v
step-IsValid (set_normal sync (some name) none) s room v = v
step-IsValid (set_normal sync (some name) (some disk)) s room v =
    on_device_call-IsValid sync name (set_disk_state false disk) s (Kept-set_disk_state false disk)
      v
step-IsValid (progress float none value) s room v = v
step-IsValid (progress float (some name) value) s room v =
    let done =
      on_device-IsValid name (progress_of float value) s (Kept-progress_of float value) v in
    ground (arith, v, done)
step-IsValid restart s room v = restarted s.initialized refl
  where
    fresh : IsValid (record s { devices = replicate 16 zero_dev; initialized = true })
    fresh = record {
      sized = length-replicate 16 zero_dev;
      distinct = Distinct-idle 16;
      sound = EachSound-idle 16;
    }

    restarted : (up : Bool) → s.initialized ≡ up → IsValid (module_init (module_fini s)).1
    restarted true e =
        let same : module_init (module_fini s)
            ≡ (ok, record s { devices = replicate 16 zero_dev; initialized = true }) =
          ground (arith, e) in
        subst (λ r. IsValid r.1) (sym same) fresh
    restarted false e =
        let same : module_init (module_fini s)
            ≡ (ok, record s { devices = replicate 16 zero_dev; initialized = true }) =
          ground (arith, e) in
        subst (λ r. IsValid r.1) (sym same) fresh

-- Every table that a sequence of calls reaches from a valid one is valid, if the names of new arrays
-- have at most 63 bytes, whatever SPDK and the allocator answer and whatever becomes of the requests:
-- there are 16 records, no two active ones have the same name, and of each active one, the arrays
-- have as many entries as disks are counted, at least two, as many spares are in memory as are
-- counted, at least, no more disks are counted as failed than have failed, and none if the array is
-- not degraded.
pub IsValid-run : (calls : List Call) (s : Md) → NamesFit calls → IsValid s → IsValid (run calls s)
unfolding run
IsValid-run [] s room v = v
IsValid-run (call ∷ calls) s room v =
    let (here, later) = split call calls room in
    IsValid-run calls (step call s) later (step-IsValid call s here v)
  where
    split : (c : Call) (cs : List Call) → NamesFit (c ∷ cs) → NamesFit (c ∷ []) × NamesFit cs
    split (create env sync ctx) cs (now, rest) = ((now, tt), rest)
    split (assemble env sync ctx) cs (now, rest) = ((now, tt), rest)
    split (stop env sync name) cs rest = (tt, rest)
    split (manage env sync cmd name) cs rest = (tt, rest)
    split (replace env sync auto name old_disk new_disk) cs rest = (tt, rest)
    split (start_rebuild sync name speed) cs rest = (tt, rest)
    split (stop_rebuild sync name) cs rest = (tt, rest)
    split (set_faulty sync name disk) cs rest = (tt, rest)
    split (set_normal sync name disk) cs rest = (tt, rest)
    split (progress float name value) cs rest = (tt, rest)
    split restart cs rest = (tt, rest)
