-- ===== src/Md/Stopped.antt =====
-- What the stop of an array by src/libxbdev/md.c leaves under each name, and that it takes back its
-- creation.
use mathlib.Core.Path.{subst}
use nblock.Prelude.{
  ℕ, suc, ◌≤◌, if◌then◌else◌, false, List, [], ◌∷◌, Option, none, some, get_or, set, length,
  Bool-cases, Option-cases, ◌≡◌, refl, sym, ap, ◌∙◌, inl, inr, arith,
}
use nblock.Prelude.Names.{Name, same_name, same_name_eq}
use nblock.Prelude.Errno.{ok}
use nblock.Md.Device.{Level, MdDev, zero_dev, Md, find_md_by_name, md_name_exists, bears}
use nblock.Md.Create.{Env, Config, CreateCtx, log, stopped, stop_on_thread}
use nblock.Md.Calls.{md_create, md_stop}
use nblock.Md.Table.{
  Distinct, device_of, find-range, device_of-none, device_of-set_other, bears-parts,
}
use nblock.Md.Valid.{IsValid}
use nblock.Md.Run.{step, create, step-IsValid}
use nblock.Md.Created.{description, request, device_of-created}
use nblock.Sync.{Completes, Sync, sync_call_lem}

find-set_gone :
    (name : Name) (devices : List MdDev) (i : ℕ) (new : MdDev)
    → Distinct devices
    → find_md_by_name name devices ≡ some i
    → new.active ≡ false
    → find_md_by_name name (set devices i new) ≡ none
unfolding find_md_by_name
find-set_gone name [] i new apart found down = refl
find-set_gone name (d ∷ devices) i new apart found down = elim (Bool-cases (bears name d)) [
  | inl here ↦
      let at : i ≡ 0 = ground (arith, found, here) in
      let (up, named) = bears-parts name d here in
      let alone : find_md_by_name name devices ≡ none =
        subst (λ n. find_md_by_name n devices ≡ none) named (apart.0 up) in
      rw at (ground (arith, down, alone))
  | inr there ↦ elim (Option-cases (find_md_by_name name devices)) [
    | inl stuck ↦ absurd (ground (arith, found, there, stuck))
    | inr (j, at) ↦
        let step' : i ≡ suc j = ground (arith, found, there, at) in
        rw step' (ground (arith, there, find-set_gone name devices j new apart.1 at down))
  ]
]

device_of-set_gone :
    (name m : Name) (devices : List MdDev) (i : ℕ) (new : MdDev)
    → Distinct devices
    → find_md_by_name name devices ≡ some i
    → new.active ≡ false
    → device_of m (set devices i new) ≡ (if same_name name m then none else device_of m devices)
device_of-set_gone name m devices i new apart found down = elim (Bool-cases (same_name name m)) [
  | inl same ↦
      let is = same_name_eq name m same in
      let gone = find-set_gone name devices i new apart found down in
      let gone_m = subst (λ n. find_md_by_name n (set devices i new) ≡ none) is gone in
      rw same (device_of-none m (set devices i new) gone_m)
  | inr other ↦
      let old = get_or devices i zero_dev in
      let (small, here) = find-range name devices i found in
      let named = (bears-parts name old here).1 in
      let differs : same_name old.name m ≡ false = ap (λ n. same_name n m) named ∙ other in
      let before : bears m old ≡ false = ground (arith, differs) in
      rw other (device_of-set_other m devices i new before (ground (arith, down)))
]

-- A stop that is completed and for which SPDK deletes the array: the array is no longer found, and all
-- else is as it was.
pub device_of-md_stop :
    (env : Env) (sync : Sync) (name m : Name) (s : Md)
    → IsValid s
    → Completes sync
    → env.deleted ≡ ok
    → device_of m (md_stop env sync (some name) s).1.devices
      ≡ (if same_name name m then none else device_of m s.devices)
unfolding md_stop stop_on_thread log
device_of-md_stop env sync name m s v h deleted =
    let sent = sync_call_lem sync (stop_on_thread env name) s h in
    elim (Option-cases (find_md_by_name name s.devices)) [
      | inl missing ↦ elim (Bool-cases (same_name name m)) [
        | inl same ↦
            let unknown =
              subst (λ n. device_of n s.devices ≡ none) (same_name_eq name m same)
                (device_of-none name s.devices missing) in
            ground (arith, sent, missing, same, unknown)
        | inr other ↦ ground (arith, sent, missing, other)
      ]
      | inr (i, at) ↦
          let new = stopped (get_or s.devices i zero_dev) in
          let gone = device_of-set_gone name m s.devices i new v.distinct at refl in
          ground (arith, sent, at, deleted, gone)
    ]

-- A creation that returns 0 was for a name that was not found.
was_free :
    (env : Env) (sync : Sync) (ctx : CreateCtx) (name : Name) (s : Md)
    → ctx.name ≡ some name
    → (md_create env sync ctx s).0 ≡ ok
    → device_of name s.devices ≡ none
unfolding md_create md_name_exists
was_free env sync ctx name s named good = elim (Option-cases (find_md_by_name name s.devices)) [
  | inl missing ↦ device_of-none name s.devices missing
  | inr (i, at) ↦ absurd (ground (arith, good, at, named))
]

-- On a valid table, where both calls are completed and SPDK deletes the array, to stop an array that
-- was just created, with a name of at most 63 bytes, gives back what was found under every name.
pub md_stop-md_create :
    (env env' : Env) (sync sync' : Sync) (name : Name) (level : Level) (bdevs : List Name)
    (config : Option Config) (m : Name) (s : Md)
    → IsValid s
    → length name ≤ 63
    → Completes sync
    → Completes sync'
    → (md_create env sync (request name level bdevs config) s).0 ≡ ok
    → env'.deleted ≡ ok
    → (let created = (md_create env sync (request name level bdevs config) s).1 in
        description (device_of m (md_stop env' sync' (some name) created).1.devices)
        ≡ description (device_of m s.devices))
unfolding step
md_stop-md_create env env' sync sync' name level bdevs config m s v short h h' good deleted =
    let ctx = request name level bdevs config in
    let t = (md_create env sync ctx s).1 in
    let valid = step-IsValid (create env sync ctx) s (short, tt) v in
    let told = device_of-created env sync name level bdevs config m s short h in
    let after = device_of-md_stop env' sync' name m t valid h' deleted in
    elim (Bool-cases (same_name name m)) [
      | inl same ↦
          let is = same_name_eq name m same in
          let before : device_of m s.devices ≡ none =
            subst (λ n. device_of n s.devices ≡ none) is (was_free env sync ctx name s refl good) in
          let gone : device_of m (md_stop env' sync' (some name) t).1.devices ≡ none =
            ground (arith, after, same) in
          ap description gone ∙ sym (ap description before)
      | inr other ↦
          let left : device_of m (md_stop env' sync' (some name) t).1.devices
              ≡ device_of m t.devices =
            ground (arith, after, other) in
          ap description left ∙ ground (arith, told, other)
    ]
