-- ===== src/Lvol/Calls.antt =====
-- The functions of src/libxbdev/lvol.c that change logical volumes, and what they ask SPDK for.
use mathlib.Core.Path.{subst}
use nblock.Prelude.{
  ℕ, ◌==◌, if◌then◌else◌, Bool, true, false, not, ◌&&◌, List, [], ◌∷◌, ◌++◌, Option, none, some,
  Bool-cases, ◌≡◌, ◌⊎◌, refl, sym, inl, inr, arith,
}
use nblock.Prelude.Names.{Name, same_name}
use nblock.Prelude.Errno.{Errno, einval, enodev, enoent, Rc, ok, fail}
use nblock.Sync.{Sync, sync_call-keeps}
use nblock.Lvol.{
  Op, lvs_create, lvs_destroy, lvol_create, lvol_destroy, lvol_create_snapshot, lvol_create_clone,
  lvol_rename_op, lvol_resize, Spdk, Parsed, parsed, refused, parse_lvol_name, await, submit,
  size_bytes, with_lvol, create_pool_on_thread, destroy_pool_on_thread, create_on_thread,
  destroy_on_thread, create_snapshot_on_thread, create_clone_on_thread, rename_on_thread,
  resize_on_thread, named, named_both, create_pool, destroy_pool, create, destroy, create_snapshot,
  create_clone, resize, rename,
}

pub data Call : Type 0 where
  pool_create : Option Name → Option Name → ℕ → Call
  pool_destroy volume_destroy : Option Name → Call
  volume_create : Option Name → Option Name → ℕ → Bool → Call
  snapshot_create clone_create volume_rename : Option Name → Option Name → Call
  volume_resize : Option Name → ℕ → Call

unfoldable pub run : Spdk → Sync → Call → List Op → Rc × List Op
run env sync (pool_create bdev pool cluster_size) = create_pool env sync bdev pool cluster_size
run env sync (pool_destroy pool) = destroy_pool env sync pool
run env sync (volume_destroy lvol) = destroy env sync lvol
run env sync (volume_create pool lvol size_mb thin) = create env sync pool lvol size_mb thin
run env sync (snapshot_create lvol snap) = create_snapshot env sync lvol snap
run env sync (clone_create snap clone) = create_clone env sync snap clone
run env sync (volume_rename old new) = rename env sync old new
run env sync (volume_resize lvol size_mb) = resize env sync lvol size_mb

-- SPDK has what an operation works on.
unfoldable pub has_target : Spdk → Op → Bool
has_target env (lvs_create bdev cluster_size lvs) = env.has_bdev bdev
has_target env (lvs_destroy lvs) = env.has_lvs lvs
has_target env (lvol_create lvs lvol size thin) = env.has_lvs lvs
has_target env (lvol_destroy lvs lvol new) = env.has_lvs lvs && env.has_lvol lvs lvol
has_target env (lvol_create_snapshot lvs lvol new) = env.has_lvs lvs && env.has_lvol lvs lvol
has_target env (lvol_create_clone lvs lvol new) = env.has_lvs lvs && env.has_lvol lvs lvol
has_target env (lvol_rename_op lvs lvol new) = env.has_lvs lvs && env.has_lvol lvs lvol
has_target env (lvol_resize lvs lvol size) = env.has_lvs lvs && env.has_lvol lvs lvol

-- At most one operation is asked for, and what it works on is there.
abbrev pub Asked : Spdk → List Op → List Op → Type 0
Asked env before after =
    (after ≡ before) ⊎ ((op : Op) × (has_target env op ≡ true) × (after ≡ before ++ op ∷ []))

submit_log : (env : Spdk) (op : Op) (ops : List Op) → (submit env op ops).1 ≡ ops ++ op ∷ []
submit_log env op ops =
    elim env.accepted
      as (λ r.
        (elim r as (λ x. Rc × List Op) [
          | ok ↦ await env op ops
          | fail e ↦ (fail e, ops ++ op ∷ [])
        ]).1
        ≡ ops ++ op ∷ []) [ ok ↦ refl | fail e ↦ refl ]

-- An operation that is asked for only where its target is there.
guarded-Asked :
    (env : Spdk) (e : Errno) (there : Bool) (op : Op) (ops : List Op)
    → has_target env op ≡ there
    → Asked env ops (if not there then (fail e, ops) else submit env op ops).1
guarded-Asked env e true op ops is = inr (op, is, submit_log env op ops)
guarded-Asked env e false op ops is = inl refl

Parsed-cases :
    (p : Parsed)
    → ((e : Errno) × (p ≡ refused e)) ⊎ ((lvs : Name) × (lvol : Name) × (p ≡ parsed lvs lvol))
Parsed-cases (parsed lvs lvol) = inr (lvs, lvol, refl)
Parsed-cases (refused e) = inl (e, refl)

with_lvol-Asked :
    (env : Spdk) (name : Name) (body : Name → Name → List Op → Rc × List Op) (ops : List Op)
    → ((lvs lvol : Name)
        → (env.has_lvs lvs && env.has_lvol lvs lvol) ≡ true
        → Asked env ops (body lvs lvol ops).1)
    → Asked env ops (with_lvol env name body ops).1
unfolding with_lvol
with_lvol-Asked env name body ops each = elim (Parsed-cases (parse_lvol_name 256 256 (some name))) [
  | inl (e, is) ↦ inl (ground (arith, is))
  | inr (lvs, lvol, is) ↦ elim (Bool-cases (env.has_lvs lvs && env.has_lvol lvs lvol)) [
    | inl there ↦
        let same : (with_lvol env name body ops).1 ≡ (body lvs lvol ops).1 =
          ground (arith, is, there) in
        subst (Asked env ops) (sym same) (each lvs lvol there)
    | inr gone ↦ inl (ground (arith, is, gone))
  ]
]

named-Asked :
    (env : Spdk) (sync : Sync) (handler : Name → List Op → Rc × List Op) (name : Option Name)
    (ops : List Op)
    → ((n : Name) → Asked env ops (handler n ops).1)
    → Asked env ops (named sync handler name ops).1
named-Asked env sync handler none ops each = inl refl
named-Asked env sync handler (some n) ops each =
    sync_call-keeps (Asked env ops) sync (handler n) ops (inl refl) (each n)

named_both-Asked :
    (env : Spdk) (sync : Sync) (handler : Name → Name → List Op → Rc × List Op) (a b : Option Name)
    (ops : List Op)
    → ((m n : Name) → Asked env ops (handler m n ops).1)
    → Asked env ops (named_both sync handler a b ops).1
named_both-Asked env sync handler none b ops each = inl refl
named_both-Asked env sync handler (some m) none ops each = inl refl
named_both-Asked env sync handler (some m) (some n) ops each =
    sync_call-keeps (Asked env ops) sync (handler m n) ops (inl refl) (each m n)

rename_on_thread-Asked :
    (env : Spdk) (old new : Name) (ops : List Op)
    → Asked env ops (rename_on_thread env old new ops).1
unfolding rename_on_thread has_target
rename_on_thread-Asked env old new ops = with_lvol-Asked env old _ ops (λ lvs lvol there.
    elim (Parsed-cases (parse_lvol_name 256 256 (some new))) [
      | inl (e, is) ↦ inl (ground (arith, is))
      | inr (new_lvs, new_lvol, is) ↦ elim (Bool-cases (same_name lvs new_lvs)) [
        | inl same ↦ inr (lvol_rename_op lvs lvol new_lvol, there, ground (arith, is, same))
        | inr other ↦ inl (ground (arith, is, other))
      ]
    ])

-- The size of 0 is refused first.
sized-Asked :
    (env : Spdk) (no_size : Bool) (result : Rc × List Op) (ops : List Op)
    → Asked env ops result.1
    → Asked env ops (if no_size then (fail einval, ops) else result).1
sized-Asked env true result ops asked = inl refl
sized-Asked env false result ops asked = asked

-- Each function that changes volumes or stores asks SPDK for at most one operation, and only for one whose
-- device, store or volume SPDK has; what was asked for before stays in the log.
pub run-Asked :
    (env : Spdk) (sync : Sync) (call : Call) (ops : List Op)
    → Asked env ops (run env sync call ops).1
unfolding run create_pool_on_thread destroy_pool_on_thread destroy_on_thread
    create_snapshot_on_thread create_clone_on_thread rename create create_pool destroy_pool destroy
    create_snapshot create_clone create_on_thread resize resize_on_thread has_target
run-Asked env sync (pool_create bdev pool cluster_size) ops =
    named_both-Asked env sync _ bdev pool ops
      (λ b p. guarded-Asked env enodev (env.has_bdev b) (lvs_create b cluster_size p) ops refl)
run-Asked env sync (pool_destroy pool) ops =
    named-Asked env sync _ pool ops
      (λ p. guarded-Asked env enoent (env.has_lvs p) (lvs_destroy p) ops refl)
run-Asked env sync (volume_destroy lvol) ops =
    named-Asked env sync _ lvol ops
      (λ n. with_lvol-Asked env n _ ops (λ p l there. inr (lvol_destroy p l [], there, refl)))
run-Asked env sync (volume_create pool lvol size_mb thin) ops =
    sized-Asked env (size_mb == 0) _ ops (
      named_both-Asked env sync _ pool lvol ops (λ p l.
        guarded-Asked env enoent (env.has_lvs p) (lvol_create p l (size_bytes size_mb) thin) ops
          refl))
run-Asked env sync (snapshot_create lvol snap) ops =
    named_both-Asked env sync _ lvol snap ops (λ n new.
      with_lvol-Asked env n _ ops (λ p l there. inr (lvol_create_snapshot p l new, there, refl)))
run-Asked env sync (clone_create snap clone) ops =
    named_both-Asked env sync _ snap clone ops (λ n new.
      with_lvol-Asked env n _ ops (λ p l there. inr (lvol_create_clone p l new, there, refl)))
run-Asked env sync (volume_rename old new) ops =
    named_both-Asked env sync _ old new ops (λ m n. rename_on_thread-Asked env m n ops)
run-Asked env sync (volume_resize lvol size_mb) ops = sized-Asked env (size_mb == 0) _ ops (
    named-Asked env sync _ lvol ops (λ n.
      with_lvol-Asked env n _ ops
        (λ p l there. inr (lvol_resize p l (size_bytes size_mb), there, refl))))
