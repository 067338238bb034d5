-- ===== src/Sync.antt =====
-- A function for ordinary threads that has its work done on an SPDK thread by a synchronous request, as
-- src/libxbdev/md.c, stats.c, lvol.c and base_bdev.c do it in the same words.
use mathlib.Core.Path.{subst}
use nblock.Prelude.{if◌then◌else◌, Bool, true, not, Bool-cases, ◌≡◌, ◌⊎◌, sym, inl, inr, arith}
use nblock.Prelude.Errno.{enomem, Rc, ok, fail}

-- What becomes of a synchronous request: whether one is allocated, whether the function on the SPDK
-- thread has run when the wait ends, and what `xbdev_sync_request_execute` returns.
pub record Sync : Type 0 where
  pub allocated : Bool
  pub ran : Bool
  pub executed : Rc

-- The context's `rc` is 0 until the function on the SPDK thread sets it.
unfoldable pub sync_call : {S : Type 0} → Sync → (S → Rc × S) → S → Rc × S
sync_call env handler s =
    let (rc, after) = handler s in
    let left = if env.ran then after else s in
    if not env.allocated
    then (fail enomem, s)
    else elim env.executed [ fail e ↦ (fail e, left) | ok ↦ (if env.ran then rc else ok, left) ]

-- A synchronous request that is allocated, and whose function runs before the wait ends well.
pub record Completes (sync : Sync) : Type 0 where
  pub allocated : sync.allocated ≡ true
  pub ran : sync.ran ≡ true
  pub executed : sync.executed ≡ ok

pub sync_call_lem :
    {S : Type 0} (sync : Sync) (handler : S → Rc × S) (s : S)
    → Completes sync
    → sync_call sync handler s ≡ handler s
unfolding sync_call
sync_call_lem sync handler s h = ground (arith, h.allocated, h.ran, h.executed)

-- A synchronous request leaves the state as it was, or as the function on the SPDK thread does.
pub sync_call-state :
    {S : Type 0} (sync : Sync) (handler : S → Rc × S) (s : S)
    → ((sync_call sync handler s).1 ≡ s) ⊎ ((sync_call sync handler s).1 ≡ (handler s).1)
unfolding sync_call
sync_call-state sync handler s = elim (Bool-cases sync.allocated) [
  | inr no' ↦ inl (ground (arith, no'))
  | inl got ↦ elim (Bool-cases sync.ran) [
    | inl did ↦ inr (ground (arith, got, did))
    | inr did_not ↦ inl (ground (arith, got, did_not))
  ]
]

pub sync_call-keeps :
    {S : Type 0} (P : S → Type 0) (sync : Sync) (handler : S → Rc × S) (s : S)
    → P s
    → P (handler s).1
    → P (sync_call sync handler s).1
sync_call-keeps P sync handler s before after = elim (sync_call-state sync handler s) [
  | inl same ↦ subst P (sym same) before
  | inr ran ↦ subst P (sym ran) after
]
