-- ===== src/Lvol/Sizes.antt =====
-- The sizes that src/libxbdev/lvol.c asks SPDK for.
use nblock.Prelude.{
  ℕ, ◌*◌, ◌^◌, ◌<◌, ◌==◌, true, false, List, [], ◌∷◌, ◌++◌, some, length, ◌≡◌, ◌↔◌, refl, arith,
}
use nblock.Prelude.Names.{Name}
use nblock.Sync.{Sync, Completes, sync_call_lem}
use nblock.Lvol.{Op, lvol_resize, Spdk, slash, size_bytes, with_lvol, resize_on_thread, resize}
use nblock.Lvol.Names.{no_slash, parse_lvol_name_iff}

-- A product of `uint64_t` is exact as long as it is below 2^64.
size_bytes-exact : (n : ℕ) → (size_bytes n ≡ n * 1048576) ↔ (n < 2 ^ 44)
unfolding size_bytes
size_bytes-exact n = (λ e. omega arith, λ small. omega arith)

-- The resizing of a volume that exists, by its name `lvs/lvol`, to a number of MB other than 0, where the
-- request is completed: SPDK is asked once, for a number of bytes that is 2^20 times the number of MB
-- exactly when that number is below 2^44, and what it completes with is returned.
pub resize_lem :
    (env : Spdk) (sync : Sync) (lvs lvol : Name) (n : ℕ) (ops : List Op)
    → Completes sync
    → no_slash lvs ≡ true
    → length lvs < 256
    → length lvol < 256
    → env.has_lvs lvs ≡ true
    → env.has_lvol lvs lvol ≡ true
    → (n == 0) ≡ false
    → (resize env sync (some (lvs ++ slash ∷ lvol)) n ops
        ≡ (env.completion, ops ++ lvol_resize lvs lvol (size_bytes n) ∷ []))
      × ((size_bytes n ≡ n * 1048576) ↔ (n < 2 ^ 44))
unfolding resize resize_on_thread with_lvol
resize_lem env sync lvs lvol n ops done clean a b has has' some_size =
    let joined = lvs ++ slash ∷ lvol in
    let is = (parse_lvol_name_iff 256 256 joined lvs lvol).1 (refl, clean, a, b) in
    let sent = sync_call_lem sync (resize_on_thread env joined n) ops done in
    (ground (arith, some_size, is, has, has', sent), size_bytes-exact n)

-- The smallest size that is not exact asks for nothing.
pub size_bytes-wraps : size_bytes (2 ^ 44) ≡ 0
unfolding size_bytes
size_bytes-wraps = refl
