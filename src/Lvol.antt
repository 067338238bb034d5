-- ===== src/Lvol.antt =====
-- src/libxbdev/lvol.c: logical volumes and their stores. What SPDK has and answers is a parameter; the
-- operations that it is asked for are recorded in a log. A function that asked for one waits until
-- SPDK calls its completion function, which SPDK does for every operation that it accepts.
pub mod Names
pub mod Sizes
pub mod Calls
pub mod Tests
use nblock.Prelude.{
  ℕ, zero, suc, ◌+◌, ◌*◌, ◌%◌, ◌^◌, ◌==◌, ltb, if◌then◌else◌, Bool, true, false, not, ◌&&◌, ◌||◌,
  List, [], ◌∷◌, ◌++◌, Option, none, some, take, length,
}
use nblock.Prelude.Names.{Name, same_name, clip}
use nblock.Prelude.Errno.{Errno, einval, enoent, enodev, other, Rc, ok, fail}
use nblock.Sync.{Sync, sync_call}

-- The operations of SPDK, with the names of the store and of the volume.
pub data Op : Type 0 where
  lvs_create : Name → ℕ → Name → Op
  lvs_destroy : Name → Op
  lvol_create : Name → Name → ℕ → Bool → Op
  lvol_destroy lvol_create_snapshot lvol_create_clone lvol_rename_op : Name → Name → Name → Op
  lvol_resize : Name → Name → ℕ → Op

pub data LvolType : Type 0 where
  thin snapshot clone plain : LvolType

-- What SPDK has, what the operations of stores and the creation of a volume return at once, and what
-- the completion function is called with.
pub record Spdk : Type 0 where
  pub has_bdev : Name → Bool
  pub has_lvs : Name → Bool
  pub has_lvol : Name → Name → Bool
  pub accepted : Rc
  pub completion : Rc
  pub lvol_size : Name → Name → ℕ
  pub lvol_type : Name → Name → LvolType
  pub lvol_uuid : Name → Name → Name
  pub lvs_base : Name → Option Name
  pub lvs_clusters : Name → ℕ × ℕ × ℕ
  pub lvs_uuid : Name → Name

abbrev pub slash : ℕ
slash = b'/'

-- What is before and behind the first separator, which `strchr` finds.
unfoldable pub split_name : Name → Option (Name × Name)
split_name [] = none
split_name (c ∷ name) =
    let rest = split_name name in
    if c == slash
    then some ([], name)
    else elim rest [ none ↦ none | some (lvs, lvol) ↦ some (c ∷ lvs, lvol) ]

pub data Parsed : Type 0 where
  parsed : Name → Name → Parsed
  refused : Errno → Parsed

abbrev pub enametoolong : Errno
enametoolong = other 36

unfoldable pub parse_lvol_name : ℕ → ℕ → Option Name → Parsed
parse_lvol_name lvs_size lvol_size none = refused einval
parse_lvol_name lvs_size lvol_size (some full_name) =
    if lvs_size == 0 || lvol_size == 0 then refused einval else elim (split_name full_name) [
      | none ↦ refused einval
      | some (lvs, lvol) ↦
          if not (ltb (length lvs) lvs_size) || not (ltb (length lvol) lvol_size)
          then refused enametoolong
          else parsed lvs lvol
    ]

-- The operation is asked for, and its completion is waited for.
abbrev pub await : Spdk → Op → List Op → Rc × List Op
await env op ops = (env.completion, ops ++ op ∷ [])

-- The same for the operations that may be refused at once.
abbrev pub submit : Spdk → Op → List Op → Rc × List Op
submit env op ops = elim env.accepted [ ok ↦ await env op ops | fail e ↦ (fail e, ops ++ op ∷ []) ]

unfoldable pub create_pool_on_thread : Spdk → Name → Name → ℕ → List Op → Rc × List Op
create_pool_on_thread env bdev lvs cluster_size ops =
    if not (env.has_bdev bdev)
    then (fail enodev, ops)
    else submit env (lvs_create bdev cluster_size lvs) ops

unfoldable pub destroy_pool_on_thread : Spdk → Name → List Op → Rc × List Op
destroy_pool_on_thread env lvs ops =
    if not (env.has_lvs lvs) then (fail enoent, ops) else submit env (lvs_destroy lvs) ops

-- MB to bytes, in `uint64_t`.
unfoldable pub size_bytes : ℕ → ℕ
size_bytes size_mb = size_mb * 1024 * 1024 % 2 ^ 64

unfoldable pub create_on_thread : Spdk → Name → Name → ℕ → Bool → List Op → Rc × List Op
create_on_thread env lvs lvol size_mb thin_provision ops =
    if not (env.has_lvs lvs)
    then (fail enoent, ops)
    else submit env (lvol_create lvs lvol (size_bytes size_mb) thin_provision) ops

-- The name is parsed, and the store and the volume are looked for, which most functions begin with.
unfoldable pub with_lvol : {S : Type 0} → Spdk → Name → (Name → Name → S → Rc × S) → S → Rc × S
with_lvol env full_name body s = elim (parse_lvol_name 256 256 (some full_name)) [
  | refused e ↦ (fail einval, s)
  | parsed lvs lvol ↦
      if not (env.has_lvs lvs) || not (env.has_lvol lvs lvol)
      then (fail enoent, s)
      else body lvs lvol s
]

unfoldable pub destroy_on_thread : Spdk → Name → List Op → Rc × List Op
destroy_on_thread env name = with_lvol env name (λ lvs lvol. await env (lvol_destroy lvs lvol []))

unfoldable pub create_snapshot_on_thread : Spdk → Name → Name → List Op → Rc × List Op
create_snapshot_on_thread env name snap_name =
    with_lvol env name (λ lvs lvol. await env (lvol_create_snapshot lvs lvol snap_name))

unfoldable pub create_clone_on_thread : Spdk → Name → Name → List Op → Rc × List Op
create_clone_on_thread env snap_name clone_name =
    with_lvol env snap_name (λ lvs snap. await env (lvol_create_clone lvs snap clone_name))

unfoldable pub rename_on_thread : Spdk → Name → Name → List Op → Rc × List Op
rename_on_thread env old_name new_name = with_lvol env old_name (λ lvs lvol ops.
    elim (parse_lvol_name 256 256 (some new_name)) [
      | refused e ↦ (fail einval, ops)
      | parsed new_lvs new_lvol ↦
          if not (same_name lvs new_lvs)
          then (fail einval, ops)
          else await env (lvol_rename_op lvs lvol new_lvol) ops
    ])

unfoldable pub resize_on_thread : Spdk → Name → ℕ → List Op → Rc × List Op
resize_on_thread env name new_size_mb =
    with_lvol env name (λ lvs lvol. await env (lvol_resize lvs lvol (size_bytes new_size_mb)))

-- `xbdev_lvol_info_t`
pub record LvolInfo : Type 0 where
  pub lvs_name : Name
  pub lvol_name : Name
  pub size : ℕ
  pub thin_provision : Bool
  pub is_snapshot : Bool
  pub is_clone : Bool
  pub cluster_size : ℕ
  pub allocated_size : ℕ
  pub uuid : Name

unfoldable pub get_info_on_thread : Spdk → Name → LvolInfo → Rc × LvolInfo
get_info_on_thread env name = with_lvol env name (λ lvs lvol info. (
  ok,
  record {
    lvs_name = clip lvs;
    lvol_name = clip lvol;
    size = env.lvol_size lvs lvol;
    thin_provision = elim (env.lvol_type lvs lvol) [
      | thin ↦ true
      | snapshot ↦ false
      | clone ↦ false
      | plain ↦ false
    ];
    is_snapshot = elim (env.lvol_type lvs lvol) [
      | thin ↦ false
      | snapshot ↦ true
      | clone ↦ false
      | plain ↦ false
    ];
    is_clone = elim (env.lvol_type lvs lvol) [
      | thin ↦ false
      | snapshot ↦ false
      | clone ↦ true
      | plain ↦ false
    ];
    cluster_size = (env.lvs_clusters lvs).0;
    allocated_size = info.allocated_size;
    uuid = env.lvol_uuid lvs lvol;
  },
))

-- `xbdev_lvol_pool_info_t`
pub record PoolInfo : Type 0 where
  pub pool_name : Name
  pub bdev_name : Name
  pub cluster_size : ℕ
  pub total_clusters : ℕ
  pub free_clusters : ℕ
  pub uuid : Name

unfoldable pub get_pool_info_on_thread : Spdk → Name → PoolInfo → Rc × PoolInfo
get_pool_info_on_thread env pool info =
    if not (env.has_lvs pool) then (fail enoent, info) else elim (env.lvs_base pool) [
      | none ↦ (fail einval, info)
      | some bdev ↦ (
        ok,
        record {
          pool_name = clip pool;
          bdev_name = clip bdev;
          cluster_size = (env.lvs_clusters pool).0;
          total_clusters = (env.lvs_clusters pool).1;
          free_clusters = (env.lvs_clusters pool).2;
          uuid = env.lvs_uuid pool;
        },
      )
    ]

-- The functions for ordinary threads: two names, or one, and what is done on the SPDK thread.
abbrev pub named : {S : Type 0} → Sync → (Name → S → Rc × S) → Option Name → S → Rc × S
named sync handler none s = (fail einval, s)
named sync handler (some name) s = sync_call sync (handler name) s

abbrev pub named_both :
    {S : Type 0} → Sync → (Name → Name → S → Rc × S) → Option Name → Option Name → S → Rc × S
named_both sync handler none second s = (fail einval, s)
named_both sync handler (some first) none s = (fail einval, s)
named_both sync handler (some first) (some second) s = sync_call sync (handler first second) s

unfoldable pub create_pool : Spdk → Sync → Option Name → Option Name → ℕ → List Op → Rc × List Op
create_pool env sync bdev pool cluster_size =
    named_both sync (λ b p. create_pool_on_thread env b p cluster_size) bdev pool

unfoldable pub destroy_pool : Spdk → Sync → Option Name → List Op → Rc × List Op
destroy_pool env sync = named sync (destroy_pool_on_thread env)

unfoldable pub create : Spdk → Sync → Option Name → Option Name → ℕ → Bool → List Op → Rc × List Op
create env sync pool lvol size_mb thin_provision ops =
    if size_mb == 0
    then (fail einval, ops)
    else named_both sync (λ p l. create_on_thread env p l size_mb thin_provision) pool lvol ops

unfoldable pub destroy : Spdk → Sync → Option Name → List Op → Rc × List Op
destroy env sync = named sync (destroy_on_thread env)

unfoldable pub create_snapshot : Spdk → Sync → Option Name → Option Name → List Op → Rc × List Op
create_snapshot env sync = named_both sync (create_snapshot_on_thread env)

unfoldable pub create_clone : Spdk → Sync → Option Name → Option Name → List Op → Rc × List Op
create_clone env sync = named_both sync (create_clone_on_thread env)

unfoldable pub resize : Spdk → Sync → Option Name → ℕ → List Op → Rc × List Op
resize env sync lvol new_size_mb ops =
    if new_size_mb == 0
    then (fail einval, ops)
    else named sync (λ l. resize_on_thread env l new_size_mb) lvol ops

-- What `memset` leaves.
abbrev pub zero_info : LvolInfo
zero_info = record {
  lvs_name = [];
  lvol_name = [];
  size = 0;
  thin_provision = false;
  is_snapshot = false;
  is_clone = false;
  cluster_size = 0;
  allocated_size = 0;
  uuid = [];
}

abbrev pub zero_pool_info : PoolInfo
zero_pool_info = record {
  pool_name = [];
  bdev_name = [];
  cluster_size = 0;
  total_clusters = 0;
  free_clusters = 0;
  uuid = [];
}

-- The caller's structure, which is `none` for NULL, is set to zeros before the request, if there is a name.
abbrev pub told : {S : Type 0} → S → (Name → S → Rc × S) → Option Name → Option S → Rc × Option S
told zeros call none info = (fail einval, info)
told zeros call (some name) none = (fail einval, none)
told zeros call (some name) (some info) = let (rc, new) = call name zeros in (rc, some new)

unfoldable pub get_info : Spdk → Sync → Option Name → Option LvolInfo → Rc × Option LvolInfo
get_info env sync lvol = told zero_info (λ n. sync_call sync (get_info_on_thread env n)) lvol

unfoldable pub get_pool_info : Spdk → Sync → Option Name → Option PoolInfo → Rc × Option PoolInfo
get_pool_info env sync pool =
    told zero_pool_info (λ n. sync_call sync (get_pool_info_on_thread env n)) pool

unfoldable pub rename : Spdk → Sync → Option Name → Option Name → List Op → Rc × List Op
rename env sync = named_both sync (rename_on_thread env)
