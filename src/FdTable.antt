-- ===== src/FdTable.antt =====
-- src/libxbdev/core.c: the table of file descriptors, and the start and end of the library. The lock,
-- the allocator and SPDK are parameters; each function is one step.
pub mod Handlers
pub mod Inv
pub mod Owned
pub mod Run
pub mod Serve
pub mod Aio
pub mod Tests
use nblock.Prelude.{
  ℕ, suc, ◌+◌, ◌%◌, ◌^◌, ◌==◌, if◌then◌else◌, Bool, true, false, not, ◌&&◌, List, [], ◌∷◌, ◌++◌,
  Option, none, some,
}
use nblock.Prelude.Names.{Name, clip}
use nblock.Prelude.Errno.{Errno, einval, enomem, enodev, ebadf, Rc, ok, fail}

-- `bdev` and `desc` are the addresses of SPDK's objects.
pub record FdEntry : Type 0 where
  pub fd : ℕ
  pub bdev_name : Name
  pub bdev : Option ℕ
  pub desc : Option ℕ

-- The static variables of the file. `held` are the descriptors that SPDK opened and has not closed,
-- `thread_lib` says whether SPDK's thread library is up.
pub record FdTable : Type 0 where
  pub initialized : Bool
  pub entries : List FdEntry
  pub next_fd : ℕ
  pub held : List ℕ
  pub thread_lib : Bool

-- What SPDK answers at the start: two return values, and whether there is a thread.
pub record SpdkInit : Type 0 where
  pub env_init : Rc
  pub lib_init : Rc
  pub thread_created : Bool

-- What SPDK and the allocator answer to an open: the device, and the descriptor or an error.
pub data OpenAnswer : Type 0 where
  opened : ℕ → OpenAnswer
  refused : Errno → OpenAnswer

pub record SpdkOpen : Type 0 where
  pub bdev : Option ℕ
  pub answer : OpenAnswer
  pub allocated : Bool

-- A file descriptor, or a negated error number.
pub data FdRc : Type 0 where
  got : ℕ → FdRc
  error : Errno → FdRc

unfoldable pub xbdev_init : SpdkInit → FdTable → Rc × FdTable
xbdev_init env s = if s.initialized then (ok, s) else elim env.env_init [
  | fail e ↦ (fail e, s)
  | ok ↦ elim env.lib_init [
    | fail e ↦ (fail e, s)
    | ok ↦
        if not env.thread_created
        then (fail enomem, record s { thread_lib = false })
        else (ok, record s { thread_lib = true; entries = []; initialized = true })
  ]
]

-- `spdk_bdev_close`
unfoldable pub drop_desc : ℕ → List ℕ → List ℕ
drop_desc d [] = []
drop_desc d (x ∷ xs) = let rest = drop_desc d xs in if x == d then xs else x ∷ rest

unfoldable pub close_desc : Option ℕ → List ℕ → List ℕ
close_desc none held = held
close_desc (some d) held = drop_desc d held

unfoldable pub close_all : List FdEntry → List ℕ → List ℕ
close_all [] held = held
close_all (e ∷ entries) held = close_all entries (close_desc e.desc held)

unfoldable pub xbdev_fini : FdTable → Rc × FdTable
xbdev_fini s = if not s.initialized then (ok, s) else (
  ok,
  record s {
    held = close_all s.entries s.held;
    entries = [];
    thread_lib = false;
    initialized = false;
  },
)

-- `_xbdev_get_fd_entry`
unfoldable pub get_fd_entry : ℕ → List FdEntry → Option FdEntry
get_fd_entry fd [] = none
get_fd_entry fd (e ∷ entries) =
    let rest = get_fd_entry fd entries in if e.fd == fd then some e else rest

-- `g_next_fd++`. The counter is an int, given by its 32 bits: from 2 ^ 31 on these are the bits of a negative
-- number. The overflow, which C leaves undefined, is taken to wrap around.
unfoldable pub allocate_fd : ℕ → ℕ
allocate_fd next_fd = (next_fd + 1) % 2 ^ 32

-- `create_fd_entry`, with the fields that `xbdev_open` sets afterwards.
abbrev pub create_fd_entry : ℕ → Name → ℕ → ℕ → FdEntry
create_fd_entry fd bdev_name bdev desc = record {
  fd = fd;
  bdev_name = clip bdev_name;
  bdev = some bdev;
  desc = some desc;
}

unfoldable pub xbdev_open : SpdkOpen → Option Name → FdTable → FdRc × FdTable
xbdev_open env none s = (error einval, s)
xbdev_open env (some bdev_name) s = elim env.bdev [
  | none ↦ (error enodev, s)
  | some bdev ↦ elim env.answer [
    | refused e ↦ (error e, s)
    | opened desc ↦
        let entry = create_fd_entry s.next_fd bdev_name bdev desc in
        if not env.allocated
        then (error enomem, record s { held = drop_desc desc (s.held ++ desc ∷ []) })
        else (
          got s.next_fd,
          record s {
            held = s.held ++ desc ∷ [];
            next_fd = allocate_fd s.next_fd;
            entries = s.entries ++ entry ∷ [];
          },
        )
  ]
]

-- `TAILQ_REMOVE` of the entry that the search finds.
unfoldable pub remove_entry : ℕ → List FdEntry → List FdEntry
remove_entry fd [] = []
remove_entry fd (e ∷ entries) =
    let rest = remove_entry fd entries in if e.fd == fd then entries else e ∷ rest

unfoldable pub xbdev_close : ℕ → FdTable → Rc × FdTable
xbdev_close fd s = elim (get_fd_entry fd s.entries) [
  | none ↦ (fail ebadf, s)
  | some e ↦ (ok, record s { entries = remove_entry fd s.entries; held = close_desc e.desc s.held })
]
