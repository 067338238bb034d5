-- ===== src/FdTable/Tests.antt =====
-- The theorems on src/libxbdev/core.c and request_handler.c for a table with one open device.
use nblock.Prelude.{◌+◌, ◌^◌, ◌<◌, ◌≡◌, refl, true, false, [], ◌∷◌, some, arith}
use nblock.Prelude.Names.{Name}
use nblock.Prelude.Errno.{ebadf, eio, ok, fail}
use nblock.FdTable.{FdTable, SpdkInit, xbdev_init, create_fd_entry, got, xbdev_open, xbdev_close}
use nblock.FdTable.Handlers.{
  write, get_io_channel, put_io_channel, submit, IoCtx, finish, handle_on_thread, failed, AioCtx,
  run_aio,
}
use nblock.FdTable.Inv.{Rising, descs, has, Distinct, IsValid}
use nblock.FdTable.Run.{Fresh, Run, done, next, inits, opens, IsValid-Run}
use nblock.FdTable.Serve.{succeeds, completes, handle_on_thread-open}
use nblock.FdTable.Aio.{Waiting, Answered, Answered-run_aio}

abbrev nvme : Name
nvme = 110 ∷ 48 ∷ []

abbrev fresh_table : FdTable
fresh_table = record {
  initialized = false;
  entries = [];
  next_fd = 1;
  held = [];
  thread_lib = false;
}

abbrev spdk_up : SpdkInit
spdk_up = record { env_init = ok; lib_init = ok; thread_created = true }

fresh_table-IsValid : IsValid fresh_table
unfolding Rising descs Distinct
fresh_table-IsValid = record {
  rising = omega arith;
  owned = refl;
  distinct = refl;
  closed = λ _. refl;
}

abbrev started : FdTable
started = record fresh_table { initialized = true; thread_lib = true }

first_open-Fresh : Fresh (succeeds 70 80) (xbdev_init spdk_up fresh_table).1
unfolding Fresh xbdev_init has
first_open-Fresh d given = refl

init_up : (xbdev_init spdk_up fresh_table).1.initialized ≡ true
unfolding xbdev_init
init_up = refl

counter_small : (xbdev_init spdk_up fresh_table).1.next_fd + 1 < 2 ^ 31
unfolding xbdev_init
counter_small = omega arith

abbrev opened_table : FdTable
opened_table = (xbdev_open (succeeds 70 80) (some nvme) (xbdev_init spdk_up fresh_table).1).1

start_and_open : Run fresh_table opened_table
start_and_open =
    next (next done (inits spdk_up))
      (opens (succeeds 70 80) (some nvme) init_up counter_small first_open-Fresh)

IsValid-Run_example : IsValid opened_table
IsValid-Run_example = IsValid-Run start_and_open fresh_table-IsValid

abbrev one_open : FdTable
one_open = record {
  initialized = true;
  entries = create_fd_entry 3 nvme 70 80 ∷ [];
  next_fd = 4;
  held = 80 ∷ [];
  thread_lib = true;
}

one_open-IsValid : IsValid one_open
unfolding Rising descs Distinct has
one_open-IsValid = record {
  rising = (omega arith, omega arith);
  owned = refl;
  distinct = (refl, refl);
  closed = λ down. absurd (cc down);
}

abbrev writing : IoCtx
writing = record { fd = 4; has_buf = true; offset = 512; count = 1024; status = ok; done = false }

-- A write fails at the third poll.
handle_on_thread-open_example :
    let (rc, t) = xbdev_open (succeeds 71 81) (some nvme) one_open in
    let io = completes 4096 2 false [] in
    (rc ≡ got 4)
    × (handle_on_thread write io t.entries writing ≡ (
      some (finish (fail eio) writing),
      get_io_channel 81 ∷ submit write 81 (some (512, 1024)) ∷ put_io_channel ∷ [],
    ))
    × (handle_on_thread write io (xbdev_close 4 t).1.entries writing
        ≡ (some (finish (fail ebadf) writing), []))
handle_on_thread-open_example =
    handle_on_thread-open write one_open nvme 71 81 4096 2 false [] writing one_open-IsValid refl
      refl refl

abbrev reading : AioCtx
reading = record {
  fd = 3;
  count = 100;
  has_cb = true;
  status = failed eio;
  done = false;
  calls = [];
  frees = 0;
}

reading-Waiting : Waiting reading
reading-Waiting = record { idle = refl; uncalled = refl; held = refl }

Answered-run_aio_example :
    Answered reading (run_aio (completes 4096 1 true []) one_open.entries reading)
Answered-run_aio_example =
    Answered-run_aio (completes 4096 1 true []) one_open.entries reading 1 true [] reading-Waiting
      refl
