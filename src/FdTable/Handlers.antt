-- ===== src/FdTable/Handlers.antt =====
-- src/libxbdev/request_handler.c: the handlers that run a request on an SPDK thread. What SPDK
-- answers is a parameter, and the calls of SPDK are recorded in a log.
use nblock.Prelude.{
  ℕ, ◌+◌, ◌%◌, ◌^◌, ◌==◌, if◌then◌else◌, Bool, true, false, not, ◌||◌, List, [], ◌∷◌, ◌++◌, Option,
  none, some,
}
use nblock.Prelude.Errno.{Errno, einval, enomem, ebadf, eio, Rc, ok, fail}
use nblock.FdTable.{FdEntry, FdTable, get_fd_entry, close_desc}

-- The operations with a handler of their own.
pub data Op : Type 0 where
  read write unmap reset flush : Op

-- The calls of SPDK: a channel is taken and given back, and an operation is submitted for a range
-- of bytes, which a reset has none of.
pub data SpdkCall : Type 0 where
  get_io_channel : ℕ → SpdkCall
  put_io_channel : SpdkCall
  submit : Op → ℕ → Option (ℕ × ℕ) → SpdkCall

-- The request's context; `has_buf` is whether `buf` is not NULL.
pub record IoCtx : Type 0 where
  pub fd : ℕ
  pub has_buf : Bool
  pub offset : ℕ
  pub count : ℕ
  pub status : Rc
  pub done : Bool

-- What SPDK answers: whether there is a channel, what the submission returns, the size of the device
-- in bytes, and what each poll of the thread brings, `some` being the call of the completion
-- function with its `success`.
pub record SpdkIo : Type 0 where
  pub has_channel : Bool
  pub submitted : Rc
  pub bdev_size : ℕ
  pub polls : List (Option Bool)

unfoldable pub io_completion_cb : Bool → IoCtx → IoCtx
io_completion_cb success ctx = record ctx { status = if success then ok else fail eio; done = true }

-- `while (!ctx->done)`; `none` where the polls end and it still waits.
unfoldable pub wait_done : List (Option Bool) → IoCtx → Option IoCtx
wait_done [] ctx = if ctx.done then some ctx else none
wait_done (none ∷ polls) ctx = let rest = wait_done polls ctx in if ctx.done then some ctx else rest
wait_done (some success ∷ polls) ctx =
    let rest = wait_done polls (io_completion_cb success ctx) in if ctx.done then some ctx else rest

-- Only read and write look at the buffer and the count.
abbrev pub is_invalid : Op → IoCtx → Bool
is_invalid read ctx = not ctx.has_buf || ctx.count == 0
is_invalid write ctx = not ctx.has_buf || ctx.count == 0
is_invalid unmap ctx = false
is_invalid reset ctx = false
is_invalid flush ctx = false

abbrev pub range_of : Op → SpdkIo → IoCtx → Option (ℕ × ℕ)
range_of read env ctx = some (ctx.offset, ctx.count)
range_of write env ctx = some (ctx.offset, ctx.count)
range_of unmap env ctx = some (ctx.offset, ctx.count)
range_of reset env ctx = none
range_of flush env ctx = some (0, env.bdev_size)

abbrev pub finish : Rc → IoCtx → IoCtx
finish status ctx = record ctx { status = status; done = true }

-- `entry->desc` of the entry that the search finds.
unfoldable pub desc_of : ℕ → List FdEntry → Option ℕ
desc_of fd entries = elim (get_fd_entry fd entries) [ none ↦ none | some e ↦ e.desc ]

-- The handlers for read, write, unmap, reset and flush. Returns the context once the handler has
-- returned, and the calls of SPDK.
unfoldable pub handle_on_thread : Op → SpdkIo → List FdEntry → IoCtx → Option IoCtx × List SpdkCall
handle_on_thread op env entries ctx =
    if is_invalid op ctx
    then (some (finish (fail einval) ctx), [])
    else (elim (desc_of ctx.fd entries) [
      | none ↦ (some (finish (fail ebadf) ctx), [])
      | some desc ↦
          if not env.has_channel
          then (some (finish (fail enomem) ctx), get_io_channel desc ∷ [])
          else (
            elim env.submitted [
              | ok ↦ wait_done env.polls ctx
              | fail e ↦ wait_done env.polls (finish (fail e) ctx)
            ],
            get_io_channel desc ∷ submit op desc (range_of op env ctx) ∷ put_io_channel ∷ [],
          )
    ])

abbrev pub xbdev_read_on_thread : SpdkIo → List FdEntry → IoCtx → Option IoCtx × List SpdkCall
xbdev_read_on_thread = handle_on_thread read

abbrev pub xbdev_write_on_thread : SpdkIo → List FdEntry → IoCtx → Option IoCtx × List SpdkCall
xbdev_write_on_thread = handle_on_thread write

abbrev pub xbdev_unmap_on_thread : SpdkIo → List FdEntry → IoCtx → Option IoCtx × List SpdkCall
xbdev_unmap_on_thread = handle_on_thread unmap

abbrev pub xbdev_reset_on_thread : SpdkIo → List FdEntry → IoCtx → Option IoCtx × List SpdkCall
xbdev_reset_on_thread = handle_on_thread reset

abbrev pub xbdev_flush_on_thread : SpdkIo → List FdEntry → IoCtx → Option IoCtx × List SpdkCall
xbdev_flush_on_thread = handle_on_thread flush

-- `entry->desc` and `entry->bdev` are cleared; the entry stays in the table.
unfoldable pub clear_desc : ℕ → List FdEntry → List FdEntry
clear_desc fd [] = []
clear_desc fd (e ∷ entries) =
    let rest = clear_desc fd entries in
    if e.fd == fd then record e { bdev = none; desc = none } ∷ entries else e ∷ rest

-- `rc` of the context stays as it was where the descriptor is known, which `ok` stands for.
unfoldable pub xbdev_close_on_thread : ℕ → FdTable → Rc × FdTable
xbdev_close_on_thread fd s = elim (get_fd_entry fd s.entries) [
  | none ↦ (fail ebadf, s)
  | some e ↦ elim e.desc [
    | none ↦ (ok, s)
    | some desc ↦
        (ok, record s { entries = clear_desc fd s.entries; held = close_desc (some desc) s.held })
  ]
]

-- An asynchronous request: `status` is 0 or a negated error number, or the bits of `(int)count`.
-- `calls` are the calls of the user's function with the status, `frees` those of `free` on it.
pub data AioStatus : Type 0 where
  moved : ℕ → AioStatus
  failed : Errno → AioStatus

pub record AioCtx : Type 0 where
  pub fd : ℕ
  pub count : ℕ
  pub has_cb : Bool
  pub status : AioStatus
  pub done : Bool
  pub calls : List AioStatus
  pub frees : ℕ

-- The status is set, the user's function is called, if there is one, and the context is freed.
unfoldable pub finish_aio : AioStatus → AioCtx → AioCtx
finish_aio status ctx =
    let set : AioCtx = record ctx { status = status; done = true; frees = ctx.frees + 1 } in
    if ctx.has_cb then record set { calls = ctx.calls ++ status ∷ [] } else set

unfoldable pub aio_completion_cb : Bool → AioCtx → AioCtx
aio_completion_cb success ctx =
    finish_aio (if success then moved (ctx.count % 2 ^ 32) else failed eio) ctx

-- The handlers for asynchronous read and write, which differ only in what they submit. Also returns
-- whether SPDK accepted the submission, and so is going to call the completion function.
unfoldable pub aio_on_thread : SpdkIo → List FdEntry → AioCtx → Bool × AioCtx
aio_on_thread env entries ctx = elim (desc_of ctx.fd entries) [
  | none ↦ (false, finish_aio (failed ebadf) ctx)
  | some desc ↦
      if not env.has_channel
      then (false, finish_aio (failed enomem) ctx)
      else (elim env.submitted [ ok ↦ (true, ctx) | fail e ↦ (false, finish_aio (failed e) ctx) ])
]

-- The call of the completion function after the handler, which SPDK makes once for each submission
-- that it accepted, at the first poll that brings the completion; it does not look at the context.
unfoldable pub aio_polls : List (Option Bool) → AioCtx → AioCtx
aio_polls [] ctx = ctx
aio_polls (none ∷ polls) ctx = aio_polls polls ctx
aio_polls (some success ∷ polls) ctx = aio_completion_cb success ctx

unfoldable pub run_aio : SpdkIo → List FdEntry → AioCtx → AioCtx
run_aio env entries ctx =
    let (accepted, handled) = aio_on_thread env entries ctx in
    if accepted then aio_polls env.polls handled else handled
