-- ===== src/FdTable/Serve.antt =====
-- File descriptors of src/libxbdev/core.c as the handlers of src/libxbdev/request_handler.c see
-- them: what an open gives, a handler uses, and what a close took is refused.
use nblock.Prelude.{
  ℕ, zero, suc, ◌+◌, ◌<◌, ◌==◌, if◌then◌else◌, Bool, true, false, List, [], ◌∷◌, ◌++◌, Option, none,
  some, replicate, Bool-cases, ◌≡◌, refl, ap, ◌∙◌, inl, inr, arith,
}
use nblock.Prelude.Names.{Name}
use nblock.Prelude.Errno.{ebadf, eio, ok, fail}
use nblock.FdTable.{
  FdEntry, FdTable, SpdkOpen, opened, got, create_fd_entry, get_fd_entry, xbdev_open, remove_entry,
  xbdev_close,
}
use nblock.FdTable.Handlers.{
  Op, get_io_channel, put_io_channel, submit, IoCtx, SpdkIo, io_completion_cb, wait_done,
  is_invalid, range_of, finish, desc_of, handle_on_thread,
}
use nblock.FdTable.Inv.{Rising, Rising-below, Rising-append, IsValid}

get_fd_entry-below :
    (low fd : ℕ) (entries : List FdEntry) (next : ℕ)
    → Rising low entries next
    → fd < low
    → get_fd_entry fd entries ≡ none
unfolding Rising get_fd_entry
get_fd_entry-below low fd [] next r h = refl
get_fd_entry-below low fd (e ∷ entries) next (first, r) h =
    ground (arith, get_fd_entry-below (suc e.fd) fd entries next r (omega arith))

get_fd_entry-append :
    (low : ℕ) (entries : List FdEntry) (e : FdEntry)
    → Rising low entries e.fd
    → get_fd_entry e.fd (entries ++ e ∷ []) ≡ some e
unfolding Rising get_fd_entry
get_fd_entry-append low [] e r = ground arith
get_fd_entry-append low (x ∷ entries) e (first, r) =
    ground
      (arith, get_fd_entry-append (suc x.fd) entries e r, Rising-below (suc x.fd) entries e.fd r)

get_fd_entry-remove_entry :
    (low fd : ℕ) (entries : List FdEntry) (next : ℕ)
    → Rising low entries next
    → get_fd_entry fd (remove_entry fd entries) ≡ none
unfolding Rising get_fd_entry remove_entry
get_fd_entry-remove_entry low fd [] next r = refl
get_fd_entry-remove_entry low fd (e ∷ entries) next (first, r) = elim (Bool-cases (e.fd == fd)) [
  | inl here ↦ rw here (get_fd_entry-below (suc e.fd) fd entries next r (ground arith))
  | inr there ↦ ground (arith, there, get_fd_entry-remove_entry (suc e.fd) fd entries next r)
]

-- A completion that some poll brings ends the wait.
wait_done-completion :
    (n : ℕ) (success : Bool) (after : List (Option Bool)) (ctx : IoCtx)
    → ctx.done ≡ false
    → wait_done (replicate n none ++ some success ∷ after) ctx ≡ some (io_completion_cb success ctx)
unfolding wait_done io_completion_cb
wait_done-completion zero success [] ctx idle = ground (arith, idle)
wait_done-completion zero success (none ∷ after) ctx idle = ground (arith, idle)
wait_done-completion zero success (some later ∷ after) ctx idle = ground (arith, idle)
wait_done-completion (suc n) success after ctx idle =
    ground (arith, idle, wait_done-completion n success after ctx idle)

-- SPDK opens the device, and the entry is allocated.
abbrev pub succeeds : ℕ → ℕ → SpdkOpen
succeeds bdev desc = record { bdev = some bdev; answer = opened desc; allocated = true }

-- SPDK accepts the operation, and completes it at the poll after the first `n`.
abbrev pub completes : ℕ → ℕ → Bool → List (Option Bool) → SpdkIo
completes bdev_size n success after = record {
  has_channel = true;
  submitted = ok;
  bdev_size = bdev_size;
  polls = replicate n none ++ some success ∷ after;
}

handle-desc :
    (op : Op) (size n : ℕ) (success : Bool) (after : List (Option Bool)) (entries : List FdEntry)
    (ctx : IoCtx) (desc : ℕ)
    → desc_of ctx.fd entries ≡ some desc
    → is_invalid op ctx ≡ false
    → ctx.done ≡ false
    → handle_on_thread op (completes size n success after) entries ctx ≡ (
      some (finish (if success then ok else fail eio) ctx),
      get_io_channel desc
          ∷ submit op desc (range_of op (completes size n success after) ctx)
          ∷ put_io_channel
          ∷ [],
    )
unfolding handle_on_thread io_completion_cb
handle-desc op size n success after entries ctx desc found valid idle =
    ground (arith, found, valid, wait_done-completion n success after ctx idle)

handle-closed :
    (op : Op) (io : SpdkIo) (entries : List FdEntry) (ctx : IoCtx)
    → desc_of ctx.fd entries ≡ none
    → is_invalid op ctx ≡ false
    → handle_on_thread op io entries ctx ≡ (some (finish (fail ebadf) ctx), [])
unfolding handle_on_thread
handle-closed op io entries ctx gone valid = ground (arith, gone, valid)

-- On a valid table, where SPDK opens the device and later completes what it is asked, with success
-- or without: an open returns the next file descriptor; each handler for a request on it that is not
-- malformed takes a channel of that very device, submits its one operation there, gives the channel
-- back and returns with the request done and the status of the completion; and after the close of
-- the file descriptor it returns with -EBADF and calls SPDK for nothing.
pub handle_on_thread-open :
    (op : Op) (s : FdTable) (name : Name) (bdev desc size n : ℕ) (success : Bool)
    (after : List (Option Bool)) (ctx : IoCtx)
    → IsValid s
    → ctx.fd ≡ s.next_fd
    → ctx.done ≡ false
    → is_invalid op ctx ≡ false
    → let (rc, t) = xbdev_open (succeeds bdev desc) (some name) s in
      let io = completes size n success after in
      (rc ≡ got s.next_fd)
      × (handle_on_thread op io t.entries ctx ≡ (
        some (finish (if success then ok else fail eio) ctx),
        get_io_channel desc ∷ submit op desc (range_of op io ctx) ∷ put_io_channel ∷ [],
      ))
      × (handle_on_thread op io (xbdev_close ctx.fd t).1.entries ctx
          ≡ (some (finish (fail ebadf) ctx), []))
unfolding xbdev_open xbdev_close desc_of
handle_on_thread-open op s name bdev desc size n success after ctx v at idle valid =
    let entry = create_fd_entry s.next_fd name bdev desc in
    let all = s.entries ++ entry ∷ [] in
    let found : get_fd_entry ctx.fd all ≡ some entry =
      ap (λ k. get_fd_entry k all) at ∙ get_fd_entry-append 1 s.entries entry v.rising in
    let named : desc_of ctx.fd all ≡ some desc = ground (arith, found) in
    let t : FdTable = (xbdev_open (succeeds bdev desc) (some name) s).1 in
    let gone : desc_of ctx.fd (xbdev_close ctx.fd t).1.entries ≡ none = ground (
      arith,
      found,
      get_fd_entry-remove_entry 1 ctx.fd all (s.next_fd + 1)
          (Rising-append 1 s.entries entry v.rising),
    ) in
    (
      refl,
      handle-desc op size n success after all ctx desc named valid idle,
      handle-closed op (completes size n success after) (xbdev_close ctx.fd t).1.entries ctx gone
          valid,
    )
