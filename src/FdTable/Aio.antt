-- ===== src/FdTable/Aio.antt =====
-- The asynchronous handlers of src/libxbdev/request_handler.c: one answer and one free for each
-- request.
use mathlib.Core.Path.{subst}
use nblock.Prelude.{
  ℕ, zero, suc, if◌then◌else◌, Bool, true, false, List, [], ◌∷◌, ◌++◌, Option, none, some,
  replicate, Bool-cases, Option-cases, ◌≡◌, refl, sym, ◌⊎◌, ◌%◌, ◌^◌, inl, inr, arith,
}
use nblock.Prelude.Errno.{ebadf, enomem, eio, Rc-cases}
use nblock.FdTable.{FdEntry}
use nblock.FdTable.Handlers.{
  SpdkIo, desc_of, AioStatus, moved, failed, AioCtx, finish_aio, aio_completion_cb, aio_on_thread,
  aio_polls, run_aio,
}

-- A request that nobody has answered.
pub record Waiting (ctx : AioCtx) : Type 0 where
  pub idle : ctx.done ≡ false
  pub uncalled : ctx.calls ≡ []
  pub held : ctx.frees ≡ 0

-- The user's function, if there is one, was called once, with the status of the request, and the
-- context was freed once.
pub record Answered (before after : AioCtx) : Type 0 where
  pub done : after.done ≡ true
  pub calls : after.calls ≡ (if before.has_cb then after.status ∷ [] else [])
  pub frees : after.frees ≡ 1

Answered-finish_aio :
    (status : AioStatus) (ctx : AioCtx) → Waiting ctx → Answered ctx (finish_aio status ctx)
unfolding finish_aio
Answered-finish_aio status ctx w = record {
  done = ground arith;
  calls = ground (arith, w.uncalled);
  frees = ground (arith, w.held);
}

aio_polls-completion :
    (n : ℕ) (success : Bool) (after : List (Option Bool)) (ctx : AioCtx)
    → aio_polls (replicate n none ++ some success ∷ after) ctx ≡ aio_completion_cb success ctx
unfolding aio_polls
aio_polls-completion zero success after ctx = refl
aio_polls-completion (suc n) success after ctx = aio_polls-completion n success after ctx

-- The handler leaves the request to SPDK or refuses it.
aio_on_thread-cases :
    (env : SpdkIo) (entries : List FdEntry) (ctx : AioCtx)
    → (aio_on_thread env entries ctx ≡ (true, ctx))
      ⊎ ((status : AioStatus) × (aio_on_thread env entries ctx ≡ (false, finish_aio status ctx)))
unfolding aio_on_thread
aio_on_thread-cases env entries ctx = elim (Option-cases (desc_of ctx.fd entries)) [
  | inl missing ↦ inr (failed ebadf, ground (arith, missing))
  | inr (d, found) ↦ elim (Bool-cases env.has_channel) [
    | inr without ↦ inr (failed enomem, ground (arith, found, without))
    | inl channel ↦ elim (Rc-cases env.submitted) [
      | inl accepted ↦ inl (ground (arith, found, channel, accepted))
      | inr (e, refused) ↦ inr (failed e, ground (arith, found, channel, refused))
    ]
  ]
]

-- A waiting request is done in the end, whether the handler refuses it or SPDK accepts it and
-- completes it at some poll: its context is freed exactly once, and the user's function, if there is one, is called exactly
-- once, with the status of the request.
pub Answered-run_aio :
    (env : SpdkIo) (entries : List FdEntry) (ctx : AioCtx) (n : ℕ) (success : Bool)
    (after : List (Option Bool))
    → Waiting ctx
    → env.polls ≡ replicate n none ++ some success ∷ after
    → Answered ctx (run_aio env entries ctx)
unfolding run_aio aio_completion_cb
Answered-run_aio env entries ctx n success after w polls =
    elim (aio_on_thread-cases env entries ctx) [
      | inl submitted ↦
          let status = if success then moved (ctx.count % 2 ^ 32) else failed eio in
          let runs : run_aio env entries ctx ≡ aio_completion_cb success ctx =
            ground (arith, submitted, polls, aio_polls-completion n success after ctx) in
          subst (Answered ctx) (sym runs) (Answered-finish_aio status ctx w)
      | inr (status, refused) ↦
          let answered = Answered-finish_aio status ctx w in
          let runs : run_aio env entries ctx ≡ finish_aio status ctx = ground (arith, refused) in
          subst (Answered ctx) (sym runs) answered
    ]
