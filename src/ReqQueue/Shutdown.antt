-- ===== src/ReqQueue/Shutdown.antt =====
-- `xbdev_queue_fini` with requests pending: once the queues are stopping, no function lowers the
-- pending count, so the wait does not end.
use nblock.Prelude.{ℕ, List, [], ◌∷◌, none, some}
use nblock.Ring.{Ptr}
use nblock.Request.{Request, Handler}
use nblock.ReqQueue.State.{Sys}
use nblock.ReqQueue.Client.{request_alloc, sync_request_alloc, request_submit, request_free}
use nblock.ReqQueue.Process.{process}

-- A call that another thread makes while `xbdev_queue_fini` waits.
pub data Call : Type 0 where
  poll : ℕ → Call
  submit : ℕ → Ptr → Call
  alloc sync_alloc : ℕ → ℕ → Call
  free : Ptr → Call

module _ (call : Handler → Request → Request) where
  -- What the call does to the state; `process` ends here, as `process-NoneReady` shows.
  pub step : Call → Sys → Sys
  step (poll now) s = elim (process call now s) [ none ↦ s | some t ↦ t ]
  step (submit tid req) s = (request_submit tid req s).1
  step (alloc tid now) s = (request_alloc tid now s).1
  step (sync_alloc tid now) s = (sync_request_alloc tid now s).1
  step (free req) s = (request_free req s).1

  pub steps : List Call → Sys → Sys
  steps [] s = s
  steps (c ∷ cs) s = steps cs (step c s)
