-- ===== src/ReqQueue/Process.antt =====
-- `xbdev_process_request_queues` of src/libxbdev/request_queue.c, which the SPDK thread runs.
use nblock.Prelude.{
  ℕ, zero, suc, ◌+◌, if◌then◌else◌, true, not, List, [], ◌∷◌, ◌++◌, Option, none, some, get_or, set,
}
use nblock.Prelude.Errno.{einval, fail}
use nblock.Ring
use nblock.Ring.{Ptr, add32, sub32}
use nblock.Request.{
  Request, Handler, handler_of, zero_request, Event, broadcast, callback, processing, error,
}
use nblock.ReqQueue.State.{Sys, is_ready, queue_at}

-- What the loop over one queue works on.
pub record Work : Type 0 where
  pub ring : Ring.Ring
  pub pending : ℕ
  pub requests : List Request
  pub log : List Event

-- `call h r` is the request after the handler `h` has run on it. The handlers stand in other files
-- of the library; `now` is what `spdk_get_ticks` returns.
module _ (call : Handler → Request → Request) (now : ℕ) where
  -- The switch, from the change of status on.
  unfoldable pub dispatch : Request → Request
  dispatch r =
      let started = record r { status = processing } in
      elim (handler_of r.kind) [
        | some h ↦ call h started
        | none ↦ record started { status = error; result = fail einval; done = true }
      ]

  -- What a request that is done sets off: the broadcast, then the user's function.
  unfoldable pub notices : Request → List Event
  notices r =
      (if r.sync_req then broadcast ∷ [] else [])
      ++ elim r.cb [ none ↦ [] | some cb ↦ callback cb r.req_id r.result r.cb_arg ∷ [] ]

  -- The body of the loop for a request that is not NULL.
  unfoldable pub serve : ℕ → Work → Work
  unfolding dispatch notices
  serve p w =
      let r = dispatch (get_or w.requests p zero_request) in
      if r.done
      then record w {
        pending = sub32 w.pending 1;
        requests = set w.requests p (record r { complete_tsc = now });
        log = w.log ++ notices r;
      }
      else record w { requests = set w.requests p r }

  -- A NULL in the ring is passed over.
  unfoldable pub serve_ptr : Ptr → Work → Work
  unfolding serve
  serve_ptr none w = w
  serve_ptr (some p) w = serve p w

  -- `while (ring_dequeue(&queue->ring, &req) == 0)`, with fuel: `none` where it still runs.
  unfoldable pub drain : ℕ → Work → Option Work
  unfolding serve_ptr
  drain zero w = none
  drain (suc fuel) w =
      let (rc, out, ring) = Ring.dequeue w.ring in
      elim out [ none ↦ some w | some req ↦ drain fuel (serve_ptr req (record w { ring = ring })) ]

  unfoldable pub process_queue : ℕ → Sys → Option Sys
  unfolding drain
  process_queue i s =
      let queue = queue_at s i in
      let start : Work = record {
        ring = queue.ring;
        pending = queue.pending;
        requests = s.pool.requests;
        log = s.log;
      } in
      if not (is_ready queue.status) then some s else elim (drain (queue.ring.size + 1) start) [
        | none ↦ none
        | some w ↦ some (record s {
          queues = set s.queues i (record queue { ring = w.ring; pending = w.pending });
          pool = record s.pool { requests = w.requests };
          log = w.log;
        })
      ]

  -- The queues from `i` on, `n` of them.
  unfoldable pub process_from : ℕ → ℕ → Sys → Option Sys
  unfolding process_queue
  process_from zero i s = some s
  process_from (suc n) i s = elim (process_queue i s) [
    | none ↦ none
    | some t ↦ process_from n (i + 1) t
  ]

  unfoldable pub process : Sys → Option Sys
  unfolding process_from
  process s = if not s.initialized then some s else process_from s.num_queues 0 s
