-- ===== src/LockedQueue/Process.antt =====
-- How the SPDK thread works off the queues of src/libxbdev/queue.c: `xbdev_process_next_request` and
-- `xbdev_process_request_queues`.
use nblock.Prelude.{
  ℕ, zero, suc, if◌then◌else◌, Bool, true, false, not, List, [], ◌∷◌, ◌++◌, none, some, set,
}
use nblock.Prelude.Errno.{ok, fail}
use nblock.Ring.{Ptr}
use nblock.Request.{Request, Kind, custom, Handler, handler_of, processing}
use nblock.LockedQueue.{Queue, take_entry}
use nblock.LockedQueue.System.{Sys}
use nblock.LockedQueue.Client.{request_at, mark_request_complete}

-- The loop over the queues up to the first that gives a request that is not NULL.
-- `dequeue_request` is called so that it does not wait, and then is `take_entry`.
unfoldable pub find_request : ℕ → List Queue → Ptr × List Queue
find_request zero queues = (none, queues)
find_request (suc n) [] = (none, [])
find_request (suc n) (q ∷ queues) =
    let (rc, out, q') = take_entry q in
    let (found, rest) = find_request n queues in
    elim rc [
      | fail e ↦ (found, q' ∷ rest)
      | ok ↦ elim out [ none ↦ (found, q' ∷ rest) | some p ↦ (some p, q' ∷ queues) ]
    ]

-- `call h r` is the request after the handler `h` has run on it, and `run_custom f r` the request
-- after the user's function at `f` has run on its context. `now` is what `spdk_get_ticks` returns.
module _ (call : Handler → Request → Request) (run_custom : ℕ → Request → Request) (now : ℕ) where
  -- The case of the switch for a custom request.
  unfoldable pub dispatch_custom : Request → Request
  dispatch_custom r = elim r.ctx [
    | none ↦ r
    | some _ ↦ elim r.cb [ none ↦ r | some f ↦ run_custom f r ]
  ]

  unfoldable pub is_custom : Kind → Bool
  is_custom custom = true
  is_custom _ = false

  -- The switch, from the change of status on.
  unfoldable pub dispatch : Request → Request
  dispatch r =
      let started = record r { status = processing } in
      elim (handler_of r.kind) [
        | some h ↦ call h started
        | none ↦ if is_custom r.kind then dispatch_custom started else started
      ]

  -- The work on the request that was found.
  unfoldable pub serve : ℕ → Sys → Sys
  unfolding dispatch
  serve p s =
      let r = dispatch (request_at s.req_pool p) in
      let (finished, events) = mark_request_complete now r.result r in
      if r.sync_req
      then record s {
        req_pool = record s.req_pool { entries = set s.req_pool.entries p finished };
        log = s.log ++ events;
      }
      else record s { req_pool = record s.req_pool { entries = set s.req_pool.entries p r } }

  unfoldable pub process_next_request : Sys → Bool × Sys
  process_next_request s =
      let (found, queues) = find_request s.num_queues s.req_queues in
      let t = record s { req_queues = queues } in
      if not s.initialized
      then (false, s)
      else elim found [ none ↦ (false, t) | some p ↦ (true, serve p t) ]

  -- The loop of `xbdev_process_request_queues`, for what is left of the 16 rounds.
  unfoldable pub process_rounds : ℕ → Sys → Sys
  process_rounds zero s = s
  process_rounds (suc n) s =
      let (processed, t) = process_next_request s in
      let rest = process_rounds n t in if processed then rest else t

  -- In its second definition.
  unfoldable pub process_request_queues : Sys → Sys
  process_request_queues s = if not s.initialized then s else process_rounds 16 s
