-- ===== src/ReqQueue/Drain.antt =====
-- What `xbdev_process_request_queues` does to one queue: the loop against a plain recursion over the
-- requests that the ring holds.
use nblock.Prelude.{
  ℕ, zero, suc, ◌+◌, ◌^◌, ◌≤◌, ◌<◌, ◌≡◌, refl, ap, ◌∙◌, arith, List, [], ◌∷◌, some, get_or, length,
  if◌then◌else◌,
}
use nblock.Fifo
use nblock.Ring
use nblock.Ring.{sub32}
use nblock.Ring.Inv.{IsValid, dequeue-IsValid}
use nblock.Ring.Refine.{Holds, dequeue_refines}
use nblock.Request.{Request, Handler, zero_request}
use nblock.ReqQueue.Process.{Work, dispatch, serve, drain}

module _ (call : Handler → Request → Request) (now : ℕ) where
  -- The requests, served in their order.
  pub serve_all : List ℕ → Work → Work
  serve_all [] w = w
  serve_all (p ∷ q) w = serve_all q (serve call now p w)

  -- How many of them are done when their turn is over.
  unfoldable pub finished : List ℕ → Work → ℕ
  finished [] w = 0
  finished (p ∷ q) w =
      let rest = finished q (serve call now p w) in
      if (dispatch call now (get_or w.requests p zero_request)).done then suc rest else rest

  serve-ring :
      (p : ℕ) (w : Work) (ring : Ring.Ring)
      → serve call now p (record w { ring = ring }) ≡ record (serve call now p w) { ring = ring }
  unfolding serve
  serve-ring p w ring = ground arith

  serve_all-ring :
      (q : List ℕ) (w : Work) (ring : Ring.Ring)
      → serve_all q (record w { ring = ring }) ≡ record (serve_all q w) { ring = ring }
  unfolding serve_all
  serve_all-ring [] w ring = refl
  serve_all-ring (p ∷ q) w ring =
      ap (serve_all q) (serve-ring p w ring) ∙ serve_all-ring q (serve call now p w) ring

  -- With fuel for one round more than the ring holds requests, the loop ends: the ring is empty, and
  -- all else is as if exactly the requests held had been served, oldest first.
  pub drain-serve_all :
      (k fuel : ℕ) (q : List ℕ) (w : Work)
      → IsValid k w.ring
      → Holds k w.ring q
      → length q < fuel
      → (ring : Ring.Ring) × (drain call now fuel w ≡ some (record (serve_all q w) { ring = ring }))
        × IsValid k ring
        × Holds k ring []
  unfolding drain serve_all Fifo.pop
  drain-serve_all k zero q w v h l = elim l [ ]
  drain-serve_all k (suc fuel) [] w v h l =
      let (_, out, _) = dequeue_refines k w.ring [] v h in (w.ring, rw (out, drain), v, h)
  drain-serve_all k (suc fuel) (p ∷ q) w v h l =
      let (_, out, h') = dequeue_refines k w.ring (p ∷ q) v h in
      let next = (Ring.dequeue w.ring).2 in
      let (ring, e, v', h'') =
        drain-serve_all k fuel q (record (serve call now p w) { ring = next }) (dequeue-IsValid k v)
          h' (omega arith) in
      (
        ring,
        rw (out, drain)
            (ap (drain call now fuel) (serve-ring p w next)
              ∙ (e
                  ∙ ap (λ (u : Work). some (record u { ring = ring }))
                      (serve_all-ring q (serve call now p w) next))),
        v',
        h'',
      )

  -- If the pending count fits 32 bits and is not less than the number of requests that will be done,
  -- serving the requests takes exactly that number from it.
  pub pending-serve_all :
      (q : List ℕ) (w : Work)
      → w.pending < 2 ^ 32
      → finished q w ≤ w.pending
      → (serve_all q w).pending + finished q w ≡ w.pending
  unfolding serve_all finished serve
  pending-serve_all [] w fits l = omega arith
  pending-serve_all (p ∷ q) w fits l = ground (arith, pending-serve_all q (serve call now p w))
