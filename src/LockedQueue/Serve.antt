-- ===== src/LockedQueue/Serve.antt =====
-- What the SPDK thread does with the queues of src/libxbdev/queue.c, against lists of requests: one
-- call serves the oldest request of the first queue that holds one, and a round serves up to 16.
use mathlib.Core.Path.{subst}
use nblock.Prelude.{
  ℕ, zero, suc, ◌≡◌, refl, sym, ap, ◌∙◌, ◌⊎◌, inl, inr, arith, true, false, List, [], ◌∷◌, ◌++◌,
  none, some, take, length,
}
use nblock.Fifo
use nblock.Ring.{Ptr}
use nblock.Request.{Request, Handler}
use nblock.LockedQueue.{Queue}
use nblock.LockedQueue.Refine.{Holds, take_entry_refines}
use nblock.LockedQueue.System.{Sys}
use nblock.LockedQueue.Process.{
  find_request, serve, process_next_request, process_rounds, process_request_queues,
}

-- The queues hold these requests, queue by queue.
pub data AllHold : List Queue → List (List ℕ) → Type 0 where
  nil : AllHold [] []
  cons :
      {queue : Queue} {q : List ℕ} {queues : List Queue} {qs : List (List ℕ)}
      → Holds queue q
      → AllHold queues qs
      → AllHold (queue ∷ queues) (q ∷ qs)

-- The oldest request of the first list that is not empty, and what is left.
abbrev pub next_of : List (List ℕ) → Ptr × List (List ℕ)
next_of [] = (none, [])
next_of ([] ∷ qs) = ((next_of qs).0, [] ∷ (next_of qs).1)
next_of ((p ∷ q) ∷ qs) = (some p, q ∷ qs)

-- All requests, in the order in which they are served.
abbrev pub in_order : List (List ℕ) → List ℕ
in_order [] = []
in_order (q ∷ qs) = q ++ in_order qs

next_of_lem :
    (qs : List (List ℕ))
    → (((next_of qs).0 ≡ none) × (in_order qs ≡ []) × ((next_of qs).1 ≡ qs))
      ⊎ ((p : ℕ) × ((next_of qs).0 ≡ some p) × (in_order qs ≡ p ∷ in_order (next_of qs).1))
next_of_lem [] = inl (refl, refl, refl)
next_of_lem ([] ∷ qs) = elim (next_of_lem qs) [
  | inl (e, nothing, same) ↦ inl (e, nothing, ap (◌∷◌ []) same)
  | inr found ↦ inr found
]
next_of_lem ((p ∷ q) ∷ qs) = inr (p, refl, refl)

find_request-AllHold :
    (queues : List Queue) (qs : List (List ℕ))
    → AllHold queues qs
    → let (found, queues') = find_request (length queues) queues in
      (found ≡ (next_of qs).0) × AllHold queues' (next_of qs).1 × (length queues' ≡ length queues)
unfolding find_request Fifo.pop
find_request-AllHold [] [] nil = (refl, nil, refl)
find_request-AllHold [] (_ ∷ _) h = elim h [ ]
find_request-AllHold (_ ∷ _) [] h = elim h [ ]
find_request-AllHold (queue ∷ queues) ([] ∷ qs) (cons h hs) =
    let (rc, out, h') = take_entry_refines queue [] h in
    let (found, rest, count) = find_request-AllHold queues qs hs in
    rw (rc, find_request) (found, cons h' rest, ap suc count)
find_request-AllHold (queue ∷ queues) ((p ∷ q) ∷ qs) (cons h hs) =
    let (rc, out, h') = take_entry_refines queue (p ∷ q) h in
    rw (rc, out, find_request) (refl, cons h' hs, refl)

module _ (call : Handler → Request → Request) (run_custom : ℕ → Request → Request) (now : ℕ) where
  serve-req_queues :
      (p : ℕ) (s : Sys) (queues : List Queue)
      → serve call run_custom now p (record s { req_queues = queues })
        ≡ record (serve call run_custom now p s) { req_queues = queues }
  unfolding serve
  serve-req_queues p s queues = ground arith

  same-serve :
      (p : ℕ) (s : Sys)
      → let t = serve call run_custom now p s in
        (t.initialized ≡ s.initialized)
        × (t.num_queues ≡ s.num_queues)
        × (t.req_queues ≡ s.req_queues)
  unfolding serve
  same-serve p s = ground arith

  -- The requests, served in their order.
  pub serve_all : List ℕ → Sys → Sys
  serve_all [] s = s
  serve_all (p ∷ q) s = serve_all q (serve call run_custom now p s)

  serve_all-req_queues :
      (q : List ℕ) (s : Sys) (queues : List Queue)
      → serve_all q (record s { req_queues = queues })
        ≡ record (serve_all q s) { req_queues = queues }
  unfolding serve_all
  serve_all-req_queues [] s queues = refl
  serve_all-req_queues (p ∷ q) s queues =
      ap (serve_all q) (serve-req_queues p s queues)
      ∙ serve_all-req_queues q (serve call run_custom now p s) queues

  process_next_request-none :
      (s : Sys) (queues : List Queue)
      → s.initialized ≡ true
      → find_request s.num_queues s.req_queues ≡ (none, queues)
      → process_next_request call run_custom now s ≡ (false, record s { req_queues = queues })
  unfolding process_next_request
  process_next_request-none s queues up e = ground (arith, ap (λ r. r.0) e, ap (λ r. r.1) e)

  process_next_request-some :
      (s : Sys) (p : ℕ) (queues : List Queue)
      → s.initialized ≡ true
      → find_request s.num_queues s.req_queues ≡ (some p, queues)
      → process_next_request call run_custom now s
        ≡ (true, record (serve call run_custom now p s) { req_queues = queues })
  unfolding process_next_request
  process_next_request-some s p queues up e =
      ground (arith, ap (λ r. r.0) e, ap (λ r. r.1) e, serve-req_queues p s queues)

  -- On a started system whose queues hold `qs`, one call of `xbdev_process_next_request` serves the
  -- oldest request of the first queue that holds one, which leaves its queue, and returns true. It
  -- returns false, and serves nothing, only if every queue is empty.
  pub process_next_request_lem :
      (s : Sys) (qs : List (List ℕ))
      → s.initialized ≡ true
      → s.num_queues ≡ length s.req_queues
      → AllHold s.req_queues qs
      → let (processed, t) = process_next_request call run_custom now s in
        AllHold t.req_queues (next_of qs).1
        × (length t.req_queues ≡ length s.req_queues)
        × (((processed ≡ false)
              × (in_order qs ≡ [])
              × ((next_of qs).1 ≡ qs)
              × (t ≡ record s { req_queues = t.req_queues }))
            ⊎ ((p : ℕ) × (processed ≡ true)
                × (in_order qs ≡ p ∷ in_order (next_of qs).1)
                × (t ≡ record (serve call run_custom now p s) { req_queues = t.req_queues })))
  process_next_request_lem s qs up count h =
      let (found, held, same) = find_request-AllHold s.req_queues qs h in
      let queues = (find_request (length s.req_queues) s.req_queues).1 in
      let run_on : (out : Ptr)
          → (next_of qs).0 ≡ out
          → find_request s.num_queues s.req_queues ≡ (out, queues) =
        λ out e. ap (λ n. find_request n s.req_queues) count ∙ ap (λ o. (o, queues)) (found ∙ e) in
      elim (next_of_lem qs) [
        | inl (e, nothing, unchanged) ↦
            rw (process_next_request-none s queues up (run_on none e))
              (held, same, inl (refl, nothing, unchanged, refl))
        | inr (p, e, order) ↦
            rw (process_next_request-some s p queues up (run_on (some p) e))
              (held, same, inr (p, refl, order, refl))
      ]

  process_rounds_lem :
      (n : ℕ) (s : Sys) (qs : List (List ℕ))
      → s.initialized ≡ true
      → s.num_queues ≡ length s.req_queues
      → AllHold s.req_queues qs
      → (rest : List (List ℕ)) × (take n (in_order qs) ++ in_order rest ≡ in_order qs)
        × (queues : List Queue) × AllHold queues rest
        × (process_rounds call run_custom now n s
            ≡ record (serve_all (take n (in_order qs)) s) { req_queues = queues })
  unfolding process_rounds serve_all
  process_rounds_lem zero s qs up count h = (qs, refl, s.req_queues, h, refl)
  process_rounds_lem (suc n) s qs up count h =
      let t = (process_next_request call run_custom now s).1 in
      let (held, same, what) = process_next_request_lem s qs up count h in
      elim what [
        | inl (stop, nothing, unchanged, e) ↦
            rw (nothing, stop)
              (qs, nothing, t.req_queues, subst (AllHold t.req_queues) unchanged held, e)
        | inr (p, go_on, order, e) ↦
            let (up', count', _) = same-serve p s in
            let (rest, all, queues, last, e') =
              process_rounds_lem n t (next_of qs).1 (ap (λ (u : Sys). u.initialized) e ∙ (up' ∙ up))
                (ap (λ (u : Sys). u.num_queues) e ∙ (count' ∙ (count ∙ sym same))) held in
            let q = take n (in_order (next_of qs).1) in
            rw (order, go_on)
              (
                rest,
                ap (◌∷◌ p) all,
                queues,
                last,
                e'
                    ∙ (ap (λ (u : Sys). record (serve_all q u) { req_queues = queues }) e
                        ∙ ap (λ (u : Sys). record u { req_queues = queues })
                            (serve_all-req_queues q (serve call run_custom now p s) t.req_queues)),
              )
      ]

  -- On a started system whose queues hold `qs`, a call of `xbdev_process_request_queues` serves the
  -- first 16 requests, or all if there are fewer: queue by queue, oldest first. The queues then hold
  -- exactly the requests that were not served.
  pub process_request_queues_lem :
      (s : Sys) (qs : List (List ℕ))
      → s.initialized ≡ true
      → s.num_queues ≡ length s.req_queues
      → AllHold s.req_queues qs
      → (rest : List (List ℕ)) × (take 16 (in_order qs) ++ in_order rest ≡ in_order qs)
        × (queues : List Queue) × AllHold queues rest
        × (process_request_queues call run_custom now s
            ≡ record (serve_all (take 16 (in_order qs)) s) { req_queues = queues })
  unfolding process_request_queues
  process_request_queues_lem s qs up count h = ground (arith, process_rounds_lem 16 s qs up count h)
