-- ===== src/IoBatch/Submit.antt =====
-- A batch of src/libxbdev/io.c that cannot be sent leaves the pool of src/libxbdev/queue.c as it was.
use mathlib.Core.Path.{subst, ap₂}
use nblock.Prelude.{
  ℕ, ◌+◌, ◌%◌, ◌^◌, ◌<◌, ◌==◌, Bool, true, false, List, [], ◌∷◌, ◌++◌, Option, some, map, set,
  length, Bool-cases, Option-cases, ◌≡◌, refl, sym, ap, ◌∙◌, inl, inr, arith,
}
use native.Mathlib.Nat.{mod-eq_of_lt}
use nblock.Prelude.Errno.{Errno, einval, enomem, Rc, Rc-cases, ok, fail}
use nblock.Ring.{Ptr}
use nblock.Flags.{count_used}
use nblock.LockedQueue.System.{Pool, Sys, get_queue_index}
use nblock.LockedQueue.Client.{claim, batch_requests}
use nblock.LockedQueue.Pool.{IsValid, alloc_request_from_pool_lem}
use nblock.IoBatch.{
  IoRequest, IoBatch, kind_of, set_up, free_all, prepare, send_batch, io_batch_submit,
}
use nblock.IoBatch.Undo.{
  Undoable, Undoable-append, Undoable-taken, IsValid-set_up, free_all-Undoable,
}

-- What the loop may return, where the flags were `old` before the batch.
data Prepared (old : List Bool) : Rc × List ℕ × Sys → Type 0 where
  refused :
      {e : Errno} {reqs : List ℕ} (s : Sys)
      → IsValid s
      → s.req_pool.used ≡ old
      → Prepared old (fail e, reqs, s)
  filled :
      (reqs : List ℕ) (s : Sys)
      → IsValid s
      → s.initialized ≡ true
      → Undoable reqs s.req_pool.used old
      → Prepared old (ok, reqs, s)

taken_fields :
    (p : ℕ) (s : Sys)
    → ((claim false p s).req_pool.used ≡ set s.req_pool.used p true)
      × ((claim false p s).next_req_id ≡ (s.next_req_id + 1) % 2 ^ 64)
      × ((claim false p s).initialized ≡ s.initialized)
unfolding claim
taken_fields p s = (refl, refl, refl)

Prepared-prepare :
    (i : ℕ) (io_reqs : List IoRequest) (reqs : List ℕ) (s : Sys) (old : List Bool)
    → IsValid s
    → s.initialized ≡ true
    → s.next_req_id + length io_reqs < 2 ^ 64
    → Undoable reqs s.req_pool.used old
    → Prepared old (prepare i io_reqs reqs s)
unfolding prepare set_up free_all
Prepared-prepare i [] reqs s old v up ids u = filled reqs s v up u
Prepared-prepare i (io_req ∷ io_reqs) reqs s old v up ids u =
    elim (alloc_request_from_pool_lem false s v up (omega arith)) [
      | inl (full, nothing) ↦
          let (valid, back) = free_all-Undoable reqs s old v up u in
          let runs : prepare i (io_req ∷ io_reqs) reqs s ≡ (fail enomem, [], free_all reqs s) =
            ground (arith, nothing) in
          subst (Prepared old) (sym runs) (refused (free_all reqs s) valid back)
      | inr (p, took, small, free, first, valid) ↦
          let taken = claim false p s in
          let (used, next, running) = taken_fields p s in
          let room : p < length s.req_pool.used = omega (arith, v.used_size) in
          elim (Option-cases (kind_of io_req.op_type)) [
            | inl unknown ↦
                let left = free_all (p ∷ reqs) taken in
                let undo : Undoable (p ∷ reqs) taken.req_pool.used old =
                  subst (λ l. Undoable (p ∷ reqs) l old) (sym used)
                    (Undoable-taken reqs p s.req_pool.used old room free u) in
                let (valid', back) =
                  free_all-Undoable (p ∷ reqs) taken old valid (running ∙ up) undo in
                let runs : prepare i (io_req ∷ io_reqs) reqs s ≡ (fail einval, [], left) =
                  ground (arith, took, unknown) in
                subst (Prepared old) (sym runs) (refused left valid' back)
            | inr (kind, known) ↦
                let ready = set_up p kind i taken in
                let undo : Undoable (reqs ++ p ∷ []) taken.req_pool.used old =
                  subst (λ l. Undoable (reqs ++ p ∷ []) l old) (sym used)
                    (Undoable-append reqs p s.req_pool.used old room free u) in
                let runs : prepare i (io_req ∷ io_reqs) reqs s
                    ≡ prepare (i + 1) io_reqs (reqs ++ p ∷ []) ready =
                  ground (arith, took, known) in
                let ids_left : ready.next_req_id + length io_reqs < 2 ^ 64 =
                  omega (
                    arith,
                    next,
                    mod-eq_of_lt {n = s.next_req_id + 1} {m = 2 ^ 64} (omega arith),
                  ) in
                subst (Prepared old) (sym runs) (
                  Prepared-prepare (i + 1) io_reqs (reqs ++ p ∷ []) ready old
                    (IsValid-set_up p kind i taken valid) (running ∙ up) ids_left undo)
          ]
    ]

-- What a call of xbdev_batch_requests that fails leaves of the pool.
batch_requests-fail :
    (self now : ℕ) (reqs : List Ptr) (s : Sys) (e : Errno)
    → (batch_requests self now reqs s).0 ≡ fail e
    → ((batch_requests self now reqs s).2.req_pool ≡ s.req_pool)
      × ((batch_requests self now reqs s).2.next_req_id ≡ s.next_req_id)
      × ((batch_requests self now reqs s).2.initialized ≡ s.initialized)
unfolding batch_requests get_queue_index
batch_requests-fail self now reqs s e failed =
    (ground (arith, failed), ground (arith, failed), ground (arith, failed))

-- The pool's invariant is about the pool and the next id only.
IsValid-same_pool :
    (s t : Sys) → t.req_pool ≡ s.req_pool → t.next_req_id ≡ s.next_req_id → IsValid s → IsValid t
IsValid-same_pool s t pool next v =
    let moved : IsValid (record t { req_pool = s.req_pool; next_req_id = s.next_req_id }) = record {
      entries_size = v.entries_size;
      used_size = v.used_size;
      counted = v.counted;
      in_word = v.in_word;
      below = v.below;
      distinct = v.distinct;
    } in
    subst IsValid (ap₂ (λ p n. record t { req_pool = p; next_req_id = n }) (sym pool) (sym next))
      moved

-- The pool is as it was before, and so is the batch.
record Untouched (batch : IoBatch) (old : List Bool) (b : Option IoBatch) (t : Sys) : Type 0 where
  valid : IsValid t
  flags : t.req_pool.used ≡ old
  kept : b ≡ some batch

send_batch-fail :
    (self now number : ℕ) (batch : IoBatch) (old : List Bool) {r : Rc × List ℕ × Sys} (e : Errno)
    (b : Option IoBatch) (t : Sys)
    → Prepared old r
    → send_batch self now batch r ≡ (fail e, number, b, t)
    → Untouched batch old b t
unfolding send_batch
send_batch-fail self now number batch old e b t (refused s v back) failed =
    let left : s ≡ t = cc failed in
    record {
      valid = subst IsValid left v;
      flags = ap (λ (x : Sys). x.req_pool.used) (sym left) ∙ back;
      kept = cc failed;
    }
send_batch-fail self now number batch old e b t (filled reqs s v up u) failed =
    elim (Rc-cases (batch_requests self now (map some reqs) s).0) [
      | inl sent ↦ absurd (ground (arith, failed, sent))
      | inr (e', unsent) ↦
          let (pool, next, running) = batch_requests-fail self now (map some reqs) s e' unsent in
          let unsent_state : Sys = (batch_requests self now (map some reqs) s).2 in
          let valid = IsValid-same_pool s unsent_state pool next v in
          let undo = subst (λ (p : Pool). Undoable reqs p.used old) (sym pool) u in
          let (valid', back) = free_all-Undoable reqs unsent_state old valid (running ∙ up) undo in
          let left : free_all reqs unsent_state ≡ t = ground (arith, failed, unsent) in
          record {
            valid = subst IsValid left valid';
            flags = ap (λ (x : Sys). x.req_pool.used) (sym left) ∙ back;
            kept = ground (arith, failed, unsent);
          }
    ]

early :
    {batch : IoBatch} {b : Option IoBatch} (s t : Sys)
    → IsValid s
    → s ≡ t
    → b ≡ some batch
    → Untouched batch s.req_pool.used b t
early s t v same kept = record {
  valid = subst IsValid same v;
  flags = ap (λ (x : Sys). x.req_pool.used) (sym same);
  kept = kept;
}

start_undo : (flags : List Bool) → Undoable [] flags flags
unfolding Undoable
start_undo flags = refl

-- On a started system with a valid pool, before the request ids run out, a batch whose submission
-- fails, for whatever reason and however many requests were allocated, is as it was, and
-- every request that it took is back in the pool: the same places are in use as
-- before, their count is the same, and the pool is valid.
pub io_batch_submit-fail :
    (self now number : ℕ) (allocated : Bool) (batch : IoBatch) (b : Option IoBatch) (s t : Sys)
    (e : Errno)
    → IsValid s
    → s.initialized ≡ true
    → s.next_req_id + length batch.reqs < 2 ^ 64
    → io_batch_submit self now allocated (some batch) s ≡ (fail e, number, b, t)
    → (b ≡ some batch)
      × IsValid t
      × (t.req_pool.used ≡ s.req_pool.used)
      × (t.req_pool.used_count ≡ s.req_pool.used_count)
unfolding io_batch_submit
io_batch_submit-fail self now number allocated batch b s t e v up ids failed =
    let tried = prepare 0 batch.reqs [] s in
    let old = s.req_pool.used in
    let whole : Untouched batch old b t = elim (Bool-cases batch.submitted) [
      | inl sent ↦ early s t v (ground (arith, failed, sent)) (ground (arith, failed, sent))
      | inr unsent ↦ elim (Bool-cases (length batch.reqs == 0)) [
        | inl empty ↦ absurd (ground (arith, failed, unsent, empty))
        | inr some_in ↦ elim (Bool-cases allocated) [
          | inr full ↦
              early s t v (ground (arith, failed, unsent, some_in, full))
                (ground (arith, failed, unsent, some_in, full))
          | inl room ↦
              send_batch-fail self now number batch old e b t
                (Prepared-prepare 0 batch.reqs [] s old v up ids (start_undo old))
                (ground (arith, failed, unsent, some_in, room))
        ]
      ]
    ] in
    (
      whole.kept,
      whole.valid,
      whole.flags,
      whole.valid.counted ∙ ap count_used whole.flags ∙ sym v.counted,
    )
