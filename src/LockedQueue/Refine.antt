-- ===== src/LockedQueue/Refine.antt =====
-- A valid queue of `capacity` entries is the bounded queue of at most `capacity` requests.
use native.Mathlib.Nat.{mod-lt, mod-eq_of_lt, mod-add-mod}
use nblock.Prelude.{
  ℕ, suc, ◌+◌, ◌-◌, ◌%◌, ◌^◌, ◌≤◌, ◌<◌, ◌≡◌, ◌≢◌, refl, sym, ap, ◌∙◌, List, [], ◌∷◌, ◌++◌, Option,
  none, some, ◌⊎◌, inl, arith, Bool, false, length, length-append, length-set, set,
  length-replicate,
}
use nblock.Prelude.Errno.{eagain, ok}
use nblock.Prelude.Window.{window, window_push, window_pop, mod_distinct, window-set_outside}
use mathlib.Core.Option
use nblock.Fifo
use nblock.Fifo.{Op, put, get, Reply}
use nblock.Ring.{Ptr, add32}
use nblock.Ring.Refine.{ptrs, ptrs-append}
use nblock.LockedQueue.{
  Queue, Env, init_queue, store, enqueue_request, take_entry, dequeue_request, Wakeup,
}

-- The queue is sound, and holds the requests `q`, oldest first.
pub record Holds (queue : Queue) (q : List ℕ) : Type 0 where
  pub has_room : 0 < queue.capacity
  pub in_word : queue.capacity < 2 ^ 32
  pub storage : length queue.entries ≡ queue.capacity
  pub head_in : queue.head < queue.capacity
  pub tail_at : queue.tail ≡ (queue.head + length q) % queue.capacity
  pub size_is : queue.size ≡ length q
  pub bounded : length q ≤ queue.capacity
  pub slots : window none queue.capacity queue.entries queue.head (length q) ≡ ptrs q

-- `init_queue` with a capacity above 0 leaves a queue that holds nothing.
pub init_queue-Holds :
    (env : Env) (capacity : ℕ) (before : Queue) {queue : Queue}
    → capacity < 2 ^ 32
    → init_queue env capacity before ≡ (ok, queue)
    → Holds queue [] × (queue.capacity ≡ capacity)
unfolding init_queue
init_queue-Holds env capacity before {queue} fits e =
    ground (arith, length-replicate {A = Ptr} capacity none, mod-eq_of_lt {n = 0} {m = capacity})

module _ {queue : Queue} {q : List ℕ} (h : Holds queue q) where
  tail_next : add32 queue.tail 1 % queue.capacity ≡ (queue.head + suc (length q)) % queue.capacity
  tail_next =
      ap (λ (i : ℕ). i % queue.capacity) {y = queue.tail + 1}
        (omega (arith, h.tail_at, h.in_word, mod-lt (queue.head + length q) h.has_room))
      ∙ (ap (λ (i : ℕ). (i + 1) % queue.capacity) h.tail_at
          ∙ (mod-add-mod (queue.head + length q) queue.capacity 1
              ∙ ap (λ (i : ℕ). i % queue.capacity) (omega arith)))

  slots_store :
      (x : ℕ)
      → length q < queue.capacity
      → window none queue.capacity
          (set queue.entries queue.tail (some x))
          queue.head
          (suc (length q))
        ≡ ptrs (q ++ x ∷ [])
  slots_store x room =
      window_push none queue.capacity queue.entries queue.head (length q) queue.tail (ptrs q)
        (some x) room (omega (arith, h.storage)) h.tail_at h.slots
      ∙ sym (ptrs-append q x)

  -- The three assignments append the request, where there is room.
  pub store-Holds : (x : ℕ) → length q < queue.capacity → Holds (store queue (some x)) (q ++ x ∷ [])
  unfolding store
  store-Holds x room =
      let longer : length (q ++ x ∷ []) ≡ suc (length q) =
        omega (arith, length-append q (x ∷ [])) in
      record {
        has_room = h.has_room;
        in_word = h.in_word;
        storage = length-set queue.entries queue.tail (some x) ∙ h.storage;
        head_in = h.head_in;
        tail_at = tail_next ∙ ap (λ (n : ℕ). (queue.head + n) % queue.capacity) (sym longer);
        size_is = omega (arith, h.size_is, longer, h.in_word, room);
        bounded = omega (arith, longer, room);
        slots =
            ap (window none queue.capacity (set queue.entries queue.tail (some x)) queue.head)
              longer
            ∙ slots_store x room;
      }

-- The slot that is emptied is not among those that are left.
head_apart :
    (limit head j : ℕ) → head < limit → suc j < limit → head ≢ ((head + 1) % limit + j) % limit
head_apart limit head j t l e = mod_distinct limit head 0 (suc j) (omega arith) l (
    ap (λ (i : ℕ). i % limit) {y = head + 1 + j} (omega arith)
    ∙ (sym (mod-add-mod (head + 1) limit j)
        ∙ (sym e ∙ (sym (mod-eq_of_lt t) ∙ ap (λ (i : ℕ). i % limit) (omega arith)))))

take_rest-Holds :
    (queue : Queue) (x : ℕ) (q : List ℕ)
    → Holds queue (x ∷ q)
    → Holds
        (record queue {
          entries = set queue.entries queue.head none;
          head = add32 queue.head 1 % queue.capacity;
          size = queue.size - 1;
        })
        q
take_rest-Holds queue x q h =
    let limit = queue.capacity in
    let next : add32 queue.head 1 % limit ≡ (queue.head + 1) % limit =
      ap (λ (i : ℕ). i % limit) {y = queue.head + 1} (omega (arith, h.in_word, h.head_in)) in
    let (_, others) =
      window_pop none limit queue.entries queue.head (length q) (some x) (ptrs q) h.head_in
        h.slots in
    record {
      has_room = h.has_room;
      in_word = h.in_word;
      storage = length-set queue.entries queue.head none ∙ h.storage;
      head_in = mod-lt _ h.has_room;
      tail_at =
          h.tail_at
          ∙ (ap (λ (i : ℕ). i % limit) {y = queue.head + 1 + length q} (omega arith)
              ∙ (sym (mod-add-mod (queue.head + 1) limit (length q))
                  ∙ ap (λ (i : ℕ). (i + length q) % limit) (sym next)));
      size_is = omega (arith, h.size_is);
      bounded = omega (arith, h.bounded);
      slots =
          ap (λ (i : ℕ). window none limit (set queue.entries queue.head none) i (length q)) next
          ∙ (window-set_outside none limit queue.entries ((queue.head + 1) % limit) (length q)
                queue.head none
                (λ j l. head_apart limit queue.head j h.head_in (omega (arith, h.bounded)))
              ∙ others);
    }

-- Taking an entry gives the return code and the request of `Fifo.pop`, and leaves the rest.
pub take_entry_refines :
    (queue : Queue) (q : List ℕ)
    → Holds queue q
    → let (rc, out, queue') = take_entry queue in
      let ((rc', out'), q') = Fifo.pop q in (rc ≡ rc') × (out ≡ out') × Holds queue' q'
unfolding take_entry Fifo.pop
take_entry_refines queue [] h = ground arith
take_entry_refines queue (x ∷ q) h =
    let (first, _) =
      window_pop none queue.capacity queue.entries queue.head (length q) (some x) (ptrs q) h.head_in
        h.slots in
    ground (arith, h.size_is, first, take_rest-Holds queue x q h)

-- A call of `dequeue_request` that does not wait behaves as `Fifo.pop`; one that waits does so too
-- where the queue holds a request.
dequeue_request_take :
    (wait : Bool) (wakeups : List Wakeup) (queue : Queue)
    → (wait ≡ false) ⊎ (queue.size ≢ 0)
    → dequeue_request wait wakeups queue ≡ some (take_entry queue)
unfolding dequeue_request
dequeue_request_take wait [] queue h = ground arith
dequeue_request_take wait (w ∷ later) queue h = ground arith

pub enqueue_request_refines :
    (limit : ℕ) (queue : Queue) (q : List ℕ) (x : ℕ)
    → queue.capacity ≡ limit
    → Holds queue q
    → let (rc, queue') = enqueue_request (some x) queue in
      let (rc', q') = Fifo.push eagain limit q x in (rc ≡ rc') × Holds queue' q'
unfolding enqueue_request Fifo.push
enqueue_request_refines limit queue q x e h = ground (arith, store-Holds h x)

capacity-enqueue_request :
    (req : Ptr) (queue : Queue) → (enqueue_request req queue).1.capacity ≡ queue.capacity
unfolding enqueue_request store
capacity-enqueue_request none queue = refl
capacity-enqueue_request (some x) queue = ground arith

capacity-take_entry : (queue : Queue) → (take_entry queue).2.capacity ≡ queue.capacity
unfolding take_entry
capacity-take_entry queue = ground arith

-- The calls of a client in order, none of which waits, each with what it returns.
pub calls : Queue → List Op → Option (List Reply × Queue)
calls queue [] = some ([], queue)
calls queue (put x ∷ ops) =
    let (rc, queue') = enqueue_request (some x) queue in
    Option.map (λ (r : List Reply × Queue). ((rc, none) ∷ r.0, r.1)) (calls queue' ops)
calls queue (get ∷ ops) = elim (dequeue_request false [] queue) [
  | none ↦ none
  | some (rc, out, queue') ↦
      Option.map (λ (r : List Reply × Queue). ((rc, out) ∷ r.0, r.1)) (calls queue' ops)
]

-- No sequence of calls tells a queue from the bounded queue of the requests that it holds, and it
-- holds the bounded queue's requests when the sequence ends.
pub calls_refine :
    (limit : ℕ) (ops : List Op) (queue : Queue) (q : List ℕ)
    → queue.capacity ≡ limit
    → Holds queue q
    → let (replies, q') = Fifo.run eagain limit q ops in
      (queue' : Queue) × (calls queue ops ≡ some (replies, queue')) × Holds queue' q'
unfolding calls Fifo.run
calls_refine limit [] queue q c h = (queue, refl, h)
calls_refine limit (put x ∷ ops) queue q c h =
    let (rc, h') = enqueue_request_refines limit queue q x c h in
    let (last, e, held) =
      calls_refine limit ops (enqueue_request (some x) queue).1 (Fifo.push eagain limit q x).1
        (capacity-enqueue_request (some x) queue ∙ c) h' in
    (last, rw (e, rc) refl, held)
calls_refine limit (get ∷ ops) queue q c h =
    let (rc, out, h') = take_entry_refines queue q h in
    let (last, e, held) =
      calls_refine limit ops (take_entry queue).2 (Fifo.pop q).1 (capacity-take_entry queue ∙ c)
        h' in
    (last, rw (calls, dequeue_request_take false [] queue (inl refl), e, rc, out) refl, held)
