-- ===== src/Ring/Tests.antt =====
-- The theorems on the ring of src/libxbdev/request_queue.c at a ring of four slots, which holds two
-- requests across the end of its buffer.
use nblock.Prelude.{◌≡◌, refl, arith, List, [], ◌∷◌, none, some, map}
use nblock.Prelude.Errno.{enospc}
use nblock.Fifo
use nblock.Fifo.{Op, put, get}
use nblock.Ring.{Ring}
use nblock.Ring.Inv.{IsValid}
use nblock.Ring.Refine.{Holds, run, ptr_reply, run_refines}

abbrev pub wrapped_ring : Ring
wrapped_ring = record {
  head = 1;
  tail = 3;
  size = 4;
  mask = 3;
  buffer = some 6 ∷ none ∷ none ∷ some 5 ∷ [];
}

pub wrapped_ring-IsValid : IsValid 2 wrapped_ring
wrapped_ring-IsValid = record {
  small = omega arith;
  size_pow = refl;
  mask_low = refl;
  storage = refl;
  head_in = omega arith;
  tail_in = omega arith;
}

pub wrapped_ring-Holds : Holds 2 wrapped_ring (5 ∷ 6 ∷ [])
wrapped_ring-Holds = record { room = omega arith; head_at = refl; slots = refl }

-- The second request does not fit.
abbrev calls_made : List Op
calls_made = put 7 ∷ put 8 ∷ get ∷ put 8 ∷ []

run_refines_example :
    let (replies, ring') = run wrapped_ring calls_made in
    let (replies', q') = Fifo.run enospc 3 (5 ∷ 6 ∷ []) calls_made in
    (replies ≡ map ptr_reply replies') × IsValid 2 ring' × Holds 2 ring' q'
run_refines_example =
    run_refines 2 calls_made wrapped_ring (5 ∷ 6 ∷ []) wrapped_ring-IsValid wrapped_ring-Holds
