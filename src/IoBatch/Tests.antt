-- ===== src/IoBatch/Tests.antt =====
-- The theorems on the batches of src/libxbdev/io.c for a batch of three requests, of which the last has
-- an unknown type, and a pool of four places.
use nblock.Prelude.{◌≡◌, refl, true, false, List, [], ◌∷◌, some, arith}
use nblock.Prelude.Errno.{einval, ok, fail}
use nblock.Flags.{first_unused}
use nblock.LockedQueue.System.{Sys}
use nblock.LockedQueue.Client.{alloc_request_from_pool, claim}
use nblock.LockedQueue.Pool.{IsValid}
use nblock.LockedQueue.Tests.{running, running-IsValid}
use nblock.IoBatch.{
  OpType, op_read, op_write, other_op, IoRequest, IoBatch, set_up, prepare, send_batch,
  io_batch_submit, Round,
}
use nblock.IoBatch.Submit.{io_batch_submit-fail}

abbrev request_of : OpType → IoRequest
request_of type = record {
  fd = 1;
  buf = some 4096;
  count = 512;
  offset = 0;
  op_type = type;
  status = ok;
  completed = false;
}

abbrev three_requests : IoBatch
three_requests = record {
  max_requests = 8;
  reqs = request_of op_read ∷ request_of op_write ∷ request_of (other_op 99) ∷ [];
  submitted = false;
}

abbrev after_submit : Sys
after_submit = (io_batch_submit 7 100 true (some three_requests) running).3

submit_fails :
    io_batch_submit 7 100 true (some three_requests) running
    ≡ (fail einval, 0, some three_requests, after_submit)
unfolding io_batch_submit send_batch prepare alloc_request_from_pool first_unused set_up claim
submit_fails = refl

io_batch_submit-fail_example :
    (some three_requests ≡ some three_requests)
    × IsValid after_submit
    × (after_submit.req_pool.used ≡ running.req_pool.used)
    × (after_submit.req_pool.used_count ≡ running.req_pool.used_count)
io_batch_submit-fail_example =
    io_batch_submit-fail 7 100 0 true three_requests (some three_requests) running after_submit
      einval running-IsValid refl (omega arith) submit_fails

-- All three are completed, and the second round is past the time.
abbrev two_rounds : List Round
two_rounds =
    record { flags = (false, false) ∷ (true, true) ∷ (true, true) ∷ []; ticks = 5 }
    ∷ record { flags = (true, true) ∷ (true, true) ∷ (true, true) ∷ []; ticks = 5000 }
    ∷ []
