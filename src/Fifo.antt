-- ===== src/Fifo.antt =====
-- What a request queue promises its users: a bounded first-in first-out list of requests.
-- `src/libxbdev/request_queue.c` and `src/libxbdev/queue.c` implement it in different ways.
use nblock.Prelude.{ℕ, if◌then◌else◌, List, [], ◌∷◌, ◌++◌, Option, none, some, length, ltb}
use nblock.Prelude.Errno.{Errno, eagain, Rc, ok, fail}

-- A request is known by its place in the request pool.
pub data Op : Type 0 where
  put : ℕ → Op
  get : Op

-- What a caller sees: the return code, and the request that came out.
abbrev pub Reply : Type 0
Reply = Rc × Option ℕ

unfoldable pub pop : List ℕ → Reply × List ℕ
pop [] = ((fail eagain, none), [])
pop (x ∷ q) = ((ok, some x), q)

-- `full` is the error of a queue that holds `cap` requests.
module _ (full : Errno) (cap : ℕ) where
  unfoldable pub push : List ℕ → ℕ → Rc × List ℕ
  push q x = if ltb (length q) cap then (ok, q ++ x ∷ []) else (fail full, q)

  unfoldable pub run : List ℕ → List Op → List Reply × List ℕ
  run q [] = ([], q)
  run q (put x ∷ ops) =
      let (rc, q') = push q x in let (replies, last) = run q' ops in ((rc, none) ∷ replies, last)
  run q (get ∷ ops) =
      let (reply, q') = pop q in let (replies, last) = run q' ops in (reply ∷ replies, last)
