-- ===== src/Ring.antt =====
-- The ring buffer of src/libxbdev/request_queue.c: `xbdev_ring_t` and its four functions.
-- A request pointer is the request's place in the pool, and NULL is `none`. The pointer to the
-- ring is never NULL: every call passes the address of a member of `g_queue_ctx`. A NULL buffer
-- is the empty list.
pub mod Inv
pub mod Refine
pub mod Tests
use nblock.Prelude.{
  ℕ, ◌+◌, ◌-◌, ◌%◌, ◌^◌, bit_and, Bool, not, ◌||◌, ◌==◌, if◌then◌else◌, List, [], Option, none,
  some, get_or, set, replicate,
}
use nblock.Prelude.Errno.{einval, enomem, enospc, eagain, Rc, ok, fail}

abbrev pub Ptr : Type 0
Ptr = Option ℕ

-- A `uint32_t` sum.
abbrev pub add32 : ℕ → ℕ → ℕ
add32 a b = (a + b) % 2 ^ 32

-- A `uint32_t` difference.
abbrev pub sub32 : ℕ → ℕ → ℕ
sub32 a b = (a + 2 ^ 32 - b) % 2 ^ 32

pub record Ring : Type 0 where
  pub head : ℕ
  pub tail : ℕ
  pub size : ℕ
  pub mask : ℕ
  pub buffer : List Ptr

-- `allocated` says whether `calloc` succeeds.
unfoldable pub init : Bool → ℕ → Ring → Rc × Ring
init allocated size ring =
    if size == 0 || not (bit_and size (size - 1) == 0)
    then (fail einval, ring)
    else (if allocated
        then (
          ok,
          record { head = 0; tail = 0; size = size; mask = size - 1; buffer = replicate size none },
        )
        else (fail enomem, record ring { buffer = [] }))

unfoldable pub fini : Ring → Ring
fini ring = record ring { buffer = [] }

unfoldable pub enqueue : Ring → Ptr → Rc × Ring
enqueue ring req =
    let next_head = bit_and (add32 ring.head 1) ring.mask in
    if next_head == ring.tail
    then (fail enospc, ring)
    else (ok, record ring { buffer = set ring.buffer ring.head req; head = next_head })

-- The middle part is what is stored through `req`: nothing on an empty ring.
unfoldable pub dequeue : Ring → Rc × Option Ptr × Ring
dequeue ring = if ring.tail == ring.head then (fail eagain, none, ring) else (
  ok,
  some (get_or ring.buffer ring.tail none),
  record ring { tail = bit_and (add32 ring.tail 1) ring.mask },
)

-- `(head - tail) & mask`, as `xbdev_queue_get_stats` counts the waiting requests.
unfoldable pub used : Ring → ℕ
used ring = bit_and (sub32 ring.head ring.tail) ring.mask
