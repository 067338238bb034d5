-- ===== src/Prelude/Errno.antt =====
-- What the C functions return: 0 or a negated error number, or a value.
use Prim.Native.Nat.{ℕ}
use mathlib.Core.Path.{◌≡◌, refl}
use mathlib.Core.Logic.{◌⊎◌, inl, inr}

-- `other` is the code of a call outside the library, passed on as it is.
pub data Errno : Type 0 where
  einval enomem enospc eagain ebusy eexist ealready ecanceled enoent enodev eperm etimedout eacces
        enotsup ebadf eio :
      Errno
  other : ℕ → Errno

-- An `int` that is 0 or a negated error number.
pub data Rc : Type 0 where
  ok : Rc
  fail : Errno → Rc

pub Rc-cases : (rc : Rc) → (rc ≡ ok) ⊎ ((e : Errno) × (rc ≡ fail e))
Rc-cases ok = inl refl
Rc-cases (fail e) = inr (e, refl)
