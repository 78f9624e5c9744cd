-- ===== src/Shared/Results.antt =====
-- What a fallible call gives: Rust's `Result` with the kernel's error codes, or a panic.
use Prim.Native.Nat.{ℕ}
use mathlib.Core.Option.{Option, none, some}

-- `kernel::error::Error`: a negated errno.
pub data Error : Type 0 where
  errno : ℕ → Error

abbrev pub eperm : Error
eperm = errno 1

abbrev pub enoent : Error
enoent = errno 2

abbrev pub enxio : Error
enxio = errno 6

abbrev pub e2big : Error
e2big = errno 7

abbrev pub enomem : Error
enomem = errno 12

abbrev pub efault : Error
efault = errno 14

abbrev pub ebusy : Error
ebusy = errno 16

abbrev pub einval : Error
einval = errno 22

abbrev pub enotty : Error
enotty = errno 25

abbrev pub eoverflow : Error
eoverflow = errno 75

pub data Outcome (A : Type 0) : Type 0 where
  ok : A → Outcome A
  err : Error → Outcome A
  panic : Outcome A

abbrev pub ok_or : {A : Type 0} → Option A → Error → Outcome A
ok_or none e = err e
ok_or (some a) e = ok a

abbrev pub NoPanic : {A : Type 0} → Outcome A → Type 0
NoPanic (ok a) = Unit
NoPanic (err e) = Unit
NoPanic panic = ⊥
