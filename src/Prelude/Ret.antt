-- ===== src/Prelude/Ret.antt =====
-- `int` return values: `negsuc n` is -(n + 1), and the errno names stand for negative codes.
use Prim.Native.Nat.{ℕ}
use mathlib.Core.Bool.{Bool, true, false}
use nvme_ioctl.Prelude.Tests.{◌==◌}

pub data ℤ : Type 0 where
  pos : ℕ → ℤ
  negsuc : ℕ → ℤ

-- `ret == 0` and `ret < 0`
abbrev pub is_zero : ℤ → Bool
is_zero (pos n) = n == 0
is_zero (negsuc n) = false

abbrev pub is_neg : ℤ → Bool
is_neg (pos n) = false
is_neg (negsuc n) = true

-- `a == b`
abbrev pub ret_eq : ℤ → ℤ → Bool
ret_eq (pos a) (pos b) = a == b
ret_eq (pos a) (negsuc b) = false
ret_eq (negsuc a) (pos b) = false
ret_eq (negsuc a) (negsuc b) = a == b

abbrev pub eintr : ℤ
eintr = negsuc 3

-- EWOULDBLOCK
abbrev pub eagain : ℤ
eagain = negsuc 10

abbrev pub enomem : ℤ
enomem = negsuc 11

abbrev pub eacces : ℤ
eacces = negsuc 12

abbrev pub efault : ℤ
efault = negsuc 13

abbrev pub einval : ℤ
einval = negsuc 21

abbrev pub enotty : ℤ
enotty = negsuc 24

abbrev pub eopnotsupp : ℤ
eopnotsupp = negsuc 94

abbrev pub eremoteio : ℤ
eremoteio = negsuc 120

abbrev pub eiocbqueued : ℤ
eiocbqueued = negsuc 528
