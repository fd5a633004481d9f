-- ===== src/Prelude/Int.antt =====
-- C `int` values as integers over the native numbers, and the kernel's error codes.
use Prim.Native.Nat.{ℕ, suc, ◌+◌, ◌-◌, ◌%◌}
use mathlib.Core.Bool.{Bool, true, false, ◌&&◌}
use linux_kernel_development.Prelude.Tests.{leb, ◌==◌, if◌then◌else◌}

-- `negsuc n` is -(n + 1).
pub data ℤ : Type 0 where
  pos : ℕ → ℤ
  negsuc : ℕ → ℤ

abbrev pub pos_part : ℤ → ℕ
pos_part (pos n) = n
pos_part (negsuc n) = 0

abbrev pub neg_part : ℤ → ℕ
neg_part (pos n) = 0
neg_part (negsuc n) = suc n

-- a - b, as an integer.
abbrev pub sub_ℕ : ℕ → ℕ → ℤ
sub_ℕ a b = if leb b a then pos (a - b) else negsuc (b - a - 1)

infixl 65 ◌+ℤ◌
abbrev pub ◌+ℤ◌ : ℤ → ℤ → ℤ
a +ℤ b = sub_ℕ (pos_part a + pos_part b) (neg_part a + neg_part b)

-- The remainder of C: the sign is that of the dividend.
abbrev pub rem_ℤ : ℤ → ℕ → ℤ
rem_ℤ (pos n) k = pos (n % k)
rem_ℤ (negsuc n) k = sub_ℕ 0 (suc n % k)

abbrev pub is_neg : ℤ → Bool
is_neg (pos n) = false
is_neg (negsuc n) = true

abbrev pub eq_ℤ : ℤ → ℤ → Bool
eq_ℤ a b = pos_part a == pos_part b && neg_part a == neg_part b

-- `-ENODEV` and its like: the negated codes of <errno.h>.
abbrev pub neg_errno : ℕ → ℤ
neg_errno n = sub_ℕ 0 n

abbrev pub enoent : ℤ
enoent = neg_errno 2

abbrev pub eio : ℤ
eio = neg_errno 5

abbrev pub eagain : ℤ
eagain = neg_errno 11

abbrev pub enomem : ℤ
enomem = neg_errno 12

abbrev pub efault : ℤ
efault = neg_errno 14

abbrev pub ebusy : ℤ
ebusy = neg_errno 16

abbrev pub enodev : ℤ
enodev = neg_errno 19

abbrev pub einval : ℤ
einval = neg_errno 22

abbrev pub enotty : ℤ
enotty = neg_errno 25

abbrev pub epipe : ℤ
epipe = neg_errno 32

abbrev pub erestartsys : ℤ
erestartsys = neg_errno 512
