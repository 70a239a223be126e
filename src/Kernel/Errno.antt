-- ===== src/Kernel/Errno.antt =====
-- The error numbers that the drivers return, as negative integers.
use linux_driver_kb.Prelude.Int.{ℤ, negsuc}

abbrev pub eperm : ℤ
eperm = negsuc 0

abbrev pub eagain : ℤ
eagain = negsuc 10

abbrev pub enomem : ℤ
enomem = negsuc 11

abbrev pub efault : ℤ
efault = negsuc 13

abbrev pub ebusy : ℤ
ebusy = negsuc 15

abbrev pub enodev : ℤ
enodev = negsuc 18

abbrev pub einval : ℤ
einval = negsuc 21

abbrev pub erestartsys : ℤ
erestartsys = negsuc 511
