-- ===== src/Base/Errno.antt =====
-- The `errno` values of Linux that the sources return.
use Prim.Native.Nat.{ℕ}

abbrev pub enoent : ℕ
enoent = 2

abbrev pub eio : ℕ
eio = 5

abbrev pub enomem : ℕ
enomem = 12

abbrev pub ebusy : ℕ
ebusy = 16

abbrev pub eexist : ℕ
eexist = 17

abbrev pub enodev : ℕ
enodev = 19

abbrev pub einval : ℕ
einval = 22

abbrev pub enospc : ℕ
enospc = 28

abbrev pub epipe : ℕ
epipe = 32

abbrev pub erange : ℕ
erange = 34

abbrev pub enametoolong : ℕ
enametoolong = 36

abbrev pub enosys : ℕ
enosys = 38

abbrev pub eproto : ℕ
eproto = 71

abbrev pub eoverflow : ℕ
eoverflow = 75

abbrev pub eopnotsupp : ℕ
eopnotsupp = 95

abbrev pub eshutdown : ℕ
eshutdown = 108

abbrev pub etimedout : ℕ
etimedout = 110
