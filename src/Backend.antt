-- ===== src/Backend.antt =====
-- userspace-nbd/src/ramdisk_backend.c and its header: the RAM disk's memory behind a mutex.
-- `none` stands for undefined behaviour. What libc answers (the return codes of the `pthread`
-- calls, the object that `memalign` gives) are arguments.
pub mod Range
pub mod Access
pub mod Reading
pub mod RoundTrip
mod Tests
use Prim.Native.Nat.{bit_and}
use ddr_direct_storage.Base.{
  ℕ, ◌*◌, ◌-◌, ◌^◌, Bool, true, false, not, ◌&&◌, ◌||◌, Option, none, some, ltb, ◌==◌,
  if◌then◌else◌, is_none, ◌>>=◌, Status, ok, err, Bytes, length, replicate, slice, splice, load,
  store, u64_max,
}
use ddr_direct_storage.Base.Errno.{einval, enomem, erange}

-- `struct ramdisk_backend`. `base` is the object that the pointer owns, `locked` the mutex's state.
pub record Backend : Type 0 where
  pub base : Option Bytes
  pub size : ℕ
  pub block_size : ℕ
  pub locked : Bool
  pub initialized : Bool

abbrev pub ramdisk_max_block_size : ℕ
ramdisk_max_block_size = 1024 * 1024

-- After `memset(backend, 0, sizeof(*backend))`.
abbrev pub zeroed : Backend
zeroed = record { base = none; size = 0; block_size = 0; locked = false; initialized = false }

-- `value` is a `uint32_t`, so `value - 1` does not wrap where it is read.
unfoldable pub is_power_of_two : ℕ → Bool
is_power_of_two value = not (value == 0) && bit_and value (value - 1) == 0

unfoldable pub validate_block_size : ℕ → Status
unfolding is_power_of_two
validate_block_size block_size =
    if not (is_power_of_two block_size)
    then err einval
    else if ltb block_size 512 || ltb ramdisk_max_block_size block_size
    then err einval
    else ok

-- `size_max` is `SIZE_MAX`, `mutex_rc` the return value of `pthread_mutex_init`, `memory` what
-- `memalign` gives.
unfoldable pub ramdisk_backend_create : ℕ → ℕ → ℕ → ℕ → Option Bytes → Option (Status × Backend)
ramdisk_backend_create size_max mutex_rc size block_size memory =
    if size == 0 || ltb size_max size
    then some (err einval, zeroed)
    else elim (validate_block_size block_size) [
      | err e ↦ some (err e, zeroed)
      | ok ↦ if not (mutex_rc == 0) then some (err mutex_rc, zeroed) else elim memory [
        | none ↦ some (err enomem, zeroed)
        | some m ↦ do
          m' ← store m 0 (replicate size 0)
          some (
            ok,
            record {
              base = some m';
              size = size;
              block_size = block_size;
              locked = false;
              initialized = true;
            },
          )
      ]
    ]

unfoldable pub ramdisk_backend_destroy : Backend → Backend
ramdisk_backend_destroy b =
    if not b.initialized
    then b
    else record b { base = none; size = 0; block_size = 0; initialized = false }

unfoldable pub ramdisk_backend_validate_range : Backend → ℕ → ℕ → Status
ramdisk_backend_validate_range b offset len =
    if not b.initialized || is_none b.base
    then err einval
    else if ltb b.size offset
    then err erange
    else if ltb (b.size - offset) len
    then err erange
    else ok

-- `rc` is the return value of `pthread_mutex_lock`.
unfoldable pub ramdisk_backend_lock : ℕ → Backend → Status × Backend
ramdisk_backend_lock rc b =
    if not b.initialized
    then (err einval, b)
    else if rc == 0
    then (ok, record b { locked = true })
    else (err rc, b)

unfoldable pub ramdisk_backend_unlock : Backend → Backend
ramdisk_backend_unlock b = if b.initialized then record b { locked = false } else b

-- `memcpy(buf, base + offset, len)`: the buffer afterwards.
unfoldable pub copy_out : Option Bytes → ℕ → ℕ → Bytes → Option Bytes
copy_out none offset len buf = none
copy_out (some m) offset len buf = do bytes ← load m offset len; store buf 0 bytes

-- `memcpy(base + offset, bytes, len)`.
unfoldable pub copy_in : Option Bytes → ℕ → Bytes → Option (Option Bytes)
copy_in none offset bytes = none
copy_in (some m) offset bytes = do m' ← store m offset bytes; some (some m')

unfoldable pub ramdisk_backend_read :
    ℕ → Backend → ℕ → Option Bytes → ℕ → Option (Status × Backend × Option Bytes)
ramdisk_backend_read rc b offset none len = some (err einval, b, none)
ramdisk_backend_read rc b offset (some buf) len =
    elim (ramdisk_backend_validate_range b offset len) [
      | err e ↦ some (err e, b, some buf)
      | ok ↦
          let (s, b') = ramdisk_backend_lock rc b in
          elim s [
            | err e ↦ some (err e, b', some buf)
            | ok ↦ do
              buf' ← copy_out b'.base offset len buf
              some (ok, ramdisk_backend_unlock b', some buf')
          ]
    ]

-- `buf` is the object that the caller's pointer names; `len` bytes of it are read.
unfoldable pub ramdisk_backend_write :
    ℕ → Backend → ℕ → Option Bytes → ℕ → Option (Status × Backend)
ramdisk_backend_write rc b offset none len = some (err einval, b)
ramdisk_backend_write rc b offset (some buf) len =
    elim (ramdisk_backend_validate_range b offset len) [
      | err e ↦ some (err e, b)
      | ok ↦
          let (s, b') = ramdisk_backend_lock rc b in
          elim s [
            | err e ↦ some (err e, b')
            | ok ↦ do
              bytes ← load buf 0 len
              base' ← copy_in b'.base offset bytes
              some (ok, ramdisk_backend_unlock (record b' { base = base' }))
          ]
    ]

unfoldable pub ramdisk_backend_zero : ℕ → Backend → ℕ → ℕ → Option (Status × Backend)
ramdisk_backend_zero rc b offset len = elim (ramdisk_backend_validate_range b offset len) [
  | err e ↦ some (err e, b)
  | ok ↦
      let (s, b') = ramdisk_backend_lock rc b in
      elim s [
        | err e ↦ some (err e, b')
        | ok ↦ do
          base' ← copy_in b'.base offset (replicate len 0)
          some (ok, ramdisk_backend_unlock (record b' { base = base' }))
      ]
]

unfoldable pub ramdisk_backend_base : Backend → Option Bytes
ramdisk_backend_base b = if b.initialized then b.base else none

unfoldable pub ramdisk_backend_size : Backend → ℕ
ramdisk_backend_size b = if b.initialized then b.size else 0

unfoldable pub ramdisk_backend_block_size : Backend → ℕ
ramdisk_backend_block_size b = if b.initialized then b.block_size else 0
