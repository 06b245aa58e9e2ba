-- ===== src/Backend/Reading.antt =====
-- `ramdisk_backend_read` for every backend, every buffer and every answer of the mutex.
use ddr_direct_storage.Base.{
  ℕ, ◌+◌, ◌≤◌, ◌≡◌, refl, ap, ◌∙◌, false, Option, none, some, if◌then◌else◌, leb, ◌==◌, arith,
  Status, ok, err, Bytes, length, slice, splice, load-some, store, length-slice, Bool-cases,
  Option-cases, inl, inr,
}
use ddr_direct_storage.Base.Errno.{einval, erange}
use ddr_direct_storage.Backend.{
  Backend, copy_out, ramdisk_backend_lock, ramdisk_backend_unlock, ramdisk_backend_validate_range,
  ramdisk_backend_read,
}
use ddr_direct_storage.Backend.Range.{Holds, validate_range_lem}
use ddr_direct_storage.Backend.Access.{read_lem}

-- The memory of a backend that can be read.
abbrev pub memory_of : Backend → Option Bytes
memory_of b = if b.initialized then b.base else none

-- A copy of `len` bytes of `m` to the front of `target`, which needs room for them.
abbrev pub copied : Bytes → ℕ → ℕ → Bytes → Option Bytes
copied m offset len target =
    if leb len (length target) then some (splice target 0 (slice m offset len)) else none

-- A read of the memory `m`, for what taking the lock returns.
abbrev pub read_memory :
    ℕ → Backend → Bytes → ℕ → Bytes → ℕ → Option (Status × Backend × Option Bytes)
read_memory lock_rc b m offset target len =
    if leb (offset + len) (length m)
    then (if lock_rc == 0
        then elim (copied m offset len target) [
          | none ↦ none
          | some filled ↦ some (ok, record b { locked = false }, some filled)
        ]
        else some (err lock_rc, b, some target))
    else some (err erange, b, some target)

abbrev pub read_result :
    ℕ → Backend → ℕ → Option Bytes → ℕ → Option (Status × Backend × Option Bytes)
read_result lock_rc b offset none len = some (err einval, b, none)
read_result lock_rc b offset (some target) len = elim (memory_of b) [
  | none ↦ some (err einval, b, some target)
  | some m ↦ read_memory lock_rc b m offset target len
]

no_memory :
    (b : Backend) (offset len : ℕ)
    → memory_of b ≡ none
    → ramdisk_backend_validate_range b offset len ≡ err einval
unfolding ramdisk_backend_validate_range
no_memory b offset len e = ground arith

memory-Holds : (b : Backend) (m : Bytes) → memory_of b ≡ some m → length m ≡ b.size → Holds b m
memory-Holds b m there sized = ground arith

-- A buffer that is too small cannot be filled.
store_small :
    (target bs : Bytes) → leb (length bs) (length target) ≡ false → store target 0 bs ≡ none
unfolding store
store_small target bs small = ground arith

copy_out_small :
    (m target : Bytes) (offset len : ℕ)
    → offset + len ≤ length m
    → leb len (length target) ≡ false
    → copy_out (some m) offset len target ≡ none
unfolding copy_out
copy_out_small m target offset len inside small =
    let got = slice m offset len in
    let size : length got ≡ len = length-slice m offset len inside in
    let short : leb (length got) (length target) ≡ false =
      ap (λ n. leb n (length target)) size ∙ small in
    rw (copy_out, load-some m offset len inside) (store_small target got short)

module _ (b : Backend) (m : Bytes) (holds : Holds b m) where
  read_memory_lem :
      (lock_rc offset len : ℕ) (target : Bytes)
      → ramdisk_backend_read lock_rc b offset (some target) len
        ≡ read_memory lock_rc b m offset target len
  unfolding ramdisk_backend_read ramdisk_backend_lock ramdisk_backend_unlock
  read_memory_lem lock_rc offset len target = elim (Bool-cases (leb len (length target))) [
    | inl fits ↦ ground (arith, fits, read_lem b m holds lock_rc offset len target)
    | inr small ↦ ground (
      arith,
      small,
      holds,
      validate_range_lem b m offset len holds,
      copy_out_small m target offset len,
    )
  ]

-- For any backend whose memory, if it has one, is as large as it says, any buffer and any answer of
-- the mutex: a null buffer and a backend that is not initialised or has no memory are refused with
-- EINVAL, a range that leaves the memory with ERANGE, and a lock that fails with its error, in this
-- order and with nothing changed; else exactly the bytes of the range are copied to the front of the
-- buffer and the lock is free, where the buffer has room for them, and a smaller buffer is undefined
-- behaviour.
pub ramdisk_backend_read_lem :
    (lock_rc : ℕ) (b : Backend) (offset : ℕ) (buf : Option Bytes) (len : ℕ)
    → ((m : Bytes) → memory_of b ≡ some m → length m ≡ b.size)
    → ramdisk_backend_read lock_rc b offset buf len ≡ read_result lock_rc b offset buf len
unfolding ramdisk_backend_read
ramdisk_backend_read_lem lock_rc b offset none len sized = refl
ramdisk_backend_read_lem lock_rc b offset (some target) len sized =
    elim (Option-cases (memory_of b)) [
      | inl nothing ↦
          rw (ramdisk_backend_read, no_memory b offset len nothing, read_result, nothing) refl
      | inr (m, there) ↦
          read_memory_lem b m (memory-Holds b m there (sized m there)) lock_rc offset len target
          ∙ rw (read_result, there) refl
    ]
