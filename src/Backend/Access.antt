-- ===== src/Backend/Access.antt =====
-- Reading, writing and zeroing, against a plain array of bytes.
use ddr_direct_storage.Base.{
  ℕ, ◌+◌, ◌≤◌, ◌≡◌, false, some, if◌then◌else◌, leb, ◌==◌, arith, ok, err, Bytes, length, slice,
  splice, length-slice, load-some, store-some, zeros, length-zeros,
}
use ddr_direct_storage.Base.Errno.{erange}
use ddr_direct_storage.Backend.{
  Backend, copy_out, copy_in, ramdisk_backend_lock, ramdisk_backend_unlock, ramdisk_backend_read,
  ramdisk_backend_write, ramdisk_backend_zero,
}
use ddr_direct_storage.Backend.Range.{Holds, validate_range_lem}

pub copy_out_lem :
    (m buf : Bytes) (offset len : ℕ)
    → offset + len ≤ length m
    → len ≤ length buf
    → copy_out (some m) offset len buf ≡ some (splice buf 0 (slice m offset len))
unfolding copy_out
copy_out_lem m buf offset len h k = ground (
  arith,
  load-some m offset len,
  length-slice m offset len,
  store-some buf 0 (slice m offset len),
)

pub copy_in_lem :
    (m bytes : Bytes) (offset : ℕ)
    → offset + length bytes ≤ length m
    → copy_in (some m) offset bytes ≡ some (some (splice m offset bytes))
unfolding copy_in
copy_in_lem m bytes offset h = ground (arith, store-some m offset bytes)

module _ (b : Backend) (m : Bytes) (holds : Holds b m) where
  -- A read with a buffer that is large enough is defined. It is refused out of range or if the lock
  -- fails, with nothing changed, and else fills the buffer and leaves the lock free.
  pub read_lem :
      (rc offset len : ℕ) (buf : Bytes)
      → len ≤ length buf
      → ramdisk_backend_read rc b offset (some buf) len ≡ (
          if leb (offset + len) (length m)
          then (if rc == 0
              then some (ok, record b { locked = false }, some (splice buf 0 (slice m offset len)))
              else some (err rc, b, some buf))
          else some (err erange, b, some buf))
  unfolding ramdisk_backend_read ramdisk_backend_lock ramdisk_backend_unlock
  read_lem rc offset len buf h =
      ground (arith, validate_range_lem b m offset len holds, copy_out_lem m buf offset len)

  pub write_lem :
      (rc offset len : ℕ) (buf : Bytes)
      → len ≤ length buf
      → ramdisk_backend_write rc b offset (some buf) len ≡ (
          if leb (offset + len) (length m)
          then (if rc == 0
              then some
                  (ok, record b { base = some (splice m offset (slice buf 0 len)); locked = false })
              else some (err rc, b))
          else some (err erange, b))
  unfolding ramdisk_backend_write ramdisk_backend_lock ramdisk_backend_unlock
  write_lem rc offset len buf h = ground (
    arith,
    validate_range_lem b m offset len holds,
    load-some buf 0 len,
    length-slice buf 0 len,
    copy_in_lem m (slice buf 0 len) offset,
  )

  pub zero_lem :
      (rc offset len : ℕ)
      → ramdisk_backend_zero rc b offset len ≡ (
          if leb (offset + len) (length m)
          then (if rc == 0
              then some (ok, record b { base = some (splice m offset (zeros len)); locked = false })
              else some (err rc, b))
          else some (err erange, b))
  unfolding ramdisk_backend_zero ramdisk_backend_lock ramdisk_backend_unlock
  zero_lem rc offset len = ground (
    arith,
    validate_range_lem b m offset len holds,
    length-zeros len,
    copy_in_lem m (zeros len) offset,
  )
