-- ===== src/Backend/RoundTrip.antt =====
-- What a write leaves for later reads of `ramdisk_backend.c`.
use ddr_direct_storage.Base.{
  ℕ, ◌+◌, ◌≤◌, ◌≡◌, refl, ◌⊎◌, false, some, arith, ok, Bytes, length, slice, splice, length-splice,
  length-slice, slice_all, slice-splice_eq, slice-splice_disjoint, zeros, length-zeros,
}
use ddr_direct_storage.Backend.{
  Backend, ramdisk_backend_read, ramdisk_backend_write, ramdisk_backend_zero,
}
use ddr_direct_storage.Backend.Range.{Holds}
use ddr_direct_storage.Backend.Access.{read_lem, write_lem, zero_lem}

-- Reading `len` bytes at `offset` succeeds, gives `bytes`, and changes nothing but the buffer.
abbrev pub Reads : Backend → ℕ → Bytes → Type 0
Reads b offset bytes =
    (out : Bytes)
    → length bytes ≤ length out
    → ramdisk_backend_read 0 b offset (some out) (length bytes)
      ≡ some (ok, record b { locked = false }, some (splice out 0 bytes))

pub Reads-intro :
    (b : Backend) (m : Bytes) (offset : ℕ) (bytes : Bytes)
    → Holds b m
    → offset + length bytes ≤ length m
    → slice m offset (length bytes) ≡ bytes
    → Reads b offset bytes
Reads-intro b m offset bytes holds fits e out room =
    ground (arith, read_lem b m holds 0 offset (length bytes) out)

module _ (b : Backend) (m : Bytes) (holds : Holds b m) where
  -- A write within bounds succeeds, with the lock free afterwards. Its range then reads back as the
  -- bytes written, and every disjoint range reads as it did before.
  pub write-Reads :
      (offset : ℕ) (bytes : Bytes)
      → offset + length bytes ≤ length m
      → (b' : Backend) × (ramdisk_backend_write 0 b offset (some bytes) (length bytes)
          ≡ some (ok, b'))
        × (b'.locked ≡ false)
        × Reads b' offset bytes
        × ((o n : ℕ)
            → (o + n ≤ offset) ⊎ (offset + length bytes ≤ o)
            → o + n ≤ length m
            → Reads b' o (slice m o n))
  write-Reads offset bytes fits = (
    after,
    ground (arith, write_lem b m holds 0 offset (length bytes) bytes, whole),
    refl,
    Reads-intro after m' offset bytes holds' (omega (arith, sized))
        (slice-splice_eq m offset (length bytes) bytes refl fits),
    λ o n apart inside.
        let e : length (slice m o n) ≡ n = length-slice m o n inside in
        Reads-intro after m' o (slice m o n) holds' (omega (arith, sized, e))
          (rw e (slice-splice_disjoint m offset bytes o n apart)),
  )
    where
      m' : Bytes
      m' = splice m offset bytes

      after : Backend
      after = record b { base = some m'; locked = false }

      sized : length m' ≡ length m
      sized = length-splice m offset bytes

      whole : slice bytes 0 (length bytes) ≡ bytes
      whole = slice_all bytes

      holds' : Holds after m'
      holds' = ground (arith, sized)

  -- `ramdisk_backend_zero` does the same with zero bytes.
  pub zero-Reads :
      (offset len : ℕ)
      → offset + len ≤ length m
      → (b' : Backend) × (ramdisk_backend_zero 0 b offset len ≡ some (ok, b'))
        × (b'.locked ≡ false)
        × Reads b' offset (zeros len)
        × ((o n : ℕ)
            → (o + n ≤ offset) ⊎ (offset + len ≤ o)
            → o + n ≤ length m
            → Reads b' o (slice m o n))
  zero-Reads offset len fits = (
    after,
    ground (arith, zero_lem b m holds 0 offset len),
    refl,
    Reads-intro after m' offset (zeros len) holds' (omega (arith, sized, filled))
        (slice-splice_eq m offset (length (zeros len)) (zeros len) refl (omega (arith, filled))),
    λ o n apart inside.
        let e : length (slice m o n) ≡ n = length-slice m o n inside in
        Reads-intro after m' o (slice m o n) holds' (omega (arith, sized, e))
          (rw e (slice-splice_disjoint m offset (zeros len) o n (ground (arith, filled)))),
  )
    where
      m' : Bytes
      m' = splice m offset (zeros len)

      after : Backend
      after = record b { base = some m'; locked = false }

      filled : length (zeros len) ≡ len
      filled = length-zeros len

      sized : length m' ≡ length m
      sized = length-splice m offset (zeros len)

      holds' : Holds after m'
      holds' = ground (arith, sized)
