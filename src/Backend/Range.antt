-- ===== src/Backend/Range.antt =====
-- What `ramdisk_backend_validate_range` admits, and what `create` and `destroy` leave.
use ddr_direct_storage.Base.{
  ℕ, ◌+◌, ◌≤◌, ◌<◌, ◌≡◌, refl, true, false, some, if◌then◌else◌, leb, arith, ok, err, Bytes, length,
  store-some, zeros, length-zeros, splice_all,
}
use ddr_direct_storage.Base.Errno.{einval, erange}
use ddr_direct_storage.Backend.{
  Backend, validate_block_size, ramdisk_backend_create, ramdisk_backend_destroy,
  ramdisk_backend_validate_range,
}

-- The backend is initialised, and its memory is `m`.
abbrev pub Holds : Backend → Bytes → Type 0
Holds b m = (b.initialized ≡ true) × (b.base ≡ some m) × (length m ≡ b.size)

-- The test is exact: neither the sum nor the difference wraps.
pub validate_range_lem :
    (b : Backend) (m : Bytes) (offset len : ℕ)
    → Holds b m
    → ramdisk_backend_validate_range b offset len
      ≡ (if leb (offset + len) (length m) then ok else err erange)
unfolding ramdisk_backend_validate_range
validate_range_lem b m offset len h = ground arith

-- With a good size, a good block size and memory of that size, `create` gives a backend whose
-- memory is all zero, and which is not locked.
pub create-Holds :
    (size_max size block_size : ℕ) (m : Bytes)
    → 0 < size
    → size ≤ size_max
    → validate_block_size block_size ≡ ok
    → length m ≡ size
    → (b : Backend) × (ramdisk_backend_create size_max 0 size block_size (some m) ≡ some (ok, b))
      × Holds b (zeros size)
      × (b.locked ≡ false)
      × (b.block_size ≡ block_size)
unfolding ramdisk_backend_create
create-Holds size_max size block_size m pos fits good sized = (
  record {
    base = some (zeros size);
    size = size;
    block_size = block_size;
    locked = false;
    initialized = true;
  },
  ground (arith, store-some m 0 (zeros size), splice_all m (zeros size), length-zeros size),
  (refl, refl, length-zeros size),
  refl,
  refl,
)

-- On a backend that has been destroyed every range is refused.
pub destroy_lem :
    (b : Backend) (offset len : ℕ)
    → ramdisk_backend_validate_range (ramdisk_backend_destroy b) offset len ≡ err einval
unfolding ramdisk_backend_validate_range ramdisk_backend_destroy
destroy_lem b offset len = ground arith
