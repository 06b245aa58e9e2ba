-- ===== src/Rdma/Ramdisk/Range.antt =====
-- The range check of src/rdma_ramdisk.c is exact, and `fill` and `verify` agree.
use ddr_direct_storage.Base.{
  ℕ, ◌+◌, ◌*◌, ◌≤◌, ◌<◌, ◌≡◌, refl, true, some, arith, u64_max, fits_word, ok, Bytes, length,
  replicate, length-replicate, slice, splice, set, get_elem?, load-some, store-some,
  slice-splice_eq, length-splice, inl, inr, zero, suc, ◌%◌, ◌^◌, get_elem?-set_self, lt-get_elem?,
}
use ddr_direct_storage.Base.Errno.{eoverflow, erange}
use ddr_direct_storage.Rdma.Transport.{Ptr, Memory, load_at, store_at, success, failure}
use ddr_direct_storage.Rdma.Ramdisk.{
  RdmaRamdisk, RdmaMapping, checked_io_range, rdma_ramdisk_map_lba, rdma_ramdisk_fill,
  rdma_ramdisk_verify, all_equal,
}

-- For a positive block size and a positive number of blocks, the check passes with the exact offset
-- and length where the exact range lies within the disk, and refuses every other range.
pub checked_io_range_lem :
    (size bs lba count : ℕ)
    → 0 < bs
    → 0 < count
    → size ≤ u64_max
    → (lba * bs + count * bs ≤ size
        → checked_io_range size bs lba count ≡ some (success (lba * bs, count * bs)))
      × (size < lba * bs + count * bs
          → (e : ℕ) × (checked_io_range size bs lba count ≡ some (failure e)))
unfolding checked_io_range
checked_io_range_lem size bs lba count pos blocks fits = (
  λ h. ground (arith, h, fits_word lba bs pos, fits_word count bs pos),
  λ h. elim (fits_word lba bs pos) [
    | inr big ↦ (eoverflow, ground arith)
    | inl small ↦ elim (fits_word count bs pos) [
      | inr big ↦ (eoverflow, ground arith)
      | inl little ↦ (erange, ground arith)
    ]
  ],
)

-- An object of the memory with at least the disk's bytes behind its base.
pub record Backed {C : Type 0} (disk : RdmaRamdisk C) (mem : Memory) (object : Bytes) : Type 0 where
  pub is_object : get_elem? mem disk.base.obj ≡ some object
  pub holds_disk : disk.base.off + disk.size_bytes ≤ length object
  pub some_block : 0 < disk.logical_block_size
  pub word_size : disk.size_bytes ≤ u64_max

pub load_at-some :
    (mem : Memory) (ptr : Ptr) (object : Bytes) (len : ℕ)
    → get_elem? mem ptr.obj ≡ some object
    → ptr.off + len ≤ length object
    → load_at mem ptr len ≡ some (slice object ptr.off len)
unfolding load_at
load_at-some mem ptr object len e h = rw (e, load-some object ptr.off len h) refl

pub store_at-some :
    (mem : Memory) (ptr : Ptr) (object bs : Bytes)
    → get_elem? mem ptr.obj ≡ some object
    → ptr.off + length bs ≤ length object
    → store_at mem ptr bs ≡ some (set mem ptr.obj (splice object ptr.off bs))
unfolding store_at
store_at-some mem ptr object bs e h = rw (e, store-some object ptr.off bs h) refl

all_equal-replicate : (n v : ℕ) → all_equal (replicate n v) v ≡ true
all_equal-replicate zero v = refl
all_equal-replicate (suc n) v = ground (arith, all_equal-replicate n v)

-- The mapping of blocks within the disk.
abbrev pub mapping_of : {C : Type 0} → RdmaRamdisk C → ℕ → ℕ → RdmaMapping
mapping_of disk lba count = record {
  byte_offset = lba * disk.logical_block_size;
  len = count * disk.logical_block_size;
  host_addr = record disk.base { off = disk.base.off + lba * disk.logical_block_size };
  sge = record {
    addr = (disk.mr.iova + lba * disk.logical_block_size) % 2 ^ 64;
    lkey = disk.mr.lkey;
    len = count * disk.logical_block_size;
  };
}

-- A request for at least one block, all within the disk.
abbrev pub Within : {C : Type 0} → RdmaRamdisk C → ℕ → ℕ → Type 0
Within disk lba count =
    (0 < count)
    × (lba * disk.logical_block_size + count * disk.logical_block_size ≤ disk.size_bytes)

pub map_lba_ok :
    {C : Type 0} (disk : RdmaRamdisk C) (lba count : ℕ)
    → 0 < disk.logical_block_size
    → disk.size_bytes ≤ u64_max
    → Within disk lba count
    → rdma_ramdisk_map_lba disk lba count ≡ some (success (mapping_of disk lba count))
unfolding rdma_ramdisk_map_lba
map_lba_ok disk lba count pos fits (blocks, within) =
    rw
      ((checked_io_range_lem disk.size_bytes disk.logical_block_size lba count pos blocks fits).0
        within)
      refl

-- Filling blocks within the disk changes exactly their bytes, and verifying them with the same
-- value then succeeds.
pub fill-verify :
    {C : Type 0} (disk : RdmaRamdisk C) (mem : Memory) (object : Bytes) (lba count value : ℕ)
    → Backed disk mem object
    → Within disk lba count
    → let off = disk.base.off + lba * disk.logical_block_size in
      let filled = splice object off (replicate (count * disk.logical_block_size) value) in
      let mem' = set mem disk.base.obj filled in
      (rdma_ramdisk_fill disk mem lba count value ≡ some (ok, mem'))
      × (rdma_ramdisk_verify disk mem' lba count value ≡ some ok)
unfolding rdma_ramdisk_fill rdma_ramdisk_verify
fill-verify disk mem object lba count value o w =
    let len = count * disk.logical_block_size in
    let at : Ptr = record disk.base { off = disk.base.off + lba * disk.logical_block_size } in
    let bytes = replicate len value in
    let size : length bytes ≡ len = length-replicate {A = ℕ} len value in
    let fits : at.off + len ≤ length object = omega (arith, w.1, o.holds_disk) in
    let found =
      get_elem?-set_self mem disk.base.obj (splice object at.off bytes)
        (lt-get_elem? mem disk.base.obj o.is_object) in
    let mapped = map_lba_ok disk lba count o.some_block o.word_size w in
    (
      rw (mapped, store_at-some mem at object bytes o.is_object (omega (arith, fits, size))) refl,
      rw
          (
            mapped,
            load_at-some (set mem disk.base.obj (splice object at.off bytes)) at
                (splice object at.off bytes) len found
                (omega (arith, fits, length-splice object at.off bytes)),
            slice-splice_eq object at.off len bytes size fits,
            all_equal-replicate len value,
          )
          refl,
    )
