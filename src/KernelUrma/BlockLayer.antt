-- ===== src/KernelUrma/BlockLayer.antt =====
-- Requests of the block layer in kernel-urma/urma_blkdev.c, served from the RAM disk's memory.
pub mod Serving
use ddr_direct_storage.Base.{
  ℕ, ◌+◌, ◌*◌, ◌%◌, ◌^◌, Bool, true, false, Option, none, some, List, [], ◌∷◌, ltb, if◌then◌else◌,
  ◌>>=◌, Bytes, length, load, store,
}

pub data BlkStatus : Type 0 where
  blk_sts_ok : BlkStatus
  blk_sts_ioerr : BlkStatus

-- `struct request`: its position, its direction, `blk_rq_bytes` and the bytes of its segments.
pub record Request : Type 0 where
  pub sector : ℕ
  pub is_write : Bool
  pub bytes : ℕ
  pub segments : List Bytes

-- The loop over the segments, with `base_addr` as an offset into the RAM disk.
unfoldable pub copy_segments : Bool → Bytes → ℕ → List Bytes → Option (Bytes × List Bytes)
copy_segments is_write disk base_addr [] = some (disk, [])
copy_segments true disk base_addr (bio ∷ rest) = do
  disk' ← store disk base_addr bio
  (disk'', rest') ← copy_segments true disk' (base_addr + length bio) rest
  some (disk'', bio ∷ rest')
copy_segments false disk base_addr (bio ∷ rest) = do
  bio' ← load disk base_addr (length bio)
  (disk', rest') ← copy_segments false disk (base_addr + length bio) rest
  some (disk', bio' ∷ rest')

-- The status that the request ends with, the RAM disk and the segments. `ramdisk_size` is the
-- device's field; sector and sizes have 64 bits.
unfoldable pub urma_blkdev_queue_rq :
    ℕ → ℕ → Bytes → Request → Option (BlkStatus × Bytes × List Bytes)
unfolding copy_segments
urma_blkdev_queue_rq logical_block_size ramdisk_size disk rq =
    let start = rq.sector * logical_block_size % 2 ^ 64 in
    if ltb ramdisk_size ((start + rq.bytes) % 2 ^ 64)
    then some (blk_sts_ioerr, disk, rq.segments)
    else (do
      (disk', segments') ← copy_segments rq.is_write disk start rq.segments
      some (blk_sts_ok, disk', segments'))
