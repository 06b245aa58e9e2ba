-- ===== src/KernelRdma.antt =====
-- The block device of kernel/rdma_blkdev.c: the requests it serves.
pub mod Lifecycle
mod Tests
use ddr_direct_storage.Base.{
  ℕ, ◌+◌, ◌*◌, ◌%◌, ◌^◌, ◌≡◌, ◌<◌, ◌∙◌, refl, Bool, true, false, Option, none, some, List, [], ◌∷◌,
  ltb, if◌then◌else◌, ◌>>=◌, Bytes, length, load, store, Option-cases, inl, inr, arith,
}
use ddr_direct_storage.KernelUrma.BlockLayer.Serving.{WellFormed, sector_size, served, queue_rq_lem}
use ddr_direct_storage.KernelUrma.BlockLayer.{
  BlkStatus, blk_sts_ok, blk_sts_ioerr, Request, copy_segments, urma_blkdev_queue_rq,
}

unfoldable pub rdma_copy_segments : Bool → Bytes → ℕ → List Bytes → Option (Bytes × List Bytes)
rdma_copy_segments is_write disk base_addr [] = some (disk, [])
rdma_copy_segments true disk base_addr (bio ∷ rest) = do
  disk' ← store disk base_addr bio
  (disk'', rest') ← rdma_copy_segments true disk' (base_addr + length bio) rest
  some (disk'', bio ∷ rest')
rdma_copy_segments false disk base_addr (bio ∷ rest) = do
  bio' ← load disk base_addr (length bio)
  (disk', rest') ← rdma_copy_segments false disk (base_addr + length bio) rest
  some (disk', bio' ∷ rest')

unfoldable pub rdma_blkdev_queue_rq :
    ℕ → ℕ → Bytes → Request → Option (BlkStatus × Bytes × List Bytes)
unfolding rdma_copy_segments
rdma_blkdev_queue_rq logical_block_size ramdisk_size disk rq =
    let start = rq.sector * logical_block_size % 2 ^ 64 in
    if ltb ramdisk_size ((start + rq.bytes) % 2 ^ 64)
    then some (blk_sts_ioerr, disk, rq.segments)
    else (do
      (disk', segments') ← rdma_copy_segments rq.is_write disk start rq.segments
      some (blk_sts_ok, disk', segments'))

same_copies :
    (w : Bool) (disk : Bytes) (base : ℕ) (segs : List Bytes)
    → rdma_copy_segments w disk base segs ≡ copy_segments w disk base segs
unfolding rdma_copy_segments copy_segments
same_copies w disk base [] = refl
same_copies true disk base (bio ∷ rest) = elim (Option-cases (store disk base bio)) [
  | inl n ↦ rw n refl
  | inr (m, e) ↦ rw (e, same_copies true m (base + length bio) rest) refl
]
same_copies false disk base (bio ∷ rest) = rw (same_copies false disk (base + length bio) rest) refl

same_serving :
    (logical_block_size ramdisk_size : ℕ) (disk : Bytes) (rq : Request)
    → rdma_blkdev_queue_rq logical_block_size ramdisk_size disk rq
      ≡ urma_blkdev_queue_rq logical_block_size ramdisk_size disk rq
unfolding rdma_blkdev_queue_rq urma_blkdev_queue_rq
same_serving bs size disk rq =
    rw (same_copies rq.is_write disk (rq.sector * bs % 2 ^ 64) rq.segments) refl

-- The same of kernel/rdma_blkdev.c: on a device with the default logical block size of 512, where the
-- request's end does not wrap around, serving a request is defined, is refused exactly if its range,
-- which starts at its sector of 512 bytes, reaches beyond the RAM disk, and else moves exactly the
-- bytes of that range.
pub rdma_queue_rq_lem :
    (disk : Bytes) (rq : Request)
    → WellFormed rq
    → rq.sector * sector_size + rq.bytes < 2 ^ 64
    → rdma_blkdev_queue_rq 512 (length disk) disk rq
      ≡ some (served (rq.sector * sector_size) disk rq)
rdma_queue_rq_lem disk rq wf fits =
    same_serving 512 (length disk) disk rq ∙ queue_rq_lem disk rq wf fits
