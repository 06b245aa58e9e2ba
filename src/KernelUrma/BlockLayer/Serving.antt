-- ===== src/KernelUrma/BlockLayer/Serving.antt =====
-- A request of the block layer moves exactly its bytes.
use ddr_direct_storage.Base.{
  ℕ, zero, suc, ◌+◌, ◌*◌, ◌%◌, ◌^◌, ◌≤◌, ◌<◌, ◌≡◌, refl, ap, true, false, some, List, [], ◌∷◌, ◌++◌,
  arith, ltb, if◌then◌else◌, Bytes, length, slice, splice, load-some, store-some, length-append,
  length-splice, Bool-cases, inl, inr,
}
use ddr_direct_storage.KernelUrma.BlockLayer.{
  BlkStatus, blk_sts_ok, blk_sts_ioerr, Request, copy_segments, urma_blkdev_queue_rq,
}

-- The bytes of the segments, in order.
abbrev pub joined : List Bytes → Bytes
joined [] = []
joined (bio ∷ rest) = bio ++ joined rest

-- Segments of the same sizes, filled from `bs` in order.
abbrev pub dealt : Bytes → ℕ → List Bytes → List Bytes
dealt m off [] = []
dealt m off (bio ∷ rest) = slice m off (length bio) ∷ dealt m (off + length bio) rest

-- Two writes, the second where the first ends, are one.
splice-append :
    (m : Bytes) (off : ℕ) (a b : Bytes) (next : ℕ)
    → next ≡ off + length a
    → splice (splice m off a) next b ≡ splice m off (a ++ b)
splice-append [] off a b next e = refl
splice-append (c ∷ m) zero [] b next e =
    let start : next ≡ 0 = omega (arith, e) in ap (λ k. splice (c ∷ m) k b) start
splice-append (c ∷ m) zero (x ∷ a) b zero e = absurd (omega (arith, e))
splice-append (c ∷ m) zero (x ∷ a) b (suc next) e =
    ap (◌∷◌ x) (splice-append m zero a b next (omega (arith, e)))
splice-append (c ∷ m) (suc off) a b zero e = absurd (omega (arith, e))
splice-append (c ∷ m) (suc off) a b (suc next) e =
    ap (◌∷◌ c) (splice-append m off a b next (omega (arith, e)))

splice-nothing : (m : Bytes) (off : ℕ) → splice m off [] ≡ m
splice-nothing [] off = refl
splice-nothing (b ∷ m) zero = refl
splice-nothing (b ∷ m) (suc off) = ap (◌∷◌ b) (splice-nothing m off)

write_segments :
    (m : Bytes) (off : ℕ) (segs : List Bytes)
    → off + length (joined segs) ≤ length m
    → copy_segments true m off segs ≡ some (splice m off (joined segs), segs)
unfolding copy_segments
write_segments m off [] h = rw (splice-nothing m off) refl
write_segments m off (bio ∷ rest) h =
    let longer = length-append bio (joined rest) in
    let m' = splice m off bio in
    rw (
      store-some m off bio (omega (arith, longer, h)),
      write_segments m' (off + length bio) rest (omega (arith, longer, h, length-splice m off bio)),
      splice-append m off bio (joined rest) (off + length bio) refl,
    )

read_segments :
    (m : Bytes) (off : ℕ) (segs : List Bytes)
    → off + length (joined segs) ≤ length m
    → copy_segments false m off segs ≡ some (m, dealt m off segs)
unfolding copy_segments
read_segments m off [] h = refl
read_segments m off (bio ∷ rest) h =
    let longer = length-append bio (joined rest) in
    rw (
      load-some m off (length bio) (omega (arith, longer, h)),
      read_segments m (off + length bio) rest (omega (arith, longer, h)),
    )

-- What the block layer gives a driver: the segments hold `bytes` bytes.
abbrev pub WellFormed : Request → Type 0
WellFormed rq = length (joined rq.segments) ≡ rq.bytes

-- The answer to a request: refused beyond the RAM disk's end; else the bytes of all segments are
-- written from `start` on, or read from there into the segments in order.
abbrev pub served : ℕ → Bytes → Request → BlkStatus × Bytes × List Bytes
served start disk rq =
    if ltb (length disk) (start + rq.bytes)
    then (blk_sts_ioerr, disk, rq.segments)
    else if rq.is_write
    then (blk_sts_ok, splice disk start (joined rq.segments), rq.segments)
    else (blk_sts_ok, disk, dealt disk start rq.segments)

-- The unit of `blk_rq_pos`, whatever the logical block size of the device is.
abbrev pub sector_size : ℕ
sector_size = 512

-- The code takes the logical block size for the unit.
pub at_blocks :
    (logical_block_size : ℕ) (disk : Bytes) (rq : Request)
    → WellFormed rq
    → rq.sector * logical_block_size + rq.bytes < 2 ^ 64
    → urma_blkdev_queue_rq logical_block_size (length disk) disk rq
      ≡ some (served (rq.sector * logical_block_size) disk rq)
unfolding urma_blkdev_queue_rq
at_blocks bs disk rq wf fits =
    let start = rq.sector * bs in
    let same : start % 2 ^ 64 ≡ start = omega (arith, fits) in
    let end_same : (start + rq.bytes) % 2 ^ 64 ≡ start + rq.bytes = omega (arith, fits) in
    elim (Bool-cases (ltb (length disk) (start + rq.bytes))) [
      | inl beyond ↦ rw (same, end_same, beyond) refl
      | inr within ↦
          let inside : start + length (joined rq.segments) ≤ length disk =
            ground (arith, wf, within) in
          elim (Bool-cases rq.is_write) [
            | inl w ↦
                rw (same, end_same, within, w, write_segments disk start rq.segments inside) refl
            | inr r ↦
                rw (same, end_same, within, r, read_segments disk start rq.segments inside) refl
          ]
    ]

-- On a device with the default logical block size of 512, where the request's end does not wrap
-- around, serving a request is defined, is refused exactly if its range, which starts at its sector of
-- 512 bytes, reaches beyond the RAM disk, and else moves exactly the bytes of that range.
pub queue_rq_lem :
    (disk : Bytes) (rq : Request)
    → WellFormed rq
    → rq.sector * sector_size + rq.bytes < 2 ^ 64
    → urma_blkdev_queue_rq 512 (length disk) disk rq
      ≡ some (served (rq.sector * sector_size) disk rq)
queue_rq_lem disk rq wf fits = at_blocks 512 disk rq wf fits
