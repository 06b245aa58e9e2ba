-- ===== src/KernelUrma/Mapping/Bounds.antt =====
-- `urma_blkdev_map_io` maps exactly the IO that lies within the RAM disk, without wrap-around.
use ddr_direct_storage.Base.{
  ℕ, ◌+◌, ◌*◌, ◌≤◌, ◌<◌, ◌≡◌, Bool, true, false, arith, leb, u64_max, fits_word,
}
use ddr_direct_storage.KernelUrma.Device.{Io, Device}
use ddr_direct_storage.KernelUrma.Mapping.{Mapping, Mapped, mapped, refused, urma_blkdev_map_io}

abbrev pub is_mapped : Mapped → Bool
is_mapped (mapped m) = true
is_mapped (refused e) = false

module _ (bs : ℕ) (dev : Device) (io : Io) (pos : 0 < bs) (some_blocks : 0 < io.block_count)
    (seg_fits : dev.ubva_addr + dev.ramdisk_size ≤ u64_max) where
  -- With a positive block size and a segment that ends within 64 bits, direct IO of a block or more is
  -- mapped if and only if its exact byte range lies within the RAM disk.
  pub map_io_exact :
      is_mapped (urma_blkdev_map_io bs dev io)
      ≡ leb (io.lba * bs + io.block_count * bs) dev.ramdisk_size
  unfolding urma_blkdev_map_io
  map_io_exact = ground (arith, fits_word io.lba bs pos, fits_word io.block_count bs pos)

  -- The offset, the length and the address are then the exact ones.
  pub map_io_sound :
      (m : Mapping)
      → urma_blkdev_map_io bs dev io ≡ mapped m
      → (m.byte_offset ≡ io.lba * bs)
        × (m.len ≡ io.block_count * bs)
        × (m.local_ubva ≡ dev.ubva_addr + io.lba * bs)
        × (m.byte_offset + m.len ≤ dev.ramdisk_size)
  unfolding urma_blkdev_map_io
  map_io_sound m e = ground (arith, fits_word io.lba bs pos, fits_word io.block_count bs pos)
