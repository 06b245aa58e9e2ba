-- ===== src/KernelUrma/Mapping.antt =====
-- Mapping the blocks of direct IO to the bytes of the RAM disk, in kernel-urma/urma_blkdev.c.
pub mod Bounds
use ddr_direct_storage.Base.{
  ℕ, ◌+◌, ◌-◌, ◌*◌, ◌/◌, ◌%◌, ◌^◌, Bool, true, false, ◌||◌, ltb, ◌==◌, if◌then◌else◌, u64_max,
}
use ddr_direct_storage.Base.Errno.{einval, erange, eoverflow}
use ddr_direct_storage.KernelUrma.Device.{Io, Device}

-- What `urma_blkdev_map_io` stores through its three pointers.
pub record Mapping : Type 0 where
  pub byte_offset : ℕ
  pub len : ℕ
  pub local_ubva : ℕ

pub data Mapped : Type 0 where
  mapped : Mapping → Mapped
  refused : ℕ → Mapped

-- `block_size` is the module parameter `logical_block_size`; `bytes > SIZE_MAX` never holds where
-- `size_t` has 64 bits.
unfoldable pub urma_blkdev_map_io : ℕ → Device → Io → Mapped
urma_blkdev_map_io block_size dev io =
    let offset = io.lba * block_size % 2 ^ 64 in
    let bytes = io.block_count * block_size % 2 ^ 64 in
    if block_size == 0 || io.block_count == 0
    then refused einval
    else if ltb (u64_max / block_size) io.lba
    then refused eoverflow
    else if ltb (u64_max / block_size) io.block_count
    then refused eoverflow
    else if ltb dev.ramdisk_size offset || ltb (dev.ramdisk_size - offset) bytes
    then refused erange
    else if ltb u64_max bytes
    then refused eoverflow
    else if ltb (u64_max - offset) dev.ubva_addr
    then refused eoverflow
    else mapped (record {
      byte_offset = offset;
      len = bytes;
      local_ubva = (dev.ubva_addr + offset) % 2 ^ 64;
    })
