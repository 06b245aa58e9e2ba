-- ===== src/Rdma/Ramdisk.antt =====
-- src/rdma_ramdisk.c and its header.
pub mod Range
use ddr_direct_storage.Base.{
  ℕ, ◌+◌, ◌-◌, ◌*◌, ◌/◌, ◌%◌, ◌^◌, Bool, true, false, not, ◌||◌, Option, none, some, List, [], ◌∷◌,
  ◌++◌, ltb, ◌==◌, if◌then◌else◌, is_none, ◌>>=◌, Status, ok, err, Bytes, zeros, replicate, length,
  set, u64_max,
}
use ddr_direct_storage.Base.Errno.{einval, eio, enomem, erange, eoverflow}
use ddr_direct_storage.Rdma.Transport.{
  Ptr, Memory, load_at, store_at, RegisteredMr, LocalSge, TransportOps, Outcome, success, failure,
}

-- `struct rdma_ramdisk_config`.
pub record RdmaConfig : Type 0 where
  pub size_bytes : ℕ
  pub logical_block_size : ℕ

-- `struct rdma_ramdisk`; its transport context is the one that the operations are given.
pub record RdmaRamdisk (C : Type 0) : Type 0 where
  pub size_bytes : ℕ
  pub logical_block_size : ℕ
  pub base : Ptr
  pub ops : TransportOps C
  pub mr : RegisteredMr

-- `struct rdma_ramdisk_mapping`.
pub record RdmaMapping : Type 0 where
  pub byte_offset : ℕ
  pub len : ℕ
  pub host_addr : Ptr
  pub sge : LocalSge

-- The offset and the length in bytes. A block size of 0 would divide by 0.
unfoldable pub checked_io_range : ℕ → ℕ → ℕ → ℕ → Option (Outcome (ℕ × ℕ))
checked_io_range size_bytes logical_block_size lba block_count =
    let offset = lba * logical_block_size % 2 ^ 64 in
    let bytes = block_count * logical_block_size % 2 ^ 64 in
    if block_count == 0
    then some (failure einval)
    else if logical_block_size == 0
    then none
    else if ltb (u64_max / logical_block_size) lba
    then some (failure eoverflow)
    else if ltb (u64_max / logical_block_size) block_count
    then some (failure eoverflow)
    else if ltb size_bytes offset || ltb (size_bytes - offset) bytes
    then some (failure erange)
    else if ltb u64_max bytes
    then some (failure eoverflow)
    else some (success (offset, bytes))

abbrev pub complete_ops : {C : Type 0} → TransportOps C → Bool
complete_ops ops = not (is_none ops.register_mr || is_none ops.deregister_mr || is_none ops.submit)

-- The checks of `rdma_ramdisk_create` before it allocates.
unfoldable pub create_refused : {C : Type 0} → ℕ → RdmaConfig → TransportOps C → Bool
create_refused size_max cfg ops =
    if not (complete_ops ops) || cfg.size_bytes == 0 || cfg.logical_block_size == 0
    then true
    else not (cfg.size_bytes % cfg.logical_block_size == 0) || ltb size_max cfg.size_bytes

-- Registering the memory of the new object; a refusal frees the object again. The checks before
-- exclude the null `register_mr`.
unfoldable pub register_disk :
    {C : Type 0}
    → RdmaConfig
    → TransportOps C
    → Memory
    → ℕ
    → C
    → Outcome (RdmaRamdisk C) × Memory × C
register_disk cfg ops mem obj ctx =
    let base : Ptr = record { obj = obj; off = 0 } in
    elim ops.register_mr [
      | none ↦ (failure einval, mem, ctx)
      | some register ↦
          let (s, mr, ctx') = register ctx base cfg.size_bytes in
          elim s [
            | ok ↦ (
              success (record {
                size_bytes = cfg.size_bytes;
                logical_block_size = cfg.logical_block_size;
                base = base;
                ops = ops;
                mr = mr;
              }),
              mem,
              ctx',
            )
            | err e ↦ (failure e, set mem obj [], ctx')
          ]
    ]

-- `calloc_ok` and `memalign_rc` are what libc answers. A new object is the last one of the memory,
-- and is zeroed; a failure is the value of `errno`.
unfoldable pub rdma_ramdisk_create :
    {C : Type 0}
    → ℕ
    → Bool
    → ℕ
    → RdmaConfig
    → TransportOps C
    → Memory
    → C
    → Outcome (RdmaRamdisk C) × Memory × C
unfolding create_refused register_disk
rdma_ramdisk_create size_max calloc_ok memalign_rc cfg ops mem ctx =
    if create_refused size_max cfg ops
    then (failure einval, mem, ctx)
    else if not calloc_ok
    then (failure enomem, mem, ctx)
    else if not (memalign_rc == 0)
    then (failure memalign_rc, mem, ctx)
    else register_disk cfg ops (mem ++ zeros cfg.size_bytes ∷ []) (length mem) ctx

-- Calling a null `deregister_mr` is undefined. A freed object has no bytes.
unfoldable pub rdma_ramdisk_destroy :
    {C : Type 0} → RdmaRamdisk C → Memory → C → Option (Memory × C)
rdma_ramdisk_destroy disk mem ctx = do
  deregister ← disk.ops.deregister_mr
  let (mr, ctx') = deregister ctx disk.mr
  some (set mem disk.base.obj [], ctx')

unfoldable pub rdma_ramdisk_map_lba :
    {C : Type 0} → RdmaRamdisk C → ℕ → ℕ → Option (Outcome RdmaMapping)
unfolding checked_io_range
rdma_ramdisk_map_lba disk lba block_count = do
  range ← checked_io_range disk.size_bytes disk.logical_block_size lba block_count
  elim range [
    | failure e ↦ some (failure e)
    | success (byte_offset, len) ↦ some (
        success (record {
          byte_offset = byte_offset;
          len = len;
          host_addr = record disk.base { off = disk.base.off + byte_offset };
          sge = record {
            addr = (disk.mr.iova + byte_offset) % 2 ^ 64;
            lkey = disk.mr.lkey;
            len = len;
          };
        }))
  ]

unfoldable pub rdma_ramdisk_fill :
    {C : Type 0} → RdmaRamdisk C → Memory → ℕ → ℕ → ℕ → Option (Status × Memory)
unfolding rdma_ramdisk_map_lba
rdma_ramdisk_fill disk mem lba block_count value = do
  mapped ← rdma_ramdisk_map_lba disk lba block_count
  elim mapped [
    | failure e ↦ some (err e, mem)
    | success mapping ↦ (do
      mem' ← store_at mem mapping.host_addr (replicate mapping.len value)
      some (ok, mem'))
  ]

abbrev pub all_equal : Bytes → ℕ → Bool
all_equal [] value = true
all_equal (b ∷ bs) value = if not (b == value) then false else all_equal bs value

unfoldable pub rdma_ramdisk_verify :
    {C : Type 0} → RdmaRamdisk C → Memory → ℕ → ℕ → ℕ → Option Status
unfolding rdma_ramdisk_map_lba
rdma_ramdisk_verify disk mem lba block_count value = do
  mapped ← rdma_ramdisk_map_lba disk lba block_count
  elim mapped [
    | failure e ↦ some (err e)
    | success mapping ↦ (do
      bytes ← load_at mem mapping.host_addr mapping.len
      some (if all_equal bytes value then ok else err eio))
  ]
