-- ===== src/Rdma/Session/Setup.antt =====
-- Creating a disk over the mock transport and connecting a session to it.
use ddr_direct_storage.Base.{
  ℕ, ◌+◌, ◌%◌, ◌≤◌, ◌<◌, ◌≡◌, refl, true, false, some, [], ◌∷◌, ◌++◌, arith, ok, Bytes, length,
  zeros, length-zeros, get_elem?, u64_max,
}
use ddr_direct_storage.Rdma.Transport.{Memory, success}
use ddr_direct_storage.Rdma.Ramdisk.{
  RdmaConfig, RdmaRamdisk, create_refused, register_disk, rdma_ramdisk_create,
}
use ddr_direct_storage.Rdma.Ramdisk.Range.{Backed}
use ddr_direct_storage.Rdma.Mock.{
  MockContext, mock_rdma_ops, mock_register_mr, mock_connect, mock_iova_base, mock_lkey,
}
use ddr_direct_storage.Rdma.Session.{target_session_init, target_session_connect}
use ddr_direct_storage.Rdma.Session.Transfers.{Linked, session_of}

last_object : (mem : Memory) (m : Bytes) → get_elem? (mem ++ m ∷ []) (length mem) ≡ some m
last_object [] m = refl
last_object (x ∷ mem) m = last_object mem m

-- The sizes that creating a disk accepts, with room for the mock's addresses.
pub record GoodSizes (size_max : ℕ) (cfg : RdmaConfig) : Type 0 where
  pub some_bytes : 0 < cfg.size_bytes
  pub some_block : 0 < cfg.logical_block_size
  pub whole_blocks : cfg.size_bytes % cfg.logical_block_size ≡ 0
  pub in_size : cfg.size_bytes ≤ size_max
  pub in_word : mock_iova_base + cfg.size_bytes ≤ u64_max

abbrev made : RdmaConfig → Memory → RdmaRamdisk MockContext
made cfg mem = record {
  size_bytes = cfg.size_bytes;
  logical_block_size = cfg.logical_block_size;
  base = record { obj = length mem; off = 0 };
  ops = mock_rdma_ops;
  mr = record {
    addr = some (record { obj = length mem; off = 0 });
    len = cfg.size_bytes;
    iova = mock_iova_base;
    lkey = mock_lkey;
  };
}

abbrev registered : RdmaConfig → Memory → MockContext → MockContext
registered cfg mem ctx = record ctx {
  registered_addr = some (record { obj = length mem; off = 0 });
  registered_length = cfg.size_bytes;
  registered_iova = mock_iova_base;
  registered_lkey = mock_lkey;
}

register_good :
    (cfg : RdmaConfig) (mem : Memory) (ctx : MockContext)
    → 0 < cfg.size_bytes
    → let mem' = mem ++ zeros cfg.size_bytes ∷ [] in
      register_disk cfg mock_rdma_ops mem' (length mem) ctx
      ≡ (success (made cfg mem), mem', registered cfg mem ctx)
unfolding register_disk mock_rdma_ops mock_register_mr
register_good cfg mem ctx h = ground (arith, h)

create_good :
    (size_max : ℕ) (cfg : RdmaConfig) (mem : Memory) (ctx : MockContext)
    → GoodSizes size_max cfg
    → rdma_ramdisk_create size_max true 0 cfg mock_rdma_ops mem ctx
      ≡ (success (made cfg mem), mem ++ zeros cfg.size_bytes ∷ [], registered cfg mem ctx)
unfolding rdma_ramdisk_create create_refused mock_rdma_ops
create_good size_max cfg mem ctx g =
    let accepted : create_refused size_max cfg mock_rdma_ops ≡ false =
      ground (arith, g.some_bytes, g.some_block, g.whole_blocks, g.in_size) in
    rw accepted (register_good cfg mem ctx g.some_bytes)

-- With good sizes, and libc granting what it is asked for, creating a disk over the mock transport
-- succeeds and zeroes its memory, a new object. Connecting a new session to it at a non-empty
-- endpoint then succeeds, and the disk's memory is registered with the connected context.
pub create-Linked :
    (size_max : ℕ) (cfg : RdmaConfig) (mem : Memory) (ctx : MockContext) (b : ℕ) (name : Bytes)
    → GoodSizes size_max cfg
    → let (created, mem', ctx') = rdma_ramdisk_create size_max true 0 cfg mock_rdma_ops mem ctx in
      (disk : RdmaRamdisk MockContext) × (created ≡ success disk)
      × (mem' ≡ mem ++ zeros cfg.size_bytes ∷ [])
      × Backed disk mem' (zeros cfg.size_bytes)
      × (let (s, session, ctx'') =
            target_session_connect
              (target_session_init (some disk) (some mock_rdma_ops))
              (some (b ∷ name))
              ctx' in
          (s ≡ ok) × (session ≡ session_of disk) × Linked disk ctx'')
unfolding mock_rdma_ops mock_connect target_session_init target_session_connect
create-Linked size_max cfg mem ctx b name g = rw (create_good size_max cfg mem ctx g) (
  made cfg mem,
  refl,
  refl,
  record {
    is_object = last_object mem (zeros cfg.size_bytes);
    holds_disk = omega (arith, length-zeros cfg.size_bytes);
    some_block = g.some_block;
    word_size = omega (arith, g.in_word);
  },
  (
    refl,
    refl,
    record {
      is_connected = refl;
      same_addr = refl;
      same_len = refl;
      same_iova = refl;
      same_key = refl;
      word_iova = g.in_word;
    },
  ),
)
