-- ===== src/Rdma/Tests.antt =====
-- Concrete runs of the library of src/.
use ddr_direct_storage.Base.{
  ℕ, ◌+◌, ◌*◌, ◌≤◌, ◌<◌, ◌≡◌, refl, true, some, [], ◌∷◌, arith, ok, Bytes, zeros,
}
use ddr_direct_storage.Rdma.Transport.{
  Memory, success, failure, rdma_transfer_write_to_remote, rdma_transfer_read_from_remote,
}
use ddr_direct_storage.Rdma.Ramdisk.{
  RdmaRamdisk, checked_io_range, rdma_ramdisk_fill, rdma_ramdisk_verify, RdmaConfig,
  rdma_ramdisk_create,
}
use ddr_direct_storage.Rdma.Ramdisk.Range.{Backed, checked_io_range_lem, fill-verify}
use ddr_direct_storage.Rdma.Mock.{
  MockContext, mock_rdma_ops, mock_iova_base, mock_lkey, submitted, mock_rdma_context_init,
}
use ddr_direct_storage.Rdma.Session.{
  IoRequest, target_session_submit_io, target_io_read, target_io_write, target_session_init,
  target_session_connect,
}
use ddr_direct_storage.Rdma.Session.Setup.{GoodSizes, create-Linked}
use ddr_direct_storage.Rdma.Session.Transfers.{Linked, session_of, io_read_lem, io_write_lem}

abbrev disk_bytes : Bytes
disk_bytes = 1 ∷ 2 ∷ 3 ∷ 4 ∷ 5 ∷ 6 ∷ []

abbrev remote_bytes : Bytes
remote_bytes = 10 ∷ 20 ∷ 30 ∷ 40 ∷ []

abbrev memory : Memory
memory = remote_bytes ∷ disk_bytes ∷ []

abbrev disk : RdmaRamdisk MockContext
disk = record {
  size_bytes = 6;
  logical_block_size = 2;
  base = record { obj = 1; off = 0 };
  ops = mock_rdma_ops;
  mr = record {
    addr = some (record { obj = 1; off = 0 });
    len = 6;
    iova = mock_iova_base;
    lkey = mock_lkey;
  };
}

abbrev ctx : MockContext
ctx = record {
  remote_memory = record { obj = 0; off = 0 };
  remote_length = 4;
  connected = true;
  connect_count = 1;
  submit_count = 0;
  last_direction = 0;
  registered_addr = some (record { obj = 1; off = 0 });
  registered_length = 6;
  registered_iova = mock_iova_base;
  registered_lkey = mock_lkey;
}

disk_Backed : Backed disk memory disk_bytes
disk_Backed = record {
  is_object = refl;
  holds_disk = omega arith;
  some_block = omega arith;
  word_size = omega arith;
}

disk_Linked : Linked disk ctx
disk_Linked = record {
  is_connected = refl;
  same_addr = refl;
  same_len = refl;
  same_iova = refl;
  same_key = refl;
  word_iova = omega arith;
}

abbrev request : ℕ → IoRequest
request direction = record {
  direction = direction;
  lba = 2;
  block_count = 1;
  remote_addr = 1;
  rkey = 0;
  remote_length = 3;
}

checked_io_range_lem_example :
    (2 * 2 + 1 * 2 ≤ 6 → checked_io_range 6 2 2 1 ≡ some (success (2 * 2, 1 * 2)))
    × (6 < 2 * 2 + 1 * 2 → (e : ℕ) × (checked_io_range 6 2 2 1 ≡ some (failure e)))
checked_io_range_lem_example =
    checked_io_range_lem 6 2 2 1 (omega arith) (omega arith) (omega arith)

fill-verify_example :
    (rdma_ramdisk_fill disk memory 1 2 9
      ≡ some (ok, remote_bytes ∷ (1 ∷ 2 ∷ 9 ∷ 9 ∷ 9 ∷ 9 ∷ []) ∷ []))
    × (rdma_ramdisk_verify disk (remote_bytes ∷ (1 ∷ 2 ∷ 9 ∷ 9 ∷ 9 ∷ 9 ∷ []) ∷ []) 1 2 9 ≡ some ok)
fill-verify_example =
    fill-verify disk memory disk_bytes 1 2 9 disk_Backed (omega arith, omega arith)

io_read_lem_example :
    target_session_submit_io (session_of disk) (request target_io_read) memory ctx
    ≡ some
        (ok, (10 ∷ 5 ∷ 6 ∷ 40 ∷ []) ∷ disk_bytes ∷ [], submitted ctx rdma_transfer_write_to_remote)
io_read_lem_example =
    io_read_lem disk ctx memory disk_bytes remote_bytes (request target_io_read) disk_Backed
      disk_Linked refl (omega arith) (omega arith, omega arith) (omega arith) (omega arith) refl

io_write_lem_example :
    target_session_submit_io (session_of disk) (request target_io_write) memory ctx
    ≡ some (
      ok,
      remote_bytes ∷ (1 ∷ 2 ∷ 3 ∷ 4 ∷ 20 ∷ 30 ∷ []) ∷ [],
      submitted ctx rdma_transfer_read_from_remote,
    )
io_write_lem_example =
    io_write_lem disk ctx memory disk_bytes remote_bytes (request target_io_write) disk_Backed
      disk_Linked refl (omega arith) (omega arith, omega arith) (omega arith) (omega arith) refl

abbrev config : RdmaConfig
config = record { size_bytes = 6; logical_block_size = 2 }

abbrev new_ctx : MockContext
new_ctx = mock_rdma_context_init (record { obj = 0; off = 0 }) 4

config-GoodSizes : GoodSizes 100 config
config-GoodSizes = record {
  some_bytes = omega arith;
  some_block = omega arith;
  whole_blocks = refl;
  in_size = omega arith;
  in_word = omega arith;
}

create-Linked_example :
    let (created, mem', ctx') =
      rdma_ramdisk_create 100 true 0 config mock_rdma_ops (remote_bytes ∷ []) new_ctx in
    (made : RdmaRamdisk MockContext) × (created ≡ success made)
    × (mem' ≡ remote_bytes ∷ zeros 6 ∷ [])
    × Backed made mem' (zeros 6)
    × (let (s, session, ctx'') =
          target_session_connect
            (target_session_init (some made) (some mock_rdma_ops))
            (some (104 ∷ 105 ∷ []))
            ctx' in
        (s ≡ ok) × (session ≡ session_of made) × Linked made ctx'')
create-Linked_example =
    create-Linked 100 config (remote_bytes ∷ []) new_ctx 104 (105 ∷ []) config-GoodSizes
