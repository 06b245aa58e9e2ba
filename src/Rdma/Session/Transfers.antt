-- ===== src/Rdma/Session/Transfers.antt =====
-- Requests of a session over the mock transport.
use ddr_direct_storage.Base.{
  ℕ, ◌+◌, ◌-◌, ◌*◌, ◌≤◌, ◌≡◌, refl, sym, ap, ◌∙◌, true, false, some, arith, ok, Bytes, length,
  slice, splice, set, get_elem?, u64_max, ltb,
}
use ddr_direct_storage.Rdma.Transport.{
  Ptr, Memory, LocalSge, RemoteRegion, rdma_transfer_write_to_remote,
  rdma_transfer_read_from_remote,
}
use ddr_direct_storage.Rdma.Ramdisk.{RdmaRamdisk}
use ddr_direct_storage.Rdma.Ramdisk.Range.{Backed, Within, map_lba_ok, mapping_of}
use ddr_direct_storage.Rdma.Mock.{MockContext, mock_rdma_ops, mock_submit, submit_copy, submitted}
use ddr_direct_storage.Rdma.Mock.Submit.{
  Fits, mock_submit_lem, copy_to_remote, copy_from_remote, local_ptr,
}
use ddr_direct_storage.Rdma.Session.{
  IoRequest, Session, submit_mapped, target_session_submit_io, target_io_read, target_io_write,
}

-- A connected context with which the disk's memory is registered.
pub record Linked (disk : RdmaRamdisk MockContext) (ctx : MockContext) : Type 0 where
  pub is_connected : ctx.connected ≡ true
  pub same_addr : ctx.registered_addr ≡ some disk.base
  pub same_len : ctx.registered_length ≡ disk.size_bytes
  pub same_iova : ctx.registered_iova ≡ disk.mr.iova
  pub same_key : ctx.registered_lkey ≡ disk.mr.lkey
  pub word_iova : disk.mr.iova + disk.size_bytes ≤ u64_max

abbrev pub session_of : RdmaRamdisk MockContext → Session MockContext
session_of disk = record { disk = some disk; ops = some mock_rdma_ops; connected = true }

module _ (disk : RdmaRamdisk MockContext) (ctx : MockContext) (mem : Memory) (local remote : Bytes)
    (req : IoRequest) (backed : Backed disk mem local) (linked : Linked disk ctx)
    (is_remote : get_elem? mem ctx.remote_memory.obj ≡ some remote)
    (remote_holds : ctx.remote_memory.off + ctx.remote_length ≤ length remote)
    (within : Within disk req.lba req.block_count)
    (room : req.block_count * disk.logical_block_size ≤ req.remote_length)
    (remote_room : req.remote_addr + req.block_count * disk.logical_block_size
      ≤ ctx.remote_length) where
  abbrev start : ℕ
  start = req.lba * disk.logical_block_size

  abbrev len : ℕ
  len = req.block_count * disk.logical_block_size

  abbrev sge : LocalSge
  sge = (mapping_of disk req.lba req.block_count).sge

  abbrev region : RemoteRegion
  region = record { addr = req.remote_addr; rkey = req.rkey; len = len }

  abbrev here : Ptr
  here = record disk.base { off = disk.base.off + start }

  abbrev there : Ptr
  there = record ctx.remote_memory { off = ctx.remote_memory.off + req.remote_addr }

  exact_addr : sge.addr ≡ disk.mr.iova + start
  exact_addr = omega (arith, within.1, linked.word_iova)

  its-Fits : Fits ctx disk.base sge region
  its-Fits = record {
    is_connected = linked.is_connected;
    is_registered = linked.same_addr;
    same_key = sym linked.same_key;
    same_len = refl;
    from_iova = omega (arith, exact_addr, linked.same_iova);
    local_fits = omega (arith, exact_addr, linked.same_iova, linked.same_len, within.1);
    remote_fits = remote_room;
  }

  is_here : local_ptr ctx disk.base sge ≡ here
  is_here =
      let distance : sge.addr - ctx.registered_iova ≡ start =
        omega (arith, exact_addr, linked.same_iova) in
      ap (λ d. record disk.base { off = disk.base.off + d }) distance

  submitted_io :
      (direction : ℕ)
      → mock_submit ctx mem direction sge region
        ≡ submit_copy ctx mem direction (some here) there len
  submitted_io direction =
      mock_submit_lem ctx mem direction disk.base sge region its-Fits
      ∙ ap (λ p. submit_copy ctx mem direction (some p) there len) is_here

  here_fits : here.off + len ≤ length local
  here_fits = omega (arith, within.1, backed.holds_disk)

  there_fits : there.off + len ≤ length remote
  there_fits = omega (arith, remote_room, remote_holds)

  fits_room : ltb req.remote_length len ≡ false
  fits_room = ground (arith, room)

  -- A read of blocks within the disk, into a remote range within the remote memory, succeeds: it
  -- writes exactly the blocks' bytes to exactly that range.
  pub io_read_lem :
      req.direction ≡ target_io_read
      → target_session_submit_io (session_of disk) req mem ctx
        ≡ some (
          ok,
          set mem there.obj (splice remote there.off (slice local here.off len)),
          submitted ctx rdma_transfer_write_to_remote,
        )
  unfolding target_session_submit_io submit_mapped mock_rdma_ops
  io_read_lem d =
      rw
        (
          map_lba_ok disk req.lba req.block_count backed.some_block backed.word_size within,
          fits_room,
          d,
          submitted_io rdma_transfer_write_to_remote,
        )
        (copy_to_remote ctx mem here there local remote len backed.is_object here_fits is_remote
          there_fits)

  -- A write of blocks within the disk, from a remote range within the remote memory, succeeds: it
  -- puts exactly that range's bytes in exactly the blocks.
  pub io_write_lem :
      req.direction ≡ target_io_write
      → target_session_submit_io (session_of disk) req mem ctx
        ≡ some (
          ok,
          set mem here.obj (splice local here.off (slice remote there.off len)),
          submitted ctx rdma_transfer_read_from_remote,
        )
  unfolding target_session_submit_io submit_mapped mock_rdma_ops
  io_write_lem d =
      rw
        (
          map_lba_ok disk req.lba req.block_count backed.some_block backed.word_size within,
          fits_room,
          d,
          submitted_io rdma_transfer_read_from_remote,
        )
        (copy_from_remote ctx mem here there local remote len backed.is_object here_fits is_remote
          there_fits)
