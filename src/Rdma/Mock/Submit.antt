-- ===== src/Rdma/Mock/Submit.antt =====
-- The mock transport of src/mock_rdma.c copies exactly what it is asked for.
use ddr_direct_storage.Base.{
  ℕ, ◌+◌, ◌-◌, ◌≤◌, ◌≡◌, refl, true, false, some, arith, ok, Bytes, length, slice, splice, set,
  get_elem?, length-slice, ◌==◌, not, ◌||◌,
}
use ddr_direct_storage.Rdma.Transport.{
  Ptr, Memory, LocalSge, RemoteRegion, success, rdma_transfer_write_to_remote,
  rdma_transfer_read_from_remote,
}
use ddr_direct_storage.Rdma.Ramdisk.Range.{load_at-some, store_at-some}
use ddr_direct_storage.Rdma.Mock.{
  MockContext, local_sge_to_ptr, remote_region_to_ptr, memcpy, submit_copy, submitted, mock_submit,
}

memcpy-some :
    (mem : Memory) (dest src : Ptr) (to from : Bytes) (len : ℕ)
    → get_elem? mem src.obj ≡ some from
    → src.off + len ≤ length from
    → get_elem? mem dest.obj ≡ some to
    → dest.off + len ≤ length to
    → memcpy mem dest src len
      ≡ some (set mem dest.obj (splice to dest.off (slice from src.off len)))
unfolding memcpy
memcpy-some mem dest src to from len f f_fits t t_fits =
    rw
      (
        load_at-some mem src from len f f_fits,
        store_at-some mem dest to (slice from src.off len) t
            (omega (arith, t_fits, length-slice from src.off len f_fits)),
      )
      refl

-- A request that the registered memory and the remote memory both have.
pub record Fits (ctx : MockContext) (base : Ptr) (sge : LocalSge) (remote : RemoteRegion)
    : Type 0 where
  pub is_connected : ctx.connected ≡ true
  pub is_registered : ctx.registered_addr ≡ some base
  pub same_key : sge.lkey ≡ ctx.registered_lkey
  pub same_len : sge.len ≡ remote.len
  pub from_iova : ctx.registered_iova ≤ sge.addr
  pub local_fits : sge.addr - ctx.registered_iova + sge.len ≤ ctx.registered_length
  pub remote_fits : remote.addr + remote.len ≤ ctx.remote_length

abbrev pub local_ptr : MockContext → Ptr → LocalSge → Ptr
local_ptr ctx base sge = record base { off = base.off + (sge.addr - ctx.registered_iova) }

abbrev pub remote_ptr : MockContext → RemoteRegion → Ptr
remote_ptr ctx remote = record ctx.remote_memory { off = ctx.remote_memory.off + remote.addr }

local_lem :
    (ctx : MockContext) (base : Ptr) (sge : LocalSge) (remote : RemoteRegion)
    → Fits ctx base sge remote
    → local_sge_to_ptr ctx sge ≡ success (some (local_ptr ctx base sge))
unfolding local_sge_to_ptr
local_lem ctx base sge remote f =
    ground (arith, f.is_registered, f.same_key, f.from_iova, f.local_fits)

remote_lem :
    (ctx : MockContext) (base : Ptr) (sge : LocalSge) (remote : RemoteRegion)
    → Fits ctx base sge remote
    → remote_region_to_ptr ctx remote ≡ success (remote_ptr ctx remote)
unfolding remote_region_to_ptr
remote_lem ctx base sge remote f = ground (arith, f.remote_fits)

-- Such a request reaches the copy.
pub mock_submit_lem :
    (ctx : MockContext) (mem : Memory) (direction : ℕ) (base : Ptr) (sge : LocalSge)
    (remote : RemoteRegion)
    → Fits ctx base sge remote
    → mock_submit ctx mem direction sge remote
      ≡ submit_copy ctx mem direction
          (some (local_ptr ctx base sge))
          (remote_ptr ctx remote)
          sge.len
unfolding mock_submit
mock_submit_lem ctx mem direction base sge remote f =
    let guard : (not ctx.connected || not (sge.len == remote.len)) ≡ false =
      ground (arith, f.is_connected, f.same_len) in
    rw (guard, local_lem ctx base sge remote f, remote_lem ctx base sge remote f) refl

module _ (ctx : MockContext) (mem : Memory) (local remote : Ptr) (here there : Bytes) (len : ℕ)
    (l : get_elem? mem local.obj ≡ some here) (l_fits : local.off + len ≤ length here)
    (r : get_elem? mem remote.obj ≡ some there) (r_fits : remote.off + len ≤ length there) where
  -- Writing to the remote side changes exactly its range.
  pub copy_to_remote :
      submit_copy ctx mem rdma_transfer_write_to_remote (some local) remote len
      ≡ some (
        ok,
        set mem remote.obj (splice there remote.off (slice here local.off len)),
        submitted ctx rdma_transfer_write_to_remote,
      )
  unfolding submit_copy
  copy_to_remote = rw (memcpy-some mem remote local there here len l l_fits r r_fits) refl

  -- Reading from it changes exactly the local range.
  pub copy_from_remote :
      submit_copy ctx mem rdma_transfer_read_from_remote (some local) remote len
      ≡ some (
        ok,
        set mem local.obj (splice here local.off (slice there remote.off len)),
        submitted ctx rdma_transfer_read_from_remote,
      )
  unfolding submit_copy
  copy_from_remote = rw (memcpy-some mem local remote here there len r r_fits l l_fits) refl
