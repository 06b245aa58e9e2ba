-- ===== src/Rdma/Transport.antt =====
-- include/rdma_transport.h, and memory as the library sees it: a list of objects of bytes, where a
-- pointer is an object with an offset into it.
use ddr_direct_storage.Base.{
  ℕ, Option, some, List, ◌>>=◌, Status, Bytes, load, store, get_elem?, set,
}

pub record Ptr : Type 0 where
  pub obj : ℕ
  pub off : ℕ

abbrev pub Memory : Type 0
Memory = List Bytes

-- Reading and writing bytes through a pointer; `none` where that leaves the object.
unfoldable pub load_at : Memory → Ptr → ℕ → Option Bytes
load_at mem ptr len = do object ← get_elem? mem ptr.obj; load object ptr.off len

unfoldable pub store_at : Memory → Ptr → Bytes → Option Memory
store_at mem ptr bs = do
  object ← get_elem? mem ptr.obj
  object' ← store object ptr.off bs
  some (set mem ptr.obj object')

abbrev pub rdma_transfer_write_to_remote : ℕ
rdma_transfer_write_to_remote = 1

abbrev pub rdma_transfer_read_from_remote : ℕ
rdma_transfer_read_from_remote = 2

pub record RegisteredMr : Type 0 where
  pub addr : Option Ptr
  pub len : ℕ
  pub iova : ℕ
  pub lkey : ℕ

pub record RemoteRegion : Type 0 where
  pub addr : ℕ
  pub rkey : ℕ
  pub len : ℕ

pub record LocalSge : Type 0 where
  pub addr : ℕ
  pub lkey : ℕ
  pub len : ℕ

-- `struct rdma_transport_ops` for a transport whose context is a `C`: each operation returns the
-- context as it leaves it. A null function pointer is `none`; `register_mr` returns what it stores
-- through `out`. A `submit` that leaves an object is `none`.
pub record TransportOps (C : Type 0) : Type 0 where
  pub connect : Option (C → Bytes → Status × C)
  pub disconnect : Option (C → C)
  pub register_mr : Option (C → Ptr → ℕ → Status × RegisteredMr × C)
  pub deregister_mr : Option (C → RegisteredMr → RegisteredMr × C)
  pub submit : Option (C → Memory → ℕ → LocalSge → RemoteRegion → Option (Status × Memory × C))

-- A result, or the `errno` of a refusal.
pub data Outcome (A : Type 0) : Type 0 where
  success : A → Outcome A
  failure : ℕ → Outcome A
