-- ===== src/Rdma/Mock.antt =====
-- src/mock_rdma.c and its header: a transport to a second memory of the same process.
pub mod Submit
use ddr_direct_storage.Base.{
  ℕ, ◌+◌, ◌-◌, ◌%◌, ◌^◌, Bool, true, false, not, ◌||◌, Option, none, some, List, [], ◌∷◌, ltb, ◌==◌,
  if◌then◌else◌, ◌>>=◌, Status, ok, err, Bytes,
}
use ddr_direct_storage.Base.Errno.{einval, erange}
use ddr_direct_storage.Rdma.Transport.{
  Ptr, Memory, load_at, store_at, RegisteredMr, RemoteRegion, LocalSge, TransportOps, Outcome,
  success, failure, rdma_transfer_write_to_remote, rdma_transfer_read_from_remote,
}

abbrev pub mock_iova_base : ℕ
mock_iova_base = 4294967296

abbrev pub mock_lkey : ℕ
mock_lkey = 1369899009

-- `struct mock_rdma_context`.
pub record MockContext : Type 0 where
  pub remote_memory : Ptr
  pub remote_length : ℕ
  pub connected : Bool
  pub connect_count : ℕ
  pub submit_count : ℕ
  pub last_direction : ℕ
  pub registered_addr : Option Ptr
  pub registered_length : ℕ
  pub registered_iova : ℕ
  pub registered_lkey : ℕ

unfoldable pub mock_rdma_context_init : Ptr → ℕ → MockContext
mock_rdma_context_init remote_memory remote_length = record {
  remote_memory = remote_memory;
  remote_length = remote_length;
  connected = false;
  connect_count = 0;
  submit_count = 0;
  last_direction = 0;
  registered_addr = none;
  registered_length = 0;
  registered_iova = 0;
  registered_lkey = 0;
}

-- An endpoint is the bytes of the string before its end.
unfoldable pub mock_connect : MockContext → Bytes → Status × MockContext
mock_connect ctx [] = (err einval, ctx)
mock_connect ctx (b ∷ bs) =
    (ok, record ctx { connected = true; connect_count = (ctx.connect_count + 1) % 2 ^ 32 })

unfoldable pub mock_disconnect : MockContext → MockContext
mock_disconnect ctx = record ctx { connected = false }

-- What a failed registration leaves in `out` is not read.
unfoldable pub mock_register_mr : MockContext → Ptr → ℕ → Status × RegisteredMr × MockContext
mock_register_mr ctx addr len =
    if len == 0 then (err einval, record { addr = none; len = 0; iova = 0; lkey = 0 }, ctx) else (
      ok,
      record { addr = some addr; len = len; iova = mock_iova_base; lkey = mock_lkey },
      record ctx {
        registered_addr = some addr;
        registered_length = len;
        registered_iova = mock_iova_base;
        registered_lkey = mock_lkey;
      },
    )

unfoldable pub mock_deregister_mr : MockContext → RegisteredMr → RegisteredMr × MockContext
mock_deregister_mr ctx mr = (
  record { addr = none; len = 0; iova = 0; lkey = 0 },
  record ctx {
    registered_addr = none;
    registered_length = 0;
    registered_iova = 0;
    registered_lkey = 0;
  },
)

-- The pointer is `none` where it is computed from the null `registered_addr`.
unfoldable pub local_sge_to_ptr : MockContext → LocalSge → Outcome (Option Ptr)
local_sge_to_ptr ctx sge =
    let offset = sge.addr - ctx.registered_iova in
    if not (sge.lkey == ctx.registered_lkey) || ltb sge.addr ctx.registered_iova
    then failure einval
    else if ltb ctx.registered_length offset || ltb (ctx.registered_length - offset) sge.len
    then failure erange
    else success (elim ctx.registered_addr [
      | none ↦ none
      | some ptr ↦ some (record ptr { off = ptr.off + offset })
    ])

unfoldable pub remote_region_to_ptr : MockContext → RemoteRegion → Outcome Ptr
remote_region_to_ptr ctx remote =
    if ltb ctx.remote_length remote.addr || ltb (ctx.remote_length - remote.addr) remote.len
    then failure erange
    else success (record ctx.remote_memory { off = ctx.remote_memory.off + remote.addr })

-- `memcpy` between two places of the memory.
unfoldable pub memcpy : Memory → Ptr → Ptr → ℕ → Option Memory
memcpy mem dest src len = do bytes ← load_at mem src len; store_at mem dest bytes

abbrev pub submitted : MockContext → ℕ → MockContext
submitted ctx direction = record ctx {
  submit_count = (ctx.submit_count + 1) % 2 ^ 32;
  last_direction = direction;
}

-- The switch over the direction, `here` being the local pointer.
unfoldable pub submit_copy :
    MockContext → Memory → ℕ → Option Ptr → Ptr → ℕ → Option (Status × Memory × MockContext)
unfolding memcpy
submit_copy ctx mem direction here remote_ptr len =
    if direction == rdma_transfer_write_to_remote
    then (do
      local_ptr ← here
      mem' ← memcpy mem remote_ptr local_ptr len
      some (ok, mem', submitted ctx direction))
    else if direction == rdma_transfer_read_from_remote
    then (do
      local_ptr ← here
      mem' ← memcpy mem local_ptr remote_ptr len
      some (ok, mem', submitted ctx direction))
    else some (err einval, mem, ctx)

unfoldable pub mock_submit :
    MockContext → Memory → ℕ → LocalSge → RemoteRegion → Option (Status × Memory × MockContext)
unfolding submit_copy local_sge_to_ptr remote_region_to_ptr
mock_submit ctx mem direction sge remote =
    if not ctx.connected || not (sge.len == remote.len)
    then some (err einval, mem, ctx)
    else elim (local_sge_to_ptr ctx sge) [
      | failure e ↦ some (err e, mem, ctx)
      | success here ↦ elim (remote_region_to_ptr ctx remote) [
        | failure e ↦ some (err e, mem, ctx)
        | success remote_ptr ↦ submit_copy ctx mem direction here remote_ptr sge.len
      ]
    ]

unfoldable pub mock_rdma_ops : TransportOps MockContext
mock_rdma_ops = record {
  connect = some mock_connect;
  disconnect = some mock_disconnect;
  register_mr = some mock_register_mr;
  deregister_mr = some mock_deregister_mr;
  submit = some mock_submit;
}
