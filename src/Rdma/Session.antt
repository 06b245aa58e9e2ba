-- ===== src/Rdma/Session.antt =====
-- src/target_session.c and its header.
pub mod Transfers
pub mod Setup
use ddr_direct_storage.Base.{
  ℕ, Bool, true, false, not, ◌||◌, Option, none, some, List, [], ◌∷◌, ltb, ◌==◌, if◌then◌else◌,
  is_none, ◌>>=◌, Status, ok, err, Bytes,
}
use ddr_direct_storage.Base.Errno.{einval, erange}
use ddr_direct_storage.Rdma.Transport.{
  Memory, RemoteRegion, TransportOps, Outcome, success, failure, rdma_transfer_write_to_remote,
  rdma_transfer_read_from_remote,
}
use ddr_direct_storage.Rdma.Ramdisk.{RdmaRamdisk, RdmaMapping, rdma_ramdisk_map_lba}

-- `enum target_io_direction`.
abbrev pub target_io_read : ℕ
target_io_read = 1

abbrev pub target_io_write : ℕ
target_io_write = 2

-- `struct target_io_request`.
pub record IoRequest : Type 0 where
  pub direction : ℕ
  pub lba : ℕ
  pub block_count : ℕ
  pub remote_addr : ℕ
  pub rkey : ℕ
  pub remote_length : ℕ

-- `struct target_session`; its transport context is the one that the operations are given, the
-- same as the disk's.
pub record Session (C : Type 0) : Type 0 where
  pub disk : Option (RdmaRamdisk C)
  pub ops : Option (TransportOps C)
  pub connected : Bool

unfoldable pub target_session_init :
    {C : Type 0} → Option (RdmaRamdisk C) → Option (TransportOps C) → Session C
target_session_init disk ops = record { disk = disk; ops = ops; connected = false }

-- `endpoint` is `none` where the connect information or its endpoint is null.
unfoldable pub target_session_connect :
    {C : Type 0} → Session C → Option Bytes → C → Status × Session C × C
target_session_connect session endpoint ctx = elim (session.ops >>= (λ ops. ops.connect)) [
  | none ↦ (err einval, session, ctx)
  | some connect ↦ elim endpoint [
    | none ↦ (err einval, session, ctx)
    | some name ↦
        let (rc, ctx') = connect ctx name in
        elim rc [
          | ok ↦ (ok, record session { connected = true }, ctx')
          | err e ↦ (err e, session, ctx')
        ]
  ]
]

unfoldable pub target_session_disconnect : {C : Type 0} → Session C → C → Session C × C
target_session_disconnect session ctx =
    if not session.connected
    then (session, ctx)
    else elim (session.ops >>= (λ ops. ops.disconnect)) [
      | none ↦ (record session { connected = false }, ctx)
      | some disconnect ↦ (record session { connected = false }, disconnect ctx)
    ]

-- The mapped request: its checks and the call of the transport, where a null `submit` is undefined.
unfoldable pub submit_mapped :
    {C : Type 0}
    → TransportOps C
    → IoRequest
    → RdmaMapping
    → Memory
    → C
    → Option (Status × Memory × C)
submit_mapped ops req mapping mem ctx =
    let remote : RemoteRegion = record {
      addr = req.remote_addr;
      rkey = req.rkey;
      len = mapping.len;
    } in
    if ltb req.remote_length mapping.len
    then some (err erange, mem, ctx)
    else if req.direction == target_io_read
    then (do submit ← ops.submit; submit ctx mem rdma_transfer_write_to_remote mapping.sge remote)
    else if req.direction == target_io_write
    then (do submit ← ops.submit; submit ctx mem rdma_transfer_read_from_remote mapping.sge remote)
    else some (err einval, mem, ctx)

unfoldable pub target_session_submit_io :
    {C : Type 0} → Session C → IoRequest → Memory → C → Option (Status × Memory × C)
unfolding submit_mapped
target_session_submit_io session req mem ctx =
    if not session.connected then some (err einval, mem, ctx) else elim session.disk [
      | none ↦ some (err einval, mem, ctx)
      | some disk ↦ elim session.ops [
        | none ↦ some (err einval, mem, ctx)
        | some ops ↦ (do
          mapped ← rdma_ramdisk_map_lba disk req.lba req.block_count
          elim mapped [
            | failure e ↦ some (err e, mem, ctx)
            | success mapping ↦ submit_mapped ops req mapping mem ctx
          ])
      ]
    ]
