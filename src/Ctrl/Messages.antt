-- ===== src/Ctrl/Messages.antt =====
-- The messages of userspace-nbd/include/ramdisk_ctrl.h and their bytes: the C code sends and receives
-- the structures as they lie in memory, with the fields one after the other and no padding.
pub mod RoundTrip
use ddr_direct_storage.Base.{
  ℕ, ◌+◌, ◌-◌, ◌%◌, ◌^◌, List, [], ◌∷◌, ◌++◌, Status, ok, err, Bytes, length, slice,
}
use ddr_direct_storage.Layout.{put_le, get_le, field_at}
use ddr_direct_storage.Urma.State.{PeerConnectInfo, Transfer}
use ddr_direct_storage.Urma.Peers.{CtrlStatus}

abbrev pub ramdisk_ctrl_magic : ℕ
ramdisk_ctrl_magic = 0x52444354

abbrev pub ramdisk_ctrl_version : ℕ
ramdisk_ctrl_version = 1

abbrev pub ramdisk_ctrl_max_payload : ℕ
ramdisk_ctrl_max_payload = 4096

-- `enum ramdisk_ctrl_opcode`.
abbrev pub query_status_opcode : ℕ
query_status_opcode = 1

abbrev pub urma_enable_opcode : ℕ
urma_enable_opcode = 2

abbrev pub urma_disable_opcode : ℕ
urma_disable_opcode = 3

abbrev pub peer_connect_opcode : ℕ
peer_connect_opcode = 4

abbrev pub peer_disconnect_opcode : ℕ
peer_disconnect_opcode = 5

abbrev pub urma_transfer_opcode : ℕ
urma_transfer_opcode = 6

-- `struct ramdisk_ctrl_hdr`.
pub record CtrlHdr : Type 0 where
  pub magic : ℕ
  pub version : ℕ
  pub opcode : ℕ
  pub payload_len : ℕ
  pub flags : ℕ
  pub request_id : ℕ

abbrev pub hdr_size : ℕ
hdr_size = 24

unfoldable pub hdr_bytes : CtrlHdr → Bytes
hdr_bytes hdr =
    put_le 4 hdr.magic
    ++ put_le 2 hdr.version
    ++ put_le 2 hdr.opcode
    ++ put_le 4 hdr.payload_len
    ++ put_le 4 hdr.flags
    ++ put_le 8 hdr.request_id

unfoldable pub parse_hdr : Bytes → CtrlHdr
parse_hdr bs = record {
  magic = field_at bs 0 4;
  version = field_at bs 4 2;
  opcode = field_at bs 6 2;
  payload_len = field_at bs 8 4;
  flags = field_at bs 12 4;
  request_id = field_at bs 16 8;
}

-- `struct ramdisk_ctrl_resp`. `status` is an `int32_t`, here its bit pattern.
pub record CtrlResp : Type 0 where
  pub hdr : CtrlHdr
  pub status : ℕ
  pub payload_len : ℕ

abbrev pub resp_size : ℕ
resp_size = 32

unfoldable pub resp_bytes : CtrlResp → Bytes
resp_bytes resp = hdr_bytes resp.hdr ++ put_le 4 resp.status ++ put_le 4 resp.payload_len

unfoldable pub parse_resp : Bytes → CtrlResp
parse_resp bs = record {
  hdr = parse_hdr bs;
  status = field_at bs 24 4;
  payload_len = field_at bs 28 4;
}

-- The bit pattern of an `int` that is 0 or a negated `errno`.
abbrev pub int_of : Status → ℕ
int_of ok = 0
int_of (err e) = 2 ^ 32 - e

-- `struct ramdisk_ctrl_status`.
abbrev pub status_size : ℕ
status_size = 48

unfoldable pub status_bytes : CtrlStatus → Bytes
status_bytes status =
    put_le 8 status.size
    ++ put_le 4 status.block_size
    ++ put_le 4 status.urma_enabled
    ++ put_le 4 status.peer_count
    ++ put_le 4 status.queue_depth
    ++ put_le 4 status.inflight
    ++ put_le 4 status.pending
    ++ put_le 8 status.completed
    ++ put_le 8 status.failed

unfoldable pub parse_status : Bytes → CtrlStatus
parse_status bs = record {
  size = field_at bs 0 8;
  block_size = field_at bs 8 4;
  urma_enabled = field_at bs 12 4;
  peer_count = field_at bs 16 4;
  queue_depth = field_at bs 20 4;
  inflight = field_at bs 24 4;
  pending = field_at bs 28 4;
  completed = field_at bs 32 8;
  failed = field_at bs 40 8;
}

-- `struct ramdisk_ctrl_peer_connect_info`; `reserved0` is 0, and nothing reads it.
abbrev pub connect_size : ℕ
connect_size = 56

unfoldable pub connect_bytes : PeerConnectInfo → Bytes
connect_bytes info =
    put_le 8 info.peer_id
    ++ (info.eid
        ++ (put_le 4 info.uasid
            ++ put_le 4 0
            ++ put_le 8 info.seg_va
            ++ put_le 8 info.seg_len
            ++ put_le 4 info.seg_token_id
            ++ put_le 4 info.jetty_id))

unfoldable pub parse_connect : Bytes → PeerConnectInfo
parse_connect bs = record {
  peer_id = field_at bs 0 8;
  eid = slice bs 8 16;
  uasid = field_at bs 24 4;
  seg_va = field_at bs 32 8;
  seg_len = field_at bs 40 8;
  seg_token_id = field_at bs 48 4;
  jetty_id = field_at bs 52 4;
}

-- `struct ramdisk_ctrl_peer_disconnect`.
abbrev pub disconnect_size : ℕ
disconnect_size = 8

-- `struct ramdisk_ctrl_urma_transfer`.
abbrev pub transfer_size : ℕ
transfer_size = 40

unfoldable pub transfer_bytes : Transfer → Bytes
transfer_bytes xfer =
    put_le 8 xfer.peer_id
    ++ put_le 8 xfer.request_id
    ++ put_le 8 xfer.local_offset
    ++ put_le 8 xfer.remote_hbm_addr
    ++ put_le 4 xfer.len
    ++ put_le 4 xfer.direction

unfoldable pub parse_transfer : Bytes → Transfer
parse_transfer bs = record {
  peer_id = field_at bs 0 8;
  request_id = field_at bs 8 8;
  local_offset = field_at bs 16 8;
  remote_hbm_addr = field_at bs 24 8;
  len = field_at bs 32 4;
  direction = field_at bs 36 4;
}
