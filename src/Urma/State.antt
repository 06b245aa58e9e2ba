-- ===== src/Urma/State.antt =====
-- The structures of userspace-nbd/include/ramdisk_urma.h and ramdisk_ctrl.h that the manager keeps.
use ddr_direct_storage.Base.{ℕ, Bool, false, Option, none, List, Bytes, Status, zeros}

-- `struct ramdisk_urma_peer`; `mock_hbm` is the object that the pointer owns.
pub record Peer : Type 0 where
  pub active : Bool
  pub peer_id : ℕ
  pub eid : Bytes
  pub uasid : ℕ
  pub seg_va : ℕ
  pub seg_len : ℕ
  pub seg_token_id : ℕ
  pub jetty_id : ℕ
  pub mock_hbm : Option Bytes

-- After `memset(peer, 0, sizeof(*peer))`.
abbrev pub no_peer : Peer
no_peer = record {
  active = false;
  peer_id = 0;
  eid = zeros 16;
  uasid = 0;
  seg_va = 0;
  seg_len = 0;
  seg_token_id = 0;
  jetty_id = 0;
  mock_hbm = none;
}

-- `struct ramdisk_ctrl_peer_connect_info`.
pub record PeerConnectInfo : Type 0 where
  pub peer_id : ℕ
  pub eid : Bytes
  pub uasid : ℕ
  pub seg_va : ℕ
  pub seg_len : ℕ
  pub seg_token_id : ℕ
  pub jetty_id : ℕ

-- `struct ramdisk_ctrl_urma_transfer`.
pub record Transfer : Type 0 where
  pub peer_id : ℕ
  pub request_id : ℕ
  pub local_offset : ℕ
  pub remote_hbm_addr : ℕ
  pub len : ℕ
  pub direction : ℕ

-- `struct ramdisk_urma_request`: a transfer with its outcome.
pub record Request : Type 0 where
  pub xfer : Transfer
  pub status : Status
  pub done : Bool

-- `enum ramdisk_urma_direction`.
abbrev pub ramdisk_to_hbm : ℕ
ramdisk_to_hbm = 1

abbrev pub hbm_to_ramdisk : ℕ
hbm_to_ramdisk = 2

abbrev pub ramdisk_urma_max_peers : ℕ
ramdisk_urma_max_peers = 32

abbrev pub ramdisk_urma_max_queue_depth : ℕ
ramdisk_urma_max_queue_depth = 1024

abbrev pub ramdisk_urma_default_token : ℕ
ramdisk_urma_default_token = 0xACFE

-- `struct ramdisk_urma_config`.
pub record UrmaConfig : Type 0 where
  pub enable : Bool
  pub use_mock : Bool
  pub queue_depth : ℕ
  pub urma_dev : Option Bytes
  pub eid_index : ℕ
  pub trans_mode : ℕ
  pub tp_type : ℕ
  pub local_token_value : ℕ

-- `struct ramdisk_urma_mgr` without its locks. A request lies on its caller's stack: the queue names
-- it by its number in the order of acceptance.
pub record Mgr : Type 0 where
  pub initialized : Bool
  pub worker_started : Bool
  pub enabled : Bool
  pub use_mock : Bool
  pub stopping : Bool
  pub urma_dev : Bytes
  pub eid_index : ℕ
  pub trans_mode : ℕ
  pub tp_type : ℕ
  pub local_token_value : ℕ
  pub queue_depth : ℕ
  pub queue : List (Option ℕ)
  pub head : ℕ
  pub tail : ℕ
  pub pending : ℕ
  pub inflight : ℕ
  pub completed : ℕ
  pub failed : ℕ
  pub peers : List Peer
