-- ===== src/Urma/Peers.antt =====
-- The peer table of userspace-nbd/src/ramdisk_urma.c: connecting, disconnecting, the switch of the
-- URMA path, and the status report.
pub mod Table
pub mod Map
use ddr_direct_storage.Base.{
  ℕ, zero, suc, ◌+◌, Bool, true, false, not, ◌&&◌, ◌||◌, Option, none, some, List, [], ◌∷◌, ◌==◌,
  if◌then◌else◌, Status, ok, err, Bytes, get_or, set, zeros, is_none,
}
use ddr_direct_storage.Base.Errno.{einval, enomem, enosys, eopnotsupp, eexist, enospc, enoent}
use ddr_direct_storage.Urma.State.{Peer, no_peer, PeerConnectInfo, Mgr}

-- One place further in the table.
abbrev pub next_slot : Option ℕ → Option ℕ
next_slot none = none
next_slot (some i) = some (suc i)

-- The slot of the first active peer with this id.
unfoldable pub find_peer_locked : List Peer → ℕ → Option ℕ
find_peer_locked [] peer_id = none
find_peer_locked (p ∷ ps) peer_id =
    if p.active && p.peer_id == peer_id then some 0 else next_slot (find_peer_locked ps peer_id)

-- The slot of the first peer that is not active.
unfoldable pub find_free_slot : List Peer → Option ℕ
find_free_slot [] = none
find_free_slot (p ∷ ps) = if not p.active then some 0 else next_slot (find_free_slot ps)

-- `calloc(1, n)`, which may fail.
abbrev pub calloc : Bool → ℕ → Option Bytes
calloc got n = if got then some (zeros n) else none

abbrev pub new_peer : PeerConnectInfo → Option Bytes → Peer
new_peer info hbm = record {
  active = true;
  peer_id = info.peer_id;
  eid = info.eid;
  uasid = info.uasid;
  seg_va = info.seg_va;
  seg_len = info.seg_len;
  seg_token_id = info.seg_token_id;
  jetty_id = info.jetty_id;
  mock_hbm = hbm;
}

-- The critical section of `ramdisk_urma_peer_connect`.
unfoldable pub add_peer_locked : Mgr → Peer → Status × Mgr
add_peer_locked mgr peer =
    if not mgr.enabled
    then (err eopnotsupp, mgr)
    else if not (is_none (find_peer_locked mgr.peers peer.peer_id))
    then (err eexist, mgr)
    else elim (find_free_slot mgr.peers) [
      | none ↦ (err enospc, mgr)
      | some i ↦ (ok, record mgr { peers = set mgr.peers i peer })
    ]

-- `got` says whether `calloc` finds memory.
unfoldable pub ramdisk_urma_peer_connect : Bool → Mgr → Option PeerConnectInfo → Status × Mgr
ramdisk_urma_peer_connect got mgr none = (err einval, mgr)
ramdisk_urma_peer_connect got mgr (some info) =
    if not mgr.initialized
    then (err einval, mgr)
    else if info.peer_id == 0 || info.seg_len == 0
    then (err einval, mgr)
    else if not mgr.use_mock
    then (err enosys, mgr)
    else elim (calloc got info.seg_len) [
      | none ↦ (err enomem, mgr)
      | some hbm ↦ add_peer_locked mgr (new_peer info (some hbm))
    ]

unfoldable pub ramdisk_urma_peer_disconnect : Mgr → ℕ → Status × Mgr
ramdisk_urma_peer_disconnect mgr peer_id =
    if not mgr.initialized || peer_id == 0
    then (err einval, mgr)
    else elim (find_peer_locked mgr.peers peer_id) [
      | none ↦ (err enoent, mgr)
      | some i ↦ (ok, record mgr { peers = set mgr.peers i no_peer })
    ]

unfoldable pub ramdisk_urma_enable : Mgr → Status × Mgr
ramdisk_urma_enable mgr =
    if not mgr.initialized then (err einval, mgr) else (ok, record mgr { enabled = true })

unfoldable pub ramdisk_urma_disable : Mgr → Status × Mgr
ramdisk_urma_disable mgr =
    if not mgr.initialized then (err einval, mgr) else (ok, record mgr { enabled = false })

-- `struct ramdisk_ctrl_status`.
pub record CtrlStatus : Type 0 where
  pub size : ℕ
  pub block_size : ℕ
  pub urma_enabled : ℕ
  pub peer_count : ℕ
  pub queue_depth : ℕ
  pub inflight : ℕ
  pub pending : ℕ
  pub completed : ℕ
  pub failed : ℕ

-- `peer_count++` for each active peer.
unfoldable pub count_active : List Peer → ℕ → ℕ
count_active [] n = n
count_active (p ∷ ps) n = count_active ps (if p.active then n + 1 else n)

unfoldable pub ramdisk_urma_fill_status : Mgr → CtrlStatus → CtrlStatus
ramdisk_urma_fill_status mgr status = if not mgr.initialized then status else record status {
  urma_enabled = if mgr.enabled then 1 else 0;
  queue_depth = mgr.queue_depth;
  inflight = mgr.inflight;
  pending = mgr.pending;
  completed = mgr.completed;
  failed = mgr.failed;
  peer_count = count_active mgr.peers status.peer_count;
}
