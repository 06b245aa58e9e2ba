-- ===== src/Urma/System/SameQueue.antt =====
-- The operations of the manager that leave the queue as it is.
use ddr_direct_storage.Base.{
  ℕ, ◌≡◌, refl, Bool, true, Option, none, some, List, arith, Status, Bytes,
}
use ddr_direct_storage.Urma.State.{Mgr, PeerConnectInfo, Peer}
use ddr_direct_storage.Urma.Peers.{
  add_peer_locked, ramdisk_urma_peer_connect, ramdisk_urma_peer_disconnect, ramdisk_urma_enable,
  ramdisk_urma_disable,
}
use ddr_direct_storage.Urma.Transfer.{ramdisk_urma_mock_write_peer}
use ddr_direct_storage.Urma.System.Invariant.{SameQueue}

pub same : (m : Mgr) → SameQueue m m
same m = record {
  ring = record { queue_depth = refl; queue = refl; head = refl; tail = refl; pending = refl };
  inflight = refl;
  completed = refl;
  failed = refl;
}

pub same_but_peers : (m : Mgr) (ps : List Peer) → SameQueue m (record m { peers = ps })
same_but_peers m ps = record {
  ring = record { queue_depth = refl; queue = refl; head = refl; tail = refl; pending = refl };
  inflight = refl;
  completed = refl;
  failed = refl;
}

pub stopping_flag : (m : Mgr) → SameQueue m (record m { stopping = true })
stopping_flag m = record {
  ring = record { queue_depth = refl; queue = refl; head = refl; tail = refl; pending = refl };
  inflight = refl;
  completed = refl;
  failed = refl;
}

pub connect-SameQueue :
    (got : Bool) (m : Mgr) (info : Option PeerConnectInfo)
    → SameQueue m (ramdisk_urma_peer_connect got m info).1
unfolding ramdisk_urma_peer_connect add_peer_locked
connect-SameQueue got m info = ground arith

pub disconnect-SameQueue : (m : Mgr) (id : ℕ) → SameQueue m (ramdisk_urma_peer_disconnect m id).1
unfolding ramdisk_urma_peer_disconnect
disconnect-SameQueue m id = ground arith

pub enable-SameQueue : (m : Mgr) → SameQueue m (ramdisk_urma_enable m).1
unfolding ramdisk_urma_enable
enable-SameQueue m = ground arith

pub disable-SameQueue : (m : Mgr) → SameQueue m (ramdisk_urma_disable m).1
unfolding ramdisk_urma_disable
disable-SameQueue m = ground arith

pub write_peer-SameQueue :
    (m m' : Mgr) (id addr len : ℕ) (buf : Option Bytes) (rc : Status)
    → ramdisk_urma_mock_write_peer m id addr buf len ≡ some (rc, m')
    → SameQueue m m'
unfolding ramdisk_urma_mock_write_peer
write_peer-SameQueue m m' id addr len none rc e = ground arith
write_peer-SameQueue m m' id addr len (some buf) rc e = ground arith
