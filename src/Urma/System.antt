-- ===== src/Urma/System.antt =====
-- The manager, its backend and the worker thread of userspace-nbd/src/ramdisk_urma.c as one machine.
-- An event is one critical section, or the copy that the worker makes between its two; a list of
-- events is an interleaving. An event that is not enabled leaves the machine as it is.
pub mod SameQueue
pub mod Invariant
pub mod WorkerSteps
pub mod Order
pub mod History
pub mod Delivery
pub mod Sync
pub mod Waiting
use ddr_direct_storage.Base.{
  ℕ, Bool, true, false, not, ◌&&◌, ◌||◌, Option, none, some, List, [], ◌∷◌, ◌==◌, if◌then◌else◌,
  ◌>>=◌, Status, ok, err, Bytes, get_elem?,
}
use ddr_direct_storage.Backend.{Backend, ramdisk_backend_read, ramdisk_backend_write}
use ddr_direct_storage.Urma.State.{PeerConnectInfo, Transfer, Request, Mgr}
use ddr_direct_storage.Urma.Peers.{
  ramdisk_urma_peer_connect, ramdisk_urma_peer_disconnect, ramdisk_urma_enable,
  ramdisk_urma_disable,
}
use ddr_direct_storage.Urma.Transfer.{
  execute_mock_xfer, execute_real_xfer, ramdisk_urma_mock_write_peer, is_ok,
}
use ddr_direct_storage.Urma.Queue.{submit_locked, Taken, worker_take, worker_finish}

pub data Worker : Type 0 where
  -- Before its first critical section, or waiting for `not_empty`.
  idle : Worker
  -- It has taken a request, validated with a status, and holds a peer's slot.
  running : ℕ → Status → ℕ → Worker
  -- It has executed the request, with a status.
  executed : ℕ → Status → Worker
  stopped : Worker

pub record System : Type 0 where
  pub backend : Backend
  pub mgr : Mgr
  pub reqs : List Request
  pub worker : Worker

pub data Event : Type 0 where
  submit : Option Transfer → Event
  take exec finish stop : Event
  connect : Bool → Option PeerConnectInfo → Event
  disconnect : ℕ → Event
  enable disable : Event
  write_peer : ℕ → ℕ → Option Bytes → ℕ → Event
  write_backend : ℕ → Option Bytes → ℕ → Event

-- `while (!stopping && pending == 0) wait; if (stopping && pending == 0) break;` and the section.
unfoldable pub take_step : System → Option System
take_step s =
    let m = s.mgr in
    if m.pending == 0
    then (if m.stopping then some (record s { worker = stopped }) else some s)
    else (do
      t ← worker_take m s.backend s.reqs
      some (record s { mgr = t.mgr; reqs = t.reqs; worker = running t.req t.rc t.slot }))

-- The transfer itself, outside the manager's mutex; the backend's mutex is obtained.
unfoldable pub exec_step : System → ℕ → Status → ℕ → Option System
exec_step s r (err e) slot = some (record s { worker = executed r (err e) })
exec_step s r ok slot = do
  req ← get_elem? s.reqs r
  (rc, b, peers) ←
      if s.mgr.use_mock
      then execute_mock_xfer 0 s.backend s.mgr.peers req.xfer slot
      else execute_real_xfer s.backend s.mgr.peers
  some (record s { backend = b; mgr = record (s.mgr) { peers = peers }; worker = executed r rc })

unfoldable pub finish_step : System → ℕ → Status → Option System
finish_step s r rc = do
  (m, reqs) ← worker_finish s.mgr s.reqs r rc
  some (record s { mgr = m; reqs = reqs; worker = idle })

unfoldable pub worker_step : Event → System → Worker → Option System
worker_step take s idle = take_step s
worker_step exec s (running r rc slot) = exec_step s r rc slot
worker_step finish s (executed r rc) = finish_step s r rc
worker_step e s w = some s

unfoldable pub step : Event → System → Option System
step (submit x) s =
    let (rc, m, reqs) = submit_locked s.mgr s.backend s.reqs x in
    some (record s { mgr = m; reqs = reqs })
step (connect got info) s = some (record s { mgr = (ramdisk_urma_peer_connect got s.mgr info).1 })
step (disconnect id) s = some (record s { mgr = (ramdisk_urma_peer_disconnect s.mgr id).1 })
step enable s = some (record s { mgr = (ramdisk_urma_enable s.mgr).1 })
step disable s = some (record s { mgr = (ramdisk_urma_disable s.mgr).1 })
-- `ramdisk_urma_mgr_destroy` raises the flag.
step stop s = some (record s { mgr = record (s.mgr) { stopping = true } })
step (write_peer id addr buf len) s = do
  (rc, m) ← ramdisk_urma_mock_write_peer s.mgr id addr buf len
  some (record s { mgr = m })
step (write_backend offset buf len) s = do
  (rc, b) ← ramdisk_backend_write 0 s.backend offset buf len
  some (record s { backend = b })
step take s = worker_step take s s.worker
step exec s = worker_step exec s s.worker
step finish s = worker_step finish s s.worker

unfoldable pub run : List Event → System → Option System
run [] s = some s
run (e ∷ es) s = do s' ← step e s; run es s'
