-- ===== src/Urma/Tests.antt =====
-- Runs of the URMA manager on small disks, and the theorems at concrete inputs.
use ddr_direct_storage.Base.{
  ℕ, zero, suc, ◌+◌, ◌%◌, ◌^◌, ◌≤◌, ◌<◌, ◌≡◌, refl, ◌⊎◌, inl, inr, true, false, Option, none, some,
  List, [], ◌∷◌, arith, ltb, ◌==◌, if◌then◌else◌, ok, Bytes, length, get_elem?, get_or, load, store,
  zeros, is_none,
}
use ddr_direct_storage.Base.Errno.{etimedout}
use ddr_direct_storage.Backend.{
  Backend, ramdisk_backend_validate_range, copy_in, ramdisk_backend_base, ramdisk_backend_lock,
  ramdisk_backend_unlock,
}
use ddr_direct_storage.Backend.Range.{Holds}
use ddr_direct_storage.Urma.State.{no_peer, PeerConnectInfo, Transfer, Request, UrmaConfig, Mgr}
use ddr_direct_storage.Urma.Peers.{
  find_peer_locked, find_free_slot, add_peer_locked, ramdisk_urma_peer_connect,
  ramdisk_urma_peer_disconnect,
}
use ddr_direct_storage.Urma.Peers.Table.{peer_of, Distinct}
use ddr_direct_storage.Urma.Peers.Map.{fresh_peer, connect_ok, disconnect_lem}
use ddr_direct_storage.Urma.Transfer.{
  validate_xfer_locked, validate_segment, validate_alignment, mock_copy, execute_mock_xfer,
}
use ddr_direct_storage.Urma.Transfer.Checks.{Admitted, validate_xfer_sound}
use ddr_direct_storage.Urma.Transfer.Effect.{execute_mock_xfer_lem}
use ddr_direct_storage.Urma.Queue.{
  new_request, enqueue, dequeue, submit_locked, worker_take, worker_finish, settle,
}
use ddr_direct_storage.Urma.Queue.Ring.{Ring, enqueue-Ring, dequeue-Ring}
use ddr_direct_storage.Urma.Manager.{zeroed_mgr, configured, ramdisk_urma_mgr_init}
use ddr_direct_storage.Urma.System.{
  System, Event, idle, submit, take, exec, finish, disable, connect, run, step, worker_step,
  take_step, exec_step, finish_step,
}
use ddr_direct_storage.Urma.System.Invariant.{Inv}
use ddr_direct_storage.Urma.System.History.{boot, history_in_order}
use ddr_direct_storage.Urma.System.Sync.{
  Round, Waited, returned, wait_loop, ramdisk_urma_transfer_sync,
}
use ddr_direct_storage.Urma.System.Waiting.{events_of, accepted, transfer_sync_lem}
use ddr_direct_storage.Urma.System.Delivery.{
  worker_take_defined, worker_delivers, disable_faults, moved,
}

abbrev memory : Bytes
memory = 1 ∷ 2 ∷ 3 ∷ 4 ∷ 5 ∷ 6 ∷ 7 ∷ 8 ∷ []

abbrev disk : Backend
disk = record { base = some memory; size = 8; block_size = 2; locked = false; initialized = true }

abbrev config : UrmaConfig
config = record {
  enable = true;
  use_mock = true;
  queue_depth = 2;
  urma_dev = none;
  eid_index = 0;
  trans_mode = 0;
  tp_type = 0;
  local_token_value = 0;
}

abbrev info : PeerConnectInfo
info = record {
  peer_id = 7;
  eid = zeros 16;
  uasid = 0;
  seg_va = 4096;
  seg_len = 6;
  seg_token_id = 11;
  jetty_id = 22;
}

-- Two bytes from offset 4 of the disk, for offset 2 of the peer's segment.
abbrev xfer : Transfer
xfer = record {
  peer_id = 7;
  request_id = 1;
  local_offset = 4;
  remote_hbm_addr = 4098;
  len = 2;
  direction = 1;
}

-- A manager with one peer in the first of two slots, and room for two requests.
abbrev mgr : Mgr
mgr = record zeroed_mgr {
  initialized = true;
  worker_started = true;
  enabled = true;
  use_mock = true;
  queue_depth = 2;
  queue = none ∷ none ∷ [];
  peers = fresh_peer info ∷ no_peer ∷ [];
}

-- The same with a request waiting in the ring's second place.
abbrev waiting : Mgr
waiting = record mgr { queue = none ∷ some 0 ∷ []; head = 1; tail = 0; pending = 1 }

abbrev busy : System
busy = record { backend = disk; mgr = waiting; reqs = new_request xfer ∷ []; worker = idle }

waiting-Ring : Ring waiting 0 1
waiting-Ring = record {
  some_room = omega arith;
  limited = omega arith;
  sized = refl;
  head_in = omega arith;
  bounded = omega arith;
  tail_at = refl;
  counted = refl;
  entries = first;
}
  where
    first : (i : ℕ) → i < 1 → get_elem? waiting.queue ((1 + i) % 2) ≡ some (some (0 + i))
    first zero h = refl
    first (suc i) h = absurd (omega arith)

busy-Inv : Inv busy 0 0
busy-Inv = record {
  ring = waiting-Ring;
  busy = (refl, refl);
  settled = open_requests;
  books = refl;
}
  where
    open_requests : (r : ℕ) (q : Request) → get_elem? busy.reqs r ≡ some q → q.done ≡ ltb r 0
    open_requests zero q e = ground arith
    open_requests (suc r) q e = ground arith

xfer_valid : validate_xfer_locked waiting disk xfer ≡ (ok, some 0)
unfolding validate_xfer_locked validate_segment validate_alignment ramdisk_backend_validate_range
    find_peer_locked
xfer_valid = refl

abbrev full_history : List Event
full_history = submit (some xfer) ∷ take ∷ submit (some xfer) ∷ exec ∷ finish ∷ []

abbrev started : Mgr
started = (ramdisk_urma_mgr_init true 0 0 zeroed_mgr disk (some config)).1

abbrev with_peer : Mgr
with_peer = record started { peers = fresh_peer info ∷ [] }

-- What a run shows: the finished and waiting requests, and the first peer's memory.
abbrev summary : Option System → Option (ℕ × ℕ × Option Bytes)
summary none = none
summary (some s) = some (s.mgr.completed, s.mgr.pending, (get_or s.mgr.peers 0 no_peer).mock_hbm)

-- The first request is delivered, at the start of the segment and not at offset 2 of it.
history_outcome :
    summary (run full_history (boot disk with_peer))
    ≡ some (1, 1, some (5 ∷ 6 ∷ 0 ∷ 0 ∷ 0 ∷ 0 ∷ []))
unfolding run step worker_step take_step exec_step finish_step submit_locked enqueue dequeue
    worker_take worker_finish settle ramdisk_urma_mgr_init configured validate_xfer_locked
    validate_segment validate_alignment ramdisk_backend_validate_range find_peer_locked
    execute_mock_xfer mock_copy copy_in ramdisk_backend_base ramdisk_backend_lock
    ramdisk_backend_unlock load store
history_outcome = refl

started_ok : ramdisk_urma_mgr_init true 0 0 zeroed_mgr disk (some config) ≡ (ok, started)
unfolding ramdisk_urma_mgr_init configured
started_ok = refl

abbrev full_events : List Event
full_events = connect true (some info) ∷ full_history

abbrev state_or : Option System → System → System
state_or none s = s
state_or (some t) s = t

abbrev final : System
final = state_or (run full_events (boot disk started)) (boot disk started)

reaches_final : run full_events (boot disk started) ≡ some final
unfolding run step worker_step take_step exec_step finish_step submit_locked enqueue dequeue
    worker_take worker_finish settle ramdisk_urma_mgr_init configured validate_xfer_locked
    validate_segment validate_alignment ramdisk_backend_validate_range find_peer_locked
    find_free_slot add_peer_locked ramdisk_urma_peer_connect execute_mock_xfer mock_copy copy_in
    ramdisk_backend_base ramdisk_backend_lock ramdisk_backend_unlock load store
reaches_final = refl

history_in_order_example :
    (f : ℕ) × ((r : ℕ) (q : Request) → get_elem? final.reqs r ≡ some q → q.done ≡ ltb r f)
    × ((final.mgr.completed + final.mgr.failed) % 2 ^ 64 ≡ f % 2 ^ 64)
    × (f + final.mgr.inflight + final.mgr.pending ≡ length final.reqs)
    × (final.mgr.inflight ≤ 1)
    × (final.mgr.pending ≤ final.mgr.queue_depth)
history_in_order_example =
    history_in_order true 0 0 zeroed_mgr started disk (some config) full_events final started_ok
      reaches_final

-- A call whose first wait times out, and in whose second one the worker executes the request.
abbrev connected : System
connected = state_or (run (connect true (some info) ∷ []) (boot disk started)) (boot disk started)

reaches_connected : run (connect true (some info) ∷ []) (boot disk started) ≡ some connected
unfolding run step find_free_slot add_peer_locked ramdisk_urma_peer_connect find_peer_locked
    ramdisk_urma_mgr_init configured
reaches_connected = refl

abbrev two_rounds : List Round
two_rounds = ([], etimedout) ∷ (take ∷ exec ∷ finish ∷ [], 0) ∷ []

abbrev executed_all : System
executed_all = state_or (run (submit (some xfer) ∷ take ∷ exec ∷ finish ∷ []) connected) connected

accepts_xfer : (submit_locked connected.mgr connected.backend connected.reqs (some xfer)).0 ≡ ok
unfolding run step submit_locked validate_xfer_locked validate_segment validate_alignment
    ramdisk_backend_validate_range find_peer_locked find_free_slot add_peer_locked
    ramdisk_urma_peer_connect ramdisk_urma_mgr_init configured enqueue
accepts_xfer = refl

comes_back :
    ramdisk_urma_transfer_sync two_rounds connected (some xfer) ≡ some (returned ok, executed_all)
unfolding ramdisk_urma_transfer_sync wait_loop run step worker_step take_step exec_step finish_step
    submit_locked enqueue dequeue worker_take worker_finish settle ramdisk_urma_mgr_init configured
    validate_xfer_locked validate_segment validate_alignment ramdisk_backend_validate_range
    find_peer_locked find_free_slot add_peer_locked ramdisk_urma_peer_connect execute_mock_xfer
    mock_copy copy_in ramdisk_backend_base ramdisk_backend_lock ramdisk_backend_unlock load store
comes_back = refl

transfer_sync_lem_example :
    (req : Request) × (get_elem? executed_all.reqs (length connected.reqs) ≡ some req)
    × (((returned ok ≡ returned req.status)
          × ((i : ℕ) (q : Request)
              → i ≤ length connected.reqs
              → get_elem? executed_all.reqs i ≡ some q
              → q.done ≡ true))
        ⊎ ((returned ok ≡ Waited.waiting)
            × (req.done ≡ false)
            × (run (events_of two_rounds) (accepted connected xfer) ≡ some executed_all)))
transfer_sync_lem_example =
    transfer_sync_lem true 0 0 zeroed_mgr started disk (some config) (connect true (some info) ∷ [])
      connected executed_all xfer two_rounds (returned ok) started_ok reaches_connected accepts_xfer
      (inr refl, (inl refl, tt)) comes_back

enqueue-Ring_example : Ring (enqueue waiting 1) 0 2
enqueue-Ring_example = enqueue-Ring waiting 0 1 waiting-Ring (omega arith)

dequeue-Ring_example : Ring (dequeue waiting) 1 1
dequeue-Ring_example = dequeue-Ring waiting 0 1 waiting-Ring (omega arith)

mgr-Distinct : Distinct mgr.peers
mgr-Distinct = (λ h. refl, (λ h. refl, tt))

abbrev other_info : PeerConnectInfo
other_info = record info { peer_id = 8 }

second_connects : (ramdisk_urma_peer_connect true mgr (some other_info)).0 ≡ ok
unfolding ramdisk_urma_peer_connect add_peer_locked find_peer_locked find_free_slot
second_connects = refl

connect_ok_example :
    let m' = (ramdisk_urma_peer_connect true mgr (some other_info)).1 in
    (mgr.enabled ≡ true)
    × (peer_of mgr.peers 8 ≡ none)
    × Distinct m'.peers
    × (length m'.peers ≡ 2)
    × ((id : ℕ)
        → peer_of m'.peers id
          ≡ (if 8 == id then some (fresh_peer other_info) else peer_of mgr.peers id))
connect_ok_example = connect_ok true mgr other_info mgr-Distinct second_connects

disconnect_lem_example :
    let (s, m') = ramdisk_urma_peer_disconnect mgr 7 in
    (s ≡ ok)
    × Distinct m'.peers
    × (length m'.peers ≡ 2)
    × ((id' : ℕ) → peer_of m'.peers id' ≡ (if 7 == id' then none else peer_of mgr.peers id'))
disconnect_lem_example = disconnect_lem mgr 7 refl (omega arith) mgr-Distinct

disk-Holds : Holds disk memory
disk-Holds = (refl, refl, refl)

validate_xfer_sound_example : Admitted waiting disk memory xfer 0
validate_xfer_sound_example = validate_xfer_sound waiting disk memory xfer 0 disk-Holds xfer_valid

execute_mock_xfer_lem_example :
    execute_mock_xfer 0 disk mgr.peers xfer 0
    ≡ some (
      ok,
      disk,
      record (fresh_peer info) { mock_hbm = some (0 ∷ 0 ∷ 5 ∷ 6 ∷ 0 ∷ 0 ∷ []) } ∷ no_peer ∷ [],
    )
execute_mock_xfer_lem_example =
    execute_mock_xfer_lem disk memory (zeros 6) mgr.peers (fresh_peer info) xfer 0 disk-Holds refl
      (refl, refl) (omega arith) (omega arith) (omega arith) (omega arith)

worker_take_defined_example : is_none (worker_take waiting disk busy.reqs) ≡ false
unfolding validate_xfer_locked validate_segment validate_alignment ramdisk_backend_validate_range
    find_peer_locked
worker_take_defined_example =
    worker_take_defined waiting disk busy.reqs 0 1 (new_request xfer) waiting-Ring (omega arith)
      refl

-- Asked for offset 2 of the segment, the bytes go to offset 0.
worker_delivers_example :
    (s' : System) × (run (take ∷ exec ∷ finish ∷ []) busy ≡ some s')
    × (s'.backend.base ≡ some memory)
    × (get_elem? s'.mgr.peers 0
        ≡ some (record (fresh_peer info) { mock_hbm = some (5 ∷ 6 ∷ 0 ∷ 0 ∷ 0 ∷ 0 ∷ []) }))
    × (get_elem? s'.reqs 0
        ≡ some (record (moved (new_request xfer) (fresh_peer info)) { status = ok; done = true }))
    × (s'.worker ≡ idle)
worker_delivers_example =
    worker_delivers busy 0 0 0 (new_request xfer) (fresh_peer info) memory (zeros 6) busy-Inv refl
      (omega arith) refl refl xfer_valid refl disk-Holds (refl, refl) (omega arith)

disable_faults_example : run (disable ∷ take ∷ []) busy ≡ none
disable_faults_example = disable_faults busy 0 0 busy-Inv refl refl (omega arith)
