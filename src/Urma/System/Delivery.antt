-- ===== src/Urma/System/Delivery.antt =====
-- One request through the worker of userspace-nbd/src/ramdisk_urma.c: where its bytes go, and when
-- the worker reads a pointer that was never set.
use ddr_direct_storage.Base.{
  ℕ, ◌-◌, ◌^◌, ◌≤◌, ◌<◌, ◌≡◌, refl, true, false, not, none, some, List, [], ◌∷◌, arith, is_none, ok,
  Bytes, get_elem?, set, length, length-set, get_elem?-lt, get_or-of-get_elem?, get_elem?-set_self,
  lt-get_elem?,
}
use ddr_direct_storage.Backend.{Backend}
use ddr_direct_storage.Backend.Range.{Holds}
use ddr_direct_storage.Urma.State.{Peer, no_peer, Transfer, Request, Mgr}
use ddr_direct_storage.Urma.Peers.{ramdisk_urma_disable}
use ddr_direct_storage.Urma.Transfer.{is_ok, execute_mock_xfer, validate_xfer_locked}
use ddr_direct_storage.Urma.Transfer.Checks.{validate_xfer_written, Admitted, validate_xfer_sound}
use ddr_direct_storage.Urma.Transfer.Effect.{Backed, mem_after, hbm_after, execute_mock_xfer_lem}
use ddr_direct_storage.Urma.System.{
  System, idle, running, executed, take, exec, finish, disable, take_step, exec_step, finish_step,
  worker_step, step, run,
}
use ddr_direct_storage.Urma.System.Invariant.{Inv, SameRing-Ring}
use ddr_direct_storage.Urma.Queue.{dequeue, settle, worker_finish, worker_take}
use ddr_direct_storage.Urma.Queue.Ring.{Ring, queue-head}

-- Taking a request does not change what the checks read.
validate-dequeue :
    (m : Mgr) (b : Backend) (x : Transfer)
    → validate_xfer_locked (dequeue m) b x ≡ validate_xfer_locked m b x
unfolding validate_xfer_locked dequeue
validate-dequeue m b x = refl

-- The worker's first section is defined exactly if the oldest request still passes the checks that
-- it passed when it was accepted. Otherwise it reads through the pointer `peer`, which nothing set.
pub worker_take_defined :
    (m : Mgr) (b : Backend) (reqs : List Request) (k n : ℕ) (request : Request)
    → Ring m k n
    → 0 < m.pending
    → get_elem? reqs k ≡ some request
    → is_none (worker_take m b reqs) ≡ not (is_ok (validate_xfer_locked m b request.xfer).0)
unfolding worker_take
worker_take_defined m b reqs k n request ring some_pending there = ground (
  arith,
  queue-head m k n ring some_pending,
  validate-dequeue m b request.xfer,
  validate_xfer_written m b request.xfer,
)

-- The request as the worker's first section leaves it.
abbrev pub moved : Request → Peer → Request
moved request p = record request { xfer = record (request.xfer) { remote_hbm_addr = p.seg_va } }

pub worker_take-some :
    (m : Mgr) (b : Backend) (reqs : List Request) (k n i : ℕ) (request : Request) (p : Peer)
    → Ring m k n
    → 0 < m.pending
    → get_elem? reqs k ≡ some request
    → validate_xfer_locked m b request.xfer ≡ (ok, some i)
    → get_elem? m.peers i ≡ some p
    → worker_take m b reqs
      ≡ some (record {
        mgr = dequeue m;
        reqs = set reqs k (moved request p);
        req = k;
        rc = ok;
        slot = i;
      })
unfolding worker_take dequeue
worker_take-some m b reqs k n i request p ring some_pending there valid at = ground (
  arith,
  queue-head m k n ring some_pending,
  validate-dequeue m b request.xfer,
  get_or-of-get_elem? m.peers i no_peer at,
)

module _ (s : System) (k f i : ℕ) (request : Request) (p : Peer) (mem hbm : Bytes) (inv : Inv s k f)
    (w : s.worker ≡ idle) (some_pending : 0 < s.mgr.pending)
    (there : get_elem? s.reqs k ≡ some request) (mock : s.mgr.use_mock ≡ true)
    (valid : validate_xfer_locked s.mgr s.backend request.xfer ≡ (ok, some i))
    (at : get_elem? s.mgr.peers i ≡ some p) (holds : Holds s.backend mem) (backed : Backed p hbm)
    (word : p.seg_va < 2 ^ 64) where
  abbrev taken : System
  taken = record s {
    mgr = dequeue s.mgr;
    reqs = set s.reqs k (moved request p);
    worker = running k ok i;
  }

  abbrev copied : System
  copied = record taken {
    backend = record (s.backend) { base = some (mem_after request.xfer 0 mem hbm); locked = false };
    mgr = record (dequeue s.mgr) {
      peers = set s.mgr.peers i (record p { mock_hbm = some (hbm_after request.xfer 0 mem hbm) });
    };
    worker = executed k ok;
  }

  take_lem : step take s ≡ some taken
  unfolding step worker_step take_step
  take_lem = ground (
    arith,
    worker_take-some s.mgr s.backend s.reqs k (length s.reqs) i request p inv.ring some_pending
        there valid at,
  )

  exec_lem : step exec taken ≡ some copied
  unfolding step worker_step exec_step dequeue
  exec_lem = ground (arith, found, copy, mock)
    where
      found : get_elem? (set s.reqs k (moved request p)) k ≡ some (moved request p)
      found = get_elem?-set_self s.reqs k (moved request p) (lt-get_elem? s.reqs k there)

      fine : Admitted s.mgr s.backend mem request.xfer i
      fine = validate_xfer_sound s.mgr s.backend mem request.xfer i holds valid

      short : request.xfer.len ≤ p.seg_len
      short = ground (arith, fine.slot, fine.from_start, fine.to_end)

      zero_off : p.seg_va - p.seg_va ≡ 0
      zero_off = omega arith

      copy :
          execute_mock_xfer 0 s.backend s.mgr.peers (moved request p).xfer i
          ≡ some (ok, copied.backend, copied.mgr.peers)
      copy = rw zero_off at (
          execute_mock_xfer_lem s.backend mem hbm s.mgr.peers p (moved request p).xfer i holds at
            backed word (omega arith) (omega (arith, short)) fine.inside)

  abbrev delivered : System
  delivered = record copied {
    mgr = settle copied.mgr ok;
    reqs = set taken.reqs k (record (moved request p) { status = ok; done = true });
    worker = idle;
  }

  finish_lem : step finish copied ≡ some delivered
  unfolding step worker_step finish_step worker_finish
  finish_lem = ground (arith, found)
    where
      found : get_elem? (set s.reqs k (moved request p)) k ≡ some (moved request p)
      found = get_elem?-set_self s.reqs k (moved request p) (lt-get_elem? s.reqs k there)

  -- A valid request that the mock worker takes and finishes with nothing in between succeeds. Its
  -- bytes are copied to or from the START of the peer's segment, whatever remote address it
  -- asked for, and the request is left with the address of that start.
  pub worker_delivers :
      (s' : System) × (run (take ∷ exec ∷ finish ∷ []) s ≡ some s')
      × (s'.backend.base ≡ some (mem_after request.xfer 0 mem hbm))
      × (get_elem? s'.mgr.peers i
          ≡ some (record p { mock_hbm = some (hbm_after request.xfer 0 mem hbm) }))
      × (get_elem? s'.reqs k ≡ some (record (moved request p) { status = ok; done = true }))
      × (s'.worker ≡ idle)
  unfolding run settle dequeue
  worker_delivers = (
    delivered,
    ground (arith, take_lem, exec_lem, finish_lem),
    refl,
    get_elem?-set_self s.mgr.peers i _ (lt-get_elem? s.mgr.peers i at),
    get_elem?-set_self taken.reqs k _
        (omega (arith, length-set s.reqs k (moved request p), lt-get_elem? s.reqs k there)),
    refl,
  )

-- A request that no longer passes the checks makes the worker's next section undefined.
take_undefined :
    (s : System) (k : ℕ)
    → Ring s.mgr k (length s.reqs)
    → s.worker ≡ idle
    → 0 < s.mgr.pending
    → ((x : Transfer) → is_ok (validate_xfer_locked s.mgr s.backend x).0 ≡ false)
    → step take s ≡ none
unfolding step worker_step take_step
take_undefined s k ring w some_pending refused =
    let (request, there) = get_elem?-lt s.reqs k (omega (arith, ring.counted)) in
    ground (
      arith,
      worker_take_defined s.mgr s.backend s.reqs k (length s.reqs) request ring some_pending there,
      refused request.xfer,
    )

refused_disabled :
    (m : Mgr) (b : Backend) (x : Transfer)
    → m.enabled ≡ false
    → is_ok (validate_xfer_locked m b x).0 ≡ false
unfolding validate_xfer_locked
refused_disabled m b x h = ground arith

-- If the URMA path is switched off while a request waits, the worker's next section is undefined.
pub disable_faults :
    (s : System) (k f : ℕ)
    → Inv s k f
    → s.mgr.initialized ≡ true
    → s.worker ≡ idle
    → 0 < s.mgr.pending
    → run (disable ∷ take ∷ []) s ≡ none
unfolding run ramdisk_urma_disable
disable_faults s k f inv live w some_pending = ground (arith, switched, faulty)
  where
    off : System
    off = record s { mgr = record (s.mgr) { enabled = false } }

    switched : step disable s ≡ some off
    switched = unfold step in ground arith

    ring : Ring off.mgr k (length s.reqs)
    ring =
        SameRing-Ring s.mgr off.mgr k (length s.reqs)
          (record { queue_depth = refl; queue = refl; head = refl; tail = refl; pending = refl })
          inv.ring

    faulty : step take off ≡ none
    faulty =
        take_undefined off k ring w some_pending (λ x. refused_disabled off.mgr s.backend x refl)
