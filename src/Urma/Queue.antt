-- ===== src/Urma/Queue.antt =====
-- The bounded request queue of userspace-nbd/src/ramdisk_urma.c: a ring of request pointers, filled
-- by `ramdisk_urma_transfer_sync` and drained by `urma_worker_main`. Each function below is one
-- critical section under the manager's mutex.
pub mod Ring
use ddr_direct_storage.Base.{
  ℕ, ◌+◌, ◌-◌, ◌%◌, ◌^◌, Bool, true, false, not, Option, none, some, List, [], ◌∷◌, ◌++◌, leb, ltb,
  ◌==◌, if◌then◌else◌, ◌>>=◌, Status, ok, err, get_elem?, get_or, set, length,
}
use ddr_direct_storage.Base.Errno.{einval, ebusy, etimedout}
use ddr_direct_storage.Backend.{Backend}
use ddr_direct_storage.Urma.State.{no_peer, Transfer, Request, Mgr}
use ddr_direct_storage.Urma.Transfer.{validate_xfer_locked, is_ok}

-- `queue[tail] = &req; tail = (tail + 1U) % queue_depth; pending++`.
unfoldable pub enqueue : Mgr → ℕ → Mgr
enqueue mgr r = record mgr {
  queue = set mgr.queue mgr.tail (some r);
  tail = (mgr.tail + 1) % mgr.queue_depth;
  pending = mgr.pending + 1;
}

-- `req = queue[head]; queue[head] = NULL; head = (head + 1U) % queue_depth; pending--; inflight++`.
unfoldable pub dequeue : Mgr → Mgr
dequeue mgr = record mgr {
  queue = set mgr.queue mgr.head none;
  head = (mgr.head + 1) % mgr.queue_depth;
  pending = mgr.pending - 1;
  inflight = mgr.inflight + 1;
}

abbrev pub new_request : Transfer → Request
new_request xfer = record { xfer = xfer; status = ok; done = false }

-- `ramdisk_urma_transfer_sync` up to its wait. The requests are those accepted so far.
unfoldable pub submit_locked :
    Mgr → Backend → List Request → Option Transfer → Status × Mgr × List Request
submit_locked mgr b reqs none = (err einval, mgr, reqs)
submit_locked mgr b reqs (some xfer) =
    if not mgr.initialized
    then (err einval, mgr, reqs)
    else let (rc, peer) = validate_xfer_locked mgr b xfer in
      elim rc [
        | err e ↦ (err e, mgr, reqs)
        | ok ↦
            if leb mgr.queue_depth mgr.pending
            then (err ebusy, mgr, reqs)
            else (ok, enqueue mgr (length reqs), reqs ++ (new_request xfer ∷ []))
      ]

-- What the worker holds between its two critical sections.
pub record Taken : Type 0 where
  pub mgr : Mgr
  pub reqs : List Request
  pub req : ℕ
  pub rc : Status
  pub slot : ℕ

-- The first critical section of the worker, entered with `pending != 0`. It reads `peer->seg_va`
-- whatever `validate_xfer_locked` returned, and `peer` is not initialised where that failed: this is
-- the `none` of the last line but two. It then stores that address into the request.
unfoldable pub worker_take : Mgr → Backend → List Request → Option Taken
unfolding dequeue
worker_take mgr b reqs = do
  entry ← get_elem? mgr.queue mgr.head
  r ← entry
  req ← get_elem? reqs r
  let mgr' = dequeue mgr
  let (rc, peer_out) = validate_xfer_locked mgr' b req.xfer
  slot ← peer_out
  let seg_va = (get_or mgr'.peers slot no_peer).seg_va
  let xfer' = record (req.xfer) { remote_hbm_addr = seg_va }
  some (record {
    mgr = mgr';
    reqs = set reqs r (record req { xfer = xfer' });
    req = r;
    rc = rc;
    slot = slot;
  })

-- The counters of the second critical section; `completed` and `failed` are `uint64_t`.
unfoldable pub settle : Mgr → Status → Mgr
settle mgr rc =
    if is_ok rc
    then record mgr { inflight = mgr.inflight - 1; completed = (mgr.completed + 1) % 2 ^ 64 }
    else record mgr { inflight = mgr.inflight - 1; failed = (mgr.failed + 1) % 2 ^ 64 }

-- The second critical section of the worker.
unfoldable pub worker_finish : Mgr → List Request → ℕ → Status → Option (Mgr × List Request)
unfolding settle
worker_finish mgr reqs r rc = do
  req ← get_elem? reqs r
  some (settle mgr rc, set reqs r (record req { status = rc; done = true }))
