-- ===== src/Urma/System/History.antt =====
-- What every history of a freshly initialised manager satisfies.
use native.Mathlib.Nat.{mod-eq_of_lt}
use ddr_direct_storage.Base.{
  ℕ, ◌+◌, ◌%◌, ◌^◌, ◌≤◌, ◌≡◌, refl, sym, Bool, true, Option, none, some, List, [], arith, ltb,
  get_elem?, length, length-replicate, ok,
}
use ddr_direct_storage.Backend.{Backend}
use ddr_direct_storage.Urma.State.{Mgr, Request, UrmaConfig}
use ddr_direct_storage.Urma.Manager.{configured, ramdisk_urma_mgr_init, depth_of, config_or_default}
use ddr_direct_storage.Urma.Queue.Ring.{Ring}
use ddr_direct_storage.Urma.System.{System, Worker, Event, idle, running, executed, stopped, run}
use ddr_direct_storage.Urma.System.Invariant.{Inv, Busy}
use ddr_direct_storage.Urma.System.Order.{run-Keeps}

-- The machine at the start of the worker thread.
abbrev pub boot : Backend → Mgr → System
boot b m = record { backend = b; mgr = m; reqs = []; worker = idle }

init_lem :
    (got : Bool) (mutex_rc thread_rc : ℕ) (old m : Mgr) (b : Backend) (config : Option UrmaConfig)
    → ramdisk_urma_mgr_init got mutex_rc thread_rc old b config ≡ (ok, m)
    → (depth_of (config_or_default config) ≤ 1024)
      × (m ≡ record (configured (config_or_default config)) { worker_started = true })
unfolding ramdisk_urma_mgr_init
init_lem got mutex_rc thread_rc old m b config e = ground arith

configured-Ring :
    (c : UrmaConfig)
    → depth_of c ≤ 1024
    → Ring (record (configured c) { worker_started = true }) 0 0
unfolding configured
configured-Ring c h = record {
  some_room = ground arith;
  limited = h;
  sized = length-replicate (depth_of c) none;
  head_in = ground arith;
  bounded = omega arith;
  tail_at = sym (mod-eq_of_lt {n = 0} {m = depth_of c} (ground arith));
  counted = refl;
  entries = λ i q. elim q [ ];
}

init-Inv :
    (got : Bool) (mutex_rc thread_rc : ℕ) (old m : Mgr) (b : Backend) (config : Option UrmaConfig)
    → ramdisk_urma_mgr_init got mutex_rc thread_rc old b config ≡ (ok, m)
    → Inv (boot b m) 0 0
unfolding configured
init-Inv got mutex_rc thread_rc old m b config e =
    let (fits, is) = init_lem got mutex_rc thread_rc old m b config e in
    record {
      ring = rw is (configured-Ring (config_or_default config) fits);
      busy = rw is (refl, refl);
      settled = λ r q h. cc;
      books = rw is refl;
    }

in_flight : (w : Worker) (k f i : ℕ) → Busy w k f i → (f + i ≡ k) × (i ≤ 1)
in_flight idle k f i h = omega arith
in_flight stopped k f i h = omega arith
in_flight (running r rc slot) k f i h = omega arith
in_flight (executed r rc) k f i h = omega arith

-- After any history in which nothing undefined happens, a number `f` of requests has been settled:
-- exactly the `f` accepted first are done, and `completed` and `failed` together count them (they
-- are 64-bit counters). All others are in flight or pending, at most one is in flight, and no more
-- are pending than the queue is deep.
pub history_in_order :
    (got : Bool) (mutex_rc thread_rc : ℕ) (old m : Mgr) (b : Backend) (config : Option UrmaConfig)
    (es : List Event) (s : System)
    → ramdisk_urma_mgr_init got mutex_rc thread_rc old b config ≡ (ok, m)
    → run es (boot b m) ≡ some s
    → (f : ℕ) × ((r : ℕ) (q : Request) → get_elem? s.reqs r ≡ some q → q.done ≡ ltb r f)
      × ((s.mgr.completed + s.mgr.failed) % 2 ^ 64 ≡ f % 2 ^ 64)
      × (f + s.mgr.inflight + s.mgr.pending ≡ length s.reqs)
      × (s.mgr.inflight ≤ 1)
      × (s.mgr.pending ≤ s.mgr.queue_depth)
history_in_order got mutex_rc thread_rc old m b config es s made ran =
    let kept =
      run-Keeps es (boot b m) s 0 0 (init-Inv got mutex_rc thread_rc old m b config made) ran in
    let balance = in_flight s.worker kept.taken kept.settled s.mgr.inflight kept.inv.busy in
    (
      kept.settled,
      kept.inv.settled,
      kept.inv.books,
      omega (arith, balance, kept.inv.ring.counted),
      omega (arith, balance),
      kept.inv.ring.bounded,
    )
