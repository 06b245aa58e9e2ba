-- ===== src/Urma/System/WorkerSteps.antt =====
-- The worker's critical sections, taken apart, and what they keep.
use ddr_direct_storage.Base.{
  ℕ, suc, ◌+◌, ◌-◌, ◌%◌, ◌^◌, ◌<◌, ◌≡◌, ◌≢◌, refl, sym, ap, ◌∙◌, true, some, List, arith, ltb,
  get_elem?, get_or, set, length, length-set, get_elem?-set_self, get_elem?-set_ne, get_elem?-lt,
  Status, ok, err,
}
use native.Mathlib.Decide.{ℕ_discrete}
use ddr_direct_storage.Backend.{Backend}
use ddr_direct_storage.Urma.State.{Mgr, Request, no_peer}
use ddr_direct_storage.Urma.Transfer.{validate_xfer_locked}
use ddr_direct_storage.Urma.Queue.{dequeue, settle, Taken, worker_take, worker_finish}
use ddr_direct_storage.Urma.Queue.Ring.{Ring, dequeue-Ring, queue-head}
use ddr_direct_storage.Urma.System.{System, Worker, idle, running, executed, stopped}
use ddr_direct_storage.Urma.System.Invariant.{Inv, Busy, SameRing, SameRing-Ring}

-- The first critical section, when it is defined: the oldest request has been taken and is valid,
-- and its remote address has become that of the segment's start.
pub record Takes (m : Mgr) (b : Backend) (reqs : List Request) (k : ℕ) (request : Request)
    (t : Taken) : Type 0 where
  pub mgr : t.mgr ≡ dequeue m
  pub oldest : t.req ≡ k
  pub valid : validate_xfer_locked (dequeue m) b request.xfer ≡ (t.rc, some t.slot)
  pub reqs_after :
      t.reqs
      ≡ set reqs k (record request {
        xfer = record (request.xfer) {
          remote_hbm_addr = (get_or (dequeue m).peers t.slot no_peer).seg_va;
        };
      })

pub worker_take-Takes :
    (m : Mgr) (b : Backend) (reqs : List Request) (k n : ℕ) (t : Taken)
    → Ring m k n
    → 0 < m.pending
    → (request : Request) → get_elem? reqs k ≡ some request
    → worker_take m b reqs ≡ some t
    → Takes m b reqs k request t
unfolding worker_take
worker_take-Takes m b reqs k n t ring some_pending request there e = record {
  mgr = ground (arith, queue-head m k n ring some_pending);
  oldest = ground (arith, queue-head m k n ring some_pending);
  valid = ground (arith, queue-head m k n ring some_pending);
  reqs_after = ground (arith, queue-head m k n ring some_pending);
}

abbrev Settled : List Request → ℕ → Type 0
Settled reqs f = (r : ℕ) (q : Request) → get_elem? reqs r ≡ some q → q.done ≡ ltb r f

Settled-set :
    (reqs : List Request) (k f f' : ℕ) (q' : Request)
    → k < length reqs
    → Settled reqs f
    → q'.done ≡ ltb k f'
    → ((r : ℕ) → r ≢ k → ltb r f' ≡ ltb r f)
    → Settled (set reqs k q') f'
Settled-set reqs k f f' q' inside old new others r q e = elim (ℕ_discrete r k) [
  | yes p ↦ ground (arith, get_elem?-set_self reqs k q' inside)
  | no p ↦ old r q (sym (get_elem?-set_ne reqs q' (λ c. p (sym c))) ∙ e) ∙ sym (others r p)
]

Busy-idle : (w : Worker) (k f i : ℕ) → w ≡ idle → Busy w k f i → (f ≡ k) × (i ≡ 0)
Busy-idle idle k f i e h = h
Busy-idle stopped k f i e h = h
Busy-idle (running r rc slot) k f i e h = cc
Busy-idle (executed r rc) k f i e h = cc

-- Taking a request keeps the invariant, with one more request taken.
pub take-Inv :
    (s : System) (t : Taken) (k f : ℕ)
    → s.worker ≡ idle
    → 0 < s.mgr.pending
    → Inv s k f
    → worker_take s.mgr s.backend s.reqs ≡ some t
    → Inv (record s { mgr = t.mgr; reqs = t.reqs; worker = running t.req t.rc t.slot }) (suc k) f
unfolding dequeue
take-Inv s t k f w some_pending inv e = record {
  ring = rw (tk.mgr, len) (dequeue-Ring s.mgr k n inv.ring some_pending);
  busy = ground (arith, tk.oldest, tk.mgr, free);
  settled =
      rw (tk.reqs_after) (
        Settled-set s.reqs k f f _ inside inv.settled (inv.settled k request there) (λ r ne. refl));
  books = rw (tk.mgr) inv.books;
}
  where
    n : ℕ
    n = length s.reqs

    inside : k < n
    inside = omega (arith, inv.ring.counted)

    request : Request
    request = (get_elem?-lt s.reqs k inside).0

    there : get_elem? s.reqs k ≡ some request
    there = (get_elem?-lt s.reqs k inside).1

    tk : Takes s.mgr s.backend s.reqs k request t
    tk = worker_take-Takes s.mgr s.backend s.reqs k n t inv.ring some_pending request there e

    len : length t.reqs ≡ n
    len = ap length tk.reqs_after ∙ length-set s.reqs k _

    free : (f ≡ k) × (s.mgr.inflight ≡ 0)
    free = Busy-idle s.worker k f s.mgr.inflight w inv.busy

Busy-executed :
    (w : Worker) (r : ℕ) (rc : Status) (k f i : ℕ)
    → w ≡ executed r rc
    → Busy w k f i
    → (f ≡ r) × (suc r ≡ k) × (i ≡ 1)
Busy-executed idle r rc k f i e h = cc
Busy-executed stopped r rc k f i e h = cc
Busy-executed (running r' rc' slot) r rc k f i e h = cc
Busy-executed (executed r' rc') r rc k f i e h = ground arith

settle-SameRing : (m : Mgr) (rc : Status) → SameRing m (settle m rc)
unfolding settle
settle-SameRing m ok = record {
  queue_depth = refl;
  queue = refl;
  head = refl;
  tail = refl;
  pending = refl;
}
settle-SameRing m (err e) = record {
  queue_depth = refl;
  queue = refl;
  head = refl;
  tail = refl;
  pending = refl;
}

settle-inflight : (m : Mgr) (rc : Status) → (settle m rc).inflight ≡ m.inflight - 1
unfolding settle
settle-inflight m ok = refl
settle-inflight m (err e) = refl

settle-books :
    (m : Mgr) (rc : Status) (f : ℕ)
    → (m.completed + m.failed) % 2 ^ 64 ≡ f % 2 ^ 64
    → ((settle m rc).completed + (settle m rc).failed) % 2 ^ 64 ≡ suc f % 2 ^ 64
unfolding settle
settle-books m ok f e = omega arith
settle-books m (err x) f e = omega arith

worker_finish_lem :
    (m : Mgr) (reqs : List Request) (r : ℕ) (rc : Status) (request : Request) (m' : Mgr)
    (reqs' : List Request)
    → get_elem? reqs r ≡ some request
    → worker_finish m reqs r rc ≡ some (m', reqs')
    → (m' ≡ settle m rc) × (reqs' ≡ set reqs r (record request { status = rc; done = true }))
unfolding worker_finish
worker_finish_lem m reqs r rc request m' reqs' there e = ground arith

-- The second critical section settles the request that the worker holds.
pub finish-Inv :
    (s : System) (r : ℕ) (rc : Status) (m : Mgr) (reqs : List Request) (k f : ℕ)
    → s.worker ≡ executed r rc
    → Inv s k f
    → worker_finish s.mgr s.reqs r rc ≡ some (m, reqs)
    → Inv (record s { mgr = m; reqs = reqs; worker = idle }) k (suc f)
finish-Inv s r rc m reqs k f w inv e = record {
  ring =
      rw (fin.0, len)
        (SameRing-Ring s.mgr (settle s.mgr rc) k n (settle-SameRing s.mgr rc) inv.ring);
  busy = ground (arith, fin.0, held, settle-inflight s.mgr rc);
  settled = rw fin.1 (
      Settled-set s.reqs r f (suc f) (record request { status = rc; done = true }) inside
        inv.settled (ground (arith, held)) (λ j ne. ground (arith, held)));
  books = rw fin.0 (settle-books s.mgr rc f inv.books);
}
  where
    n : ℕ
    n = length s.reqs

    held : (f ≡ r) × (suc r ≡ k) × (s.mgr.inflight ≡ 1)
    held = Busy-executed s.worker r rc k f s.mgr.inflight w inv.busy

    inside : r < n
    inside = omega (arith, inv.ring.counted, held)

    request : Request
    request = (get_elem?-lt s.reqs r inside).0

    there : get_elem? s.reqs r ≡ some request
    there = (get_elem?-lt s.reqs r inside).1

    fin :
        (m ≡ settle s.mgr rc) × (reqs ≡ set s.reqs r (record request { status = rc; done = true }))
    fin = worker_finish_lem s.mgr s.reqs r rc request m reqs there e

    len : length reqs ≡ n
    len = ap length fin.1 ∙ length-set s.reqs r _
