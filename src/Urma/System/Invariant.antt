-- ===== src/Urma/System/Invariant.antt =====
-- Every interleaving keeps the queue in order and the books straight.
use ddr_direct_storage.Base.{
  ℕ, suc, ◌+◌, ◌%◌, ◌^◌, ◌≤◌, ◌<◌, ◌≡◌, sym, ◌∙◌, inl, inr, some, [], ◌∷◌, ◌++◌, arith, ltb,
  get_elem?, length, length-append, get_elem?-snoc,
}
use ddr_direct_storage.Urma.State.{Mgr, Request, Transfer}
use ddr_direct_storage.Urma.Queue.{enqueue, new_request}
use ddr_direct_storage.Urma.Queue.Ring.{Ring, enqueue-Ring}
use ddr_direct_storage.Urma.System.{System, Worker, idle, running, executed, stopped}

-- The worker has settled the requests below `f`, has taken those below `k`, and counts as in flight
-- the one between, if there is one.
abbrev pub Busy : Worker → ℕ → ℕ → ℕ → Type 0
Busy idle k f inflight = (f ≡ k) × (inflight ≡ 0)
Busy stopped k f inflight = (f ≡ k) × (inflight ≡ 0)
Busy (running r rc slot) k f inflight = (f ≡ r) × (suc r ≡ k) × (inflight ≡ 1)
Busy (executed r rc) k f inflight = (f ≡ r) × (suc r ≡ k) × (inflight ≡ 1)

-- The requests are settled in the order of their acceptance, each once: those below `f` are done,
-- the others are not, `completed` and `failed` count `f` together, and the ring holds those from
-- `k` on.
pub record Inv (s : System) (k f : ℕ) : Type 0 where
  pub ring : Ring s.mgr k (length s.reqs)
  pub busy : Busy s.worker k f s.mgr.inflight
  pub settled : (r : ℕ) (q : Request) → get_elem? s.reqs r ≡ some q → q.done ≡ ltb r f
  pub books : (s.mgr.completed + s.mgr.failed) % 2 ^ 64 ≡ f % 2 ^ 64

-- The two managers have the same ring.
pub record SameRing (m m' : Mgr) : Type 0 where
  pub queue_depth : m'.queue_depth ≡ m.queue_depth
  pub queue : m'.queue ≡ m.queue
  pub head : m'.head ≡ m.head
  pub tail : m'.tail ≡ m.tail
  pub pending : m'.pending ≡ m.pending

-- And the same counters.
pub record SameQueue (m m' : Mgr) : Type 0 where
  pub ring : SameRing m m'
  pub inflight : m'.inflight ≡ m.inflight
  pub completed : m'.completed ≡ m.completed
  pub failed : m'.failed ≡ m.failed

pub SameRing-Ring : (m m' : Mgr) (k n : ℕ) → SameRing m m' → Ring m k n → Ring m' k n
SameRing-Ring m m' k n same ring = record {
  some_room = omega (arith, same, ring);
  limited = omega (arith, same, ring);
  sized = ground (arith, same, ring);
  head_in = omega (arith, same, ring);
  bounded = omega (arith, same, ring);
  tail_at = ground (arith, same, ring);
  counted = omega (arith, same, ring);
  entries = λ i h. ground (arith, same, ring.entries i (omega arith));
}

pub f_le_k : (w : Worker) (k f i : ℕ) → Busy w k f i → f ≤ k
f_le_k idle k f i h = omega arith
f_le_k stopped k f i h = omega arith
f_le_k (running r rc slot) k f i h = omega arith
f_le_k (executed r rc) k f i h = omega arith

-- What leaves the queue, the counters, the requests and the worker's place alone keeps the invariant.
pub SameQueue-Inv :
    (s s' : System) (k f : ℕ)
    → SameQueue s.mgr s'.mgr
    → s'.reqs ≡ s.reqs
    → Busy s'.worker k f s.mgr.inflight
    → Inv s k f
    → Inv s' k f
SameQueue-Inv s s' k f same reqs busy inv = record {
  ring = rw reqs (SameRing-Ring s.mgr s'.mgr k (length s.reqs) same.ring inv.ring);
  busy = rw same.inflight busy;
  settled = λ r q e. inv.settled r q (rw (← reqs) e);
  books = rw (same.completed, same.failed) inv.books;
}

-- Accepting a request.
pub accept-Inv :
    (s : System) (x : Transfer) (k f : ℕ)
    → s.mgr.pending < s.mgr.queue_depth
    → Inv s k f
    → Inv
        (record s { mgr = enqueue s.mgr (length s.reqs); reqs = s.reqs ++ new_request x ∷ [] })
        k
        f
unfolding enqueue
accept-Inv s x k f room inv = record {
  ring = rw longer (enqueue-Ring s.mgr k n inv.ring room);
  busy = inv.busy;
  settled = λ r q e. elim (get_elem?-snoc s.reqs (new_request x) r) [
    | inl p ↦ ground (arith, ordered, p)
    | inr p ↦ inv.settled r q (sym p.1 ∙ e)
  ];
  books = inv.books;
}
  where
    n : ℕ
    n = length s.reqs

    longer : length (s.reqs ++ new_request x ∷ []) ≡ suc n
    longer = omega (arith, length-append s.reqs (new_request x ∷ []))

    ordered : f ≤ n
    ordered = omega (arith, f_le_k s.worker k f s.mgr.inflight inv.busy, inv.ring.counted)
