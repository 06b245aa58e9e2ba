-- ===== src/Urma/System/Order.antt =====
-- Every interleaving of the manager's operations with its worker keeps the queue in order.
use ddr_direct_storage.Base.{
  ℕ, suc, ◌≤◌, ◌<◌, ◌≡◌, refl, sym, subst, ◌⊎◌, inl, inr, Option, none, some, List, [], ◌∷◌, ◌++◌,
  arith, ◌==◌, if◌then◌else◌, get_elem?, Status, ok, err, length, Bool-cases, Option-cases,
}
use ddr_direct_storage.Backend.{Backend, ramdisk_backend_write}
use ddr_direct_storage.Urma.State.{Mgr, Request, Transfer, Peer}
use ddr_direct_storage.Urma.Transfer.{
  validate_xfer_locked, ramdisk_urma_mock_write_peer, execute_mock_xfer, execute_real_xfer,
}
use ddr_direct_storage.Urma.Queue.{enqueue, new_request, submit_locked, worker_take, worker_finish}
use ddr_direct_storage.Urma.System.{
  System, Worker, Event, idle, running, executed, stopped, submit, take, exec, finish, stop,
  connect, disconnect, enable, disable, write_peer, write_backend, take_step, exec_step,
  finish_step, worker_step, step, run,
}
use ddr_direct_storage.Urma.System.Invariant.{Inv, Busy, SameQueue, SameQueue-Inv, accept-Inv}
use ddr_direct_storage.Urma.System.WorkerSteps.{take-Inv, finish-Inv}
use ddr_direct_storage.Urma.System.SameQueue.{
  same, same_but_peers, stopping_flag, connect-SameQueue, disconnect-SameQueue, enable-SameQueue,
  disable-SameQueue, write_peer-SameQueue,
}

-- A submission is refused with nothing changed, or valid and accepted while there is room.
pub submit_cases :
    (m : Mgr) (b : Backend) (reqs : List Request) (xfer : Transfer)
    → ((submit_locked m b reqs (some xfer)).1 ≡ m) × ((submit_locked m b reqs (some xfer)).2 ≡ reqs)
      ⊎ ((m.pending < m.queue_depth)
          × ((validate_xfer_locked m b xfer).0 ≡ ok)
          × (submit_locked m b reqs (some xfer)
              ≡ (ok, enqueue m (length reqs), reqs ++ new_request xfer ∷ [])))
unfolding submit_locked
submit_cases m b reqs xfer = ground arith

-- What a step keeps: the invariant, with no request forgotten or taken back.
pub record Keeps (k f : ℕ) (s : System) : Type 0 where
  pub taken : ℕ
  pub settled : ℕ
  pub inv : Inv s taken settled
  pub onward : (k ≤ taken) × (f ≤ settled)

keep : (k f : ℕ) (s : System) → Inv s k f → Keeps k f s
keep k f s inv = record { taken = k; settled = f; inv = inv; onward = omega arith }

-- A step whose result is known.
known :
    (k f : ℕ) (o : Option System) (s s' : System)
    → o ≡ some s
    → Keeps k f s
    → o ≡ some s'
    → Keeps k f s'
known k f o s s' p h e = let q : s ≡ s' = cc in subst (Keeps k f) q h

-- The transfer changes the backend and the peer table.
exec_cases :
    (s s' : System) (r slot : ℕ)
    → exec_step s r ok slot ≡ some s'
    → (b : Backend) × (ps : List Peer) × (rc : Status) × (s'
        ≡ record s { backend = b; mgr = record (s.mgr) { peers = ps }; worker = executed r rc })
unfolding exec_step execute_real_xfer
exec_cases s s' r slot e = elim (Option-cases (get_elem? s.reqs r)) [
  | inl lost ↦ absurd (ground arith)
  | inr (req, there) ↦ elim (Option-cases (outcome req)) [
    | inl faulty ↦ absurd (ground arith)
    | inr ((rc, b, ps), done) ↦ (b, ps, rc, ground arith)
  ]
]
  where
    outcome : Request → Option (Status × Backend × List Peer)
    outcome req =
        if s.mgr.use_mock
        then execute_mock_xfer 0 s.backend s.mgr.peers req.xfer slot
        else execute_real_xfer s.backend s.mgr.peers

module _ (s : System) (k f : ℕ) (inv : Inv s k f) where
  -- Nothing but the peer table or the flags may change.
  with_mgr : (m : Mgr) → SameQueue s.mgr m → Keeps k f (record s { mgr = m })
  with_mgr m q =
      keep k f (record s { mgr = m })
        (SameQueue-Inv s (record s { mgr = m }) k f q refl inv.busy inv)

  submit-Keeps :
      (x : Transfer)
      → Keeps k f (record s {
        mgr = (submit_locked s.mgr s.backend s.reqs (some x)).1;
        reqs = (submit_locked s.mgr s.backend s.reqs (some x)).2;
      })
  submit-Keeps x = elim (submit_cases s.mgr s.backend s.reqs x) [
    | inl (p, q) ↦ rw (p, q) (keep k f s inv)
    | inr (room, valid, e) ↦ rw e (keep k f _ (accept-Inv s x k f room inv))
  ]

  take-Keeps : (s' : System) → s.worker ≡ idle → take_step s ≡ some s' → Keeps k f s'
  unfolding take_step
  take-Keeps s' w e = elim (Bool-cases (s.mgr.pending == 0)) [
    | inl empty ↦ elim (Bool-cases s.mgr.stopping) [
      | inl ending ↦
          known k f (take_step s) (record s { worker = stopped }) s' (ground arith)
            (keep k f _ (SameQueue-Inv s _ k f (same s.mgr) refl (free w) inv)) e
      | inr going ↦ known k f (take_step s) s s' (ground arith) (keep k f s inv) e
    ]
    | inr some_left ↦ elim (Option-cases (worker_take s.mgr s.backend s.reqs)) [
      | inl faulty ↦ ground arith
      | inr (t, taken) ↦
          known k f (take_step s)
            (record s { mgr = t.mgr; reqs = t.reqs; worker = running t.req t.rc t.slot }) s'
            (ground arith)
            (record {
              taken = suc k;
              settled = f;
              inv = take-Inv s t k f w (ground arith) inv taken;
              onward = omega arith;
            })
            e
    ]
  ]
    where
      free : s.worker ≡ idle → Busy stopped k f s.mgr.inflight
      free q = rw q at inv.busy

  exec-Keeps :
      (s' : System) (r : ℕ) (rc : Status) (slot : ℕ)
      → s.worker ≡ running r rc slot
      → exec_step s r rc slot ≡ some s'
      → Keeps k f s'
  unfolding exec_step execute_real_xfer
  exec-Keeps s' r (err x) slot w e =
      known k f (exec_step s r (err x) slot) _ s' refl
        (keep k f _ (SameQueue-Inv s _ k f (same s.mgr) refl (rw w at inv.busy) inv)) e
  exec-Keeps s' r ok slot w e =
      let (b, ps, rc, q) = exec_cases s s' r slot e in
      subst (Keeps k f) (sym q)
        (keep k f _ (SameQueue-Inv s _ k f (same_but_peers s.mgr ps) refl (rw w at inv.busy) inv))

  finish-Keeps :
      (s' : System) (r : ℕ) (rc : Status)
      → s.worker ≡ executed r rc
      → finish_step s r rc ≡ some s'
      → Keeps k f s'
  unfolding finish_step
  finish-Keeps s' r rc w e = elim (Option-cases (worker_finish s.mgr s.reqs r rc)) [
    | inl faulty ↦ ground arith
    | inr ((m, reqs), done) ↦
        known k f (finish_step s r rc) (record s { mgr = m; reqs = reqs; worker = idle }) s'
          (ground arith)
          (record {
            taken = k;
            settled = suc f;
            inv = finish-Inv s r rc m reqs k f w inv done;
            onward = omega arith;
          })
          e
  ]

  worker-Keeps :
      (e : Event) (s' : System) (w : Worker)
      → s.worker ≡ w
      → worker_step e s w ≡ some s'
      → Keeps k f s'
  unfolding worker_step
  worker-Keeps take s' idle w e = take-Keeps s' w e
  worker-Keeps exec s' (running r rc slot) w e = exec-Keeps s' r rc slot w e
  worker-Keeps finish s' (executed r rc) w e = finish-Keeps s' r rc w e
  worker-Keeps e s' w p q = known k f (some s) s s' refl (keep k f s inv) q

  step-Keeps : (e : Event) (s' : System) → step e s ≡ some s' → Keeps k f s'
  unfolding step submit_locked
  step-Keeps (submit none) s' e = known k f (step (submit none) s) s s' refl (keep k f s inv) e
  step-Keeps (submit (some x)) s' e =
      known k f (step (submit (some x)) s) _ s' refl (submit-Keeps x) e
  step-Keeps take s' e = worker-Keeps take s' s.worker refl e
  step-Keeps exec s' e = worker-Keeps exec s' s.worker refl e
  step-Keeps finish s' e = worker-Keeps finish s' s.worker refl e
  step-Keeps stop s' e = known k f (step stop s) _ s' refl (with_mgr _ (stopping_flag s.mgr)) e
  step-Keeps (connect got info) s' e =
      known k f (step (connect got info) s) _ s' refl
        (with_mgr _ (connect-SameQueue got s.mgr info)) e
  step-Keeps (disconnect id) s' e =
      known k f (step (disconnect id) s) _ s' refl (with_mgr _ (disconnect-SameQueue s.mgr id)) e
  step-Keeps enable s' e =
      known k f (step enable s) _ s' refl (with_mgr _ (enable-SameQueue s.mgr)) e
  step-Keeps disable s' e =
      known k f (step disable s) _ s' refl (with_mgr _ (disable-SameQueue s.mgr)) e
  step-Keeps (write_peer id addr buf len) s' e =
      elim (Option-cases (ramdisk_urma_mock_write_peer s.mgr id addr buf len)) [
        | inl faulty ↦ absurd (ground arith)
        | inr ((rc, m), done) ↦
            known k f (step (write_peer id addr buf len) s) (record s { mgr = m }) s' (ground arith)
              (with_mgr m (write_peer-SameQueue s.mgr m id addr len buf rc done)) e
      ]
  step-Keeps (write_backend offset buf len) s' e =
      elim (Option-cases (ramdisk_backend_write 0 s.backend offset buf len)) [
        | inl faulty ↦ absurd (ground arith)
        | inr ((rc, b), done) ↦
            known k f (step (write_backend offset buf len) s) (record s { backend = b }) s'
              (ground arith) (keep k f _ (SameQueue-Inv s _ k f (same s.mgr) refl inv.busy inv)) e
      ]

-- Whatever the order in which callers and the worker enter their critical sections, as long as
-- nothing undefined happens.
pub run-Keeps :
    (es : List Event) (s s' : System) (k f : ℕ) → Inv s k f → run es s ≡ some s' → Keeps k f s'
unfolding run
run-Keeps [] s s' k f inv e = known k f (some s) s s' refl (keep k f s inv) e
run-Keeps (ev ∷ es) s s' k f inv e = elim (Option-cases (step ev s)) [
  | inl faulty ↦ absurd (ground arith)
  | inr (t, stepped) ↦
      let one = step-Keeps s k f inv ev t stepped in
      let rest = run-Keeps es t s' one.taken one.settled one.inv (ground arith) in
      record {
        taken = rest.taken;
        settled = rest.settled;
        inv = rest.inv;
        onward = omega (arith, one.onward, rest.onward);
      }
]
