-- ===== src/Urma/System/Waiting.antt =====
-- What a caller of `ramdisk_urma_transfer_sync` waits for.
use ddr_direct_storage.Base.{
  ℕ, ◌≤◌, ◌≡◌, refl, sym, ap, ◌∙◌, ◌⊎◌, inl, inr, true, false, ◌||◌, none, some, List, [], ◌∷◌,
  ◌++◌, ◌==◌, arith, ltb, get_elem?, length, ok, Option-cases, Bool-cases, append-nil, Option, Bool,
  subst,
}
use ddr_direct_storage.Base.Errno.{etimedout}
use ddr_direct_storage.Backend.{Backend}
use ddr_direct_storage.Urma.State.{Mgr, Transfer, Request, UrmaConfig}
use ddr_direct_storage.Urma.Queue.{submit_locked}
use ddr_direct_storage.Urma.Manager.{ramdisk_urma_mgr_init}
use ddr_direct_storage.Urma.System.{System, Event, submit, step, run}
use ddr_direct_storage.Urma.System.Sync.{
  Round, Waited, returned, waiting, wait_loop, ramdisk_urma_transfer_sync,
}
use ddr_direct_storage.Urma.System.History.{boot, history_in_order}

-- The wait returns nothing but 0 and ETIMEDOUT.
abbrev pub Calm : List Round → Type 0
Calm [] = Unit {0}
Calm ((others, rc) ∷ rounds) = ((rc ≡ 0) ⊎ (rc ≡ etimedout)) × Calm rounds

-- What the other threads do during all the rounds.
abbrev pub events_of : List Round → List Event
events_of [] = []
events_of ((others, rc) ∷ rounds) = others ++ events_of rounds

run-append : (a b : List Event) (s s' : System) → run a s ≡ some s' → run (a ++ b) s ≡ run b s'
unfolding run
run-append [] b s s' e = ground (arith, e)
run-append (x ∷ a) b s s' e = elim (Option-cases (step x s)) [
  | inl n ↦ absurd (ground (arith, e, n))
  | inr (t, n) ↦ ground (arith, n, run-append a b t s' (ground (arith, e, n)))
]

-- The wait ends after the rounds `pre` with the request done, or it has had all rounds and the request
-- is not done.
record Ended (rounds : List Round) (s s' : System) (r : ℕ) (w : Waited) : Type 0 where
  pre : List Round
  post : List Round
  parts : rounds ≡ pre ++ post
  ran : run (events_of pre) s ≡ some s'
  req : Request
  there : get_elem? s'.reqs r ≡ some req
  how :
      ((w ≡ returned req.status) × (req.done ≡ true))
      ⊎ ((w ≡ waiting) × (req.done ≡ false) × (post ≡ []))

calm_rc : (rc : ℕ) → (rc ≡ 0) ⊎ (rc ≡ etimedout) → (rc == etimedout || rc == 0) ≡ true
calm_rc rc (inl e) = ground (arith, e)
calm_rc rc (inr e) = ground (arith, e)

-- The result is `o`, which is known.
same_result :
    (o : Option (Waited × System)) (w w' : Waited) (s s' : System)
    → o ≡ some (w, s)
    → o ≡ some (w', s')
    → (w ≡ w') × (s ≡ s')
same_result o w w' s s' p q = (cc, cc)

done_now :
    (rounds : List Round) (s : System) (r : ℕ) (req : Request)
    → get_elem? s.reqs r ≡ some req
    → req.done ≡ true
    → Ended rounds s s r (returned req.status)
unfolding run
done_now rounds s r req there done = record {
  pre = [];
  post = rounds;
  parts = refl;
  ran = refl;
  req = req;
  there = there;
  how = inl (refl, done);
}

same_end :
    (rounds : List Round) (s t t' : System) (r : ℕ) (w w' : Waited)
    → (w ≡ w') × (t ≡ t')
    → Ended rounds s t r w
    → Ended rounds s t' r w'
same_end rounds s t t' r w w' (p, q) h =
    subst (λ x. Ended rounds s t' r x) p (subst (λ x. Ended rounds s x r w) q h)

-- A round before the others.
one_more :
    (others : List Event) (rc : ℕ) (rounds : List Round) (s t s' : System) (r : ℕ) (w : Waited)
    → run others s ≡ some t
    → Ended rounds t s' r w
    → Ended ((others, rc) ∷ rounds) s s' r w
one_more others rc rounds s t s' r w ran h = record {
  pre = (others, rc) ∷ h.pre;
  post = h.post;
  parts = ap (λ l. (others, rc) ∷ l) h.parts;
  ran = run-append others (events_of h.pre) s t ran ∙ h.ran;
  req = h.req;
  there = h.there;
  how = h.how;
}

wait_loop-Ended :
    (rounds : List Round) (s s' : System) (r : ℕ) (w : Waited)
    → Calm rounds
    → wait_loop rounds s r ≡ some (w, s')
    → Ended rounds s s' r w
unfolding wait_loop run
wait_loop-Ended [] s s' r w calm e = elim (Option-cases (get_elem? s.reqs r)) [
  | inl lost ↦ absurd (ground (arith, e, lost))
  | inr (req, there) ↦ elim (Bool-cases req.done) [
    | inl done ↦
        let now : wait_loop [] s r ≡ some (returned req.status, s) =
          rw (wait_loop, there, done) refl in
        same_end [] s s s' r (returned req.status) w (same_result _ _ w s s' now e)
          (done_now [] s r req there done)
    | inr open_ ↦
        let now : wait_loop [] s r ≡ some (waiting, s) = rw (wait_loop, there, open_) refl in
        same_end [] s s s' r waiting w (same_result _ _ w s s' now e) (record {
          pre = [];
          post = [];
          parts = refl;
          ran = refl;
          req = req;
          there = there;
          how = inr (refl, open_, refl);
        })
  ]
]
wait_loop-Ended ((others, rc) ∷ rounds) s s' r w (c, calm) e =
    elim (Option-cases (get_elem? s.reqs r)) [
      | inl lost ↦ absurd (ground (arith, e, lost))
      | inr (req, there) ↦ elim (Bool-cases req.done) [
        | inl done ↦
            let now : wait_loop ((others, rc) ∷ rounds) s r ≡ some (returned req.status, s) =
              rw (wait_loop, there, done) refl in
            same_end _ s s s' r (returned req.status) w (same_result _ _ w s s' now e)
              (done_now _ s r req there done)
        | inr open_ ↦ elim (Option-cases (run others s)) [
          | inl faulty ↦
              let now : wait_loop ((others, rc) ∷ rounds) s r ≡ none =
                rw (wait_loop, there, open_, faulty) refl in
              let wrong : none ≡ some (w, s') = sym now ∙ e in absurd (ground (arith, wrong))
          | inr (t, ran) ↦
              let now : wait_loop ((others, rc) ∷ rounds) s r ≡ wait_loop rounds t r =
                rw (wait_loop, there, open_, ran, calm_rc rc c) refl in
              one_more others rc rounds s t s' r w ran
                (wait_loop-Ended rounds t s' r w calm (sym now ∙ e))
        ]
      ]
    ]

-- The state in which a request has just been accepted.
abbrev pub accepted : System → Transfer → System
accepted s x = record s {
  mgr = (submit_locked s.mgr s.backend s.reqs (some x)).1;
  reqs = (submit_locked s.mgr s.backend s.reqs (some x)).2;
}

sync_waits :
    (rounds : List Round) (s : System) (x : Transfer)
    → (submit_locked s.mgr s.backend s.reqs (some x)).0 ≡ ok
    → ramdisk_urma_transfer_sync rounds s (some x) ≡ wait_loop rounds (accepted s x) (length s.reqs)
unfolding ramdisk_urma_transfer_sync
sync_waits rounds s x e = rw (ramdisk_urma_transfer_sync, e) refl

-- After any history of a freshly initialised manager, where a call of `ramdisk_urma_transfer_sync` is
-- accepted, the timed wait returns nothing but 0 and ETIMEDOUT, and nothing undefined happens: the call
-- returns only when its request is done, with the status that the worker gave it, and all requests
-- accepted before are then done too; a time-out never ends it, so that it is still waiting after all
-- rounds where its request is not done by then.
pub transfer_sync_lem :
    (got : Bool) (mutex_rc thread_rc : ℕ) (old m : Mgr) (b : Backend) (config : Option UrmaConfig)
    (es : List Event) (s s' : System) (x : Transfer) (rounds : List Round) (w : Waited)
    → ramdisk_urma_mgr_init got mutex_rc thread_rc old b config ≡ (ok, m)
    → run es (boot b m) ≡ some s
    → (submit_locked s.mgr s.backend s.reqs (some x)).0 ≡ ok
    → Calm rounds
    → ramdisk_urma_transfer_sync rounds s (some x) ≡ some (w, s')
    → (req : Request) × (get_elem? s'.reqs (length s.reqs) ≡ some req)
      × (((w ≡ returned req.status)
            × ((i : ℕ) (q : Request)
                → i ≤ length s.reqs
                → get_elem? s'.reqs i ≡ some q
                → q.done ≡ true))
          ⊎ ((w ≡ waiting)
              × (req.done ≡ false)
              × (run (events_of rounds) (accepted s x) ≡ some s')))
unfolding step run
transfer_sync_lem got mutex_rc thread_rc old m b config es s s' x rounds w made ran fits calm e =
    let s1 = accepted s x in
    let r = length s.reqs in
    let h = wait_loop-Ended rounds s1 s' r w calm (sym (sync_waits rounds s x fits) ∙ e) in
    let whole : run (es ++ submit (some x) ∷ events_of h.pre) (boot b m) ≡ some s' =
      run-append es (submit (some x) ∷ events_of h.pre) (boot b m) s ran ∙ h.ran in
    let (f, done, _, _, _, _) =
      history_in_order got mutex_rc thread_rc old m b config
        (es ++ submit (some x) ∷ events_of h.pre) s' made whole in
    (
      h.req,
      h.there,
      elim h.how [
        | inl (back, yes_) ↦
            let before : ltb r f ≡ true = sym (done r h.req h.there) ∙ yes_ in
            inl (back, λ i q le there. done i q there ∙ ground (arith, before, le))
        | inr (still, no_, last) ↦
            let all : rounds ≡ h.pre = h.parts ∙ ap (λ l. h.pre ++ l) last ∙ append-nil h.pre in
            inr (still, no_, ap (λ l. run (events_of l) s1) all ∙ h.ran)
      ],
    )
