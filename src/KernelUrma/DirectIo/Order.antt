-- ===== src/KernelUrma/DirectIo/Order.antt =====
-- Direct IO is completed once and in the order of its acceptance.
use ddr_direct_storage.Base.{
  ℕ, zero, suc, ◌+◌, ◌-◌, ◌%◌, ◌^◌, ◌≤◌, ◌<◌, ◌≡◌, refl, sym, ap, ◌∙◌, ◌⊎◌, inl, inr, true, false,
  List, [], ◌∷◌, ◌++◌, map, arith, if◌then◌else◌, Status, err, length, Bool-cases, List-cases,
  append_assoc, append-nil, ltb, not, ◌&&◌, ◌==◌, ◌||◌,
}
use ddr_direct_storage.Base.Errno.{einval, eopnotsupp}
use mathlib.Core.List.{map-append}
use ddr_direct_storage.KernelUrma.Device.{IoReq, Device}
use ddr_direct_storage.KernelUrma.DirectIo.{
  post_popped, urma_blkdev_pop_pending, urma_blkdev_submit_workfn,
}

abbrev pub priv_of : IoReq → ℕ
priv_of r = r.priv

abbrev pub completed_priv : ℕ × Status → ℕ
completed_priv (p, s) = p

-- A request as the queue holds it: it has its callback, and one reference.
abbrev pub Queued : List IoReq → Type 0
Queued [] = Unit {0}
Queued (r ∷ rs) = (r.done ≡ true) × (r.ref ≡ 1) × Queued rs

-- The accepted cookies, in order, are those completed and then those pending; nothing stays in
-- flight between two sections; the counter is right and within the depth; and every pending request
-- holds a reference on the module.
pub record Orderly (dev : Device) (accepted : List ℕ) (others : ℕ) : Type 0 where
  pub all_there : map completed_priv dev.completions ++ map priv_of dev.pending_list ≡ accepted
  pub none_inflight : (dev.inflight_reqs ≡ []) × (dev.inflight ≡ 0)
  pub counted : dev.pending ≡ length dev.pending_list
  pub within : dev.pending ≤ dev.queue_depth
  pub some_room : 0 < dev.queue_depth
  pub queued : Queued dev.pending_list
  pub refs : dev.module_refs ≡ others + length dev.pending_list

pub Queued-append :
    (rs : List IoReq) (r : IoReq) → Queued rs → r.done ≡ true → r.ref ≡ 1 → Queued (rs ++ r ∷ [])
Queued-append [] r q d f = (d, f, tt)
Queued-append (x ∷ rs) r q d f = (q.0, q.1, Queued-append rs r q.2 d f)

-- The error that a popped request is completed with.
abbrev pub post_error : (ℕ → ℕ) → Device → IoReq → ℕ
post_error xa_rc dev req =
    let id = (dev.next_wr_id + 1) % 2 ^ 64 in
    if not (xa_rc id == 0)
    then xa_rc id
    else if not dev.seg || not req.peer.jetty
    then einval
    else eopnotsupp

-- Handling a popped request calls its callback with that error, and leaves nothing in flight.
post_popped_lem :
    (xa_rc : ℕ → ℕ) (dev : Device) (req : IoReq)
    → req.done ≡ true
    → req.ref ≡ 1
    → dev.inflight_reqs ≡ []
    → post_popped xa_rc dev req ≡ record dev {
      next_wr_id = (dev.next_wr_id + 1) % 2 ^ 64;
      completions = dev.completions ++ (req.priv, err (post_error xa_rc dev req)) ∷ [];
      module_refs = dev.module_refs - 1;
    }
unfolding post_popped
post_popped_lem xa_rc dev req d f none_yet = ground arith

-- One round of the work function.
abbrev popped : (ℕ → ℕ) → Device → IoReq → List IoReq → Device
popped xa_rc dev req rest =
    post_popped xa_rc (record dev { pending_list = rest; pending = dev.pending - 1 }) req

popped-Orderly :
    (xa_rc : ℕ → ℕ) (dev : Device) (req : IoReq) (rest : List IoReq) (accepted : List ℕ) (n : ℕ)
    → dev.pending_list ≡ req ∷ rest
    → Orderly dev accepted n
    → Orderly (popped xa_rc dev req rest) accepted n
popped-Orderly xa_rc dev req rest accepted n e o =
    let q : Queued (req ∷ rest) = rw e at o.queued in
    let size : length dev.pending_list ≡ suc (length rest) = ap length e in
    let old : map completed_priv dev.completions ++ req.priv ∷ map priv_of rest ≡ accepted =
      rw e at o.all_there in
    let log =
      map-append completed_priv dev.completions ((req.priv, err (post_error xa_rc dev req)) ∷ []) in
    rw
      (post_popped_lem xa_rc (record dev { pending_list = rest; pending = dev.pending - 1 }) req q.0
        q.1 o.none_inflight.0)
      (record {
        all_there = rw log (append_assoc _ (req.priv ∷ []) (map priv_of rest) ∙ old);
        none_inflight = o.none_inflight;
        counted = omega (arith, o.counted, size);
        within = omega (arith, o.within);
        some_room = o.some_room;
        queued = q.2;
        refs = omega (arith, o.refs, size);
      })

nothing_left :
    (dev : Device) (accepted : List ℕ) (n : ℕ)
    → Orderly dev accepted n
    → dev.pending_list ≡ []
    → (map completed_priv dev.completions ≡ accepted)
      × (dev.pending_list ≡ [])
      × (dev.pending ≡ 0)
      × (dev.module_refs ≡ n)
nothing_left dev accepted n o e =
    let old : map completed_priv dev.completions ++ [] ≡ accepted = rw e at o.all_there in
    (
      sym (append-nil _) ∙ old,
      e,
      omega (arith, o.counted, ap length e),
      omega (arith, o.refs, ap length e),
    )

-- A round ends the loop, with nothing left to do or no right to do it, or handles the first request.
workfn_round :
    (fuel : ℕ) (xa_rc : ℕ → ℕ) (dev : Device)
    → ((urma_blkdev_submit_workfn (suc fuel) xa_rc dev ≡ dev)
        × ((dev.stopping ≡ true) ⊎ (dev.queue_depth ≤ dev.inflight) ⊎ (dev.pending_list ≡ [])))
      ⊎ ((req : IoReq) × (rest : List IoReq) × (dev.pending_list ≡ req ∷ rest)
          × (urma_blkdev_submit_workfn (suc fuel) xa_rc dev
              ≡ urma_blkdev_submit_workfn fuel xa_rc (popped xa_rc dev req rest)))
unfolding urma_blkdev_submit_workfn urma_blkdev_pop_pending
workfn_round fuel xa_rc dev =
    elim (Bool-cases (not dev.stopping && ltb dev.inflight dev.queue_depth)) [
      | inl may ↦ elim (List-cases dev.pending_list) [
        | inl e ↦ inl (ground arith, inr (inr e))
        | inr (req, rest, e) ↦ inr (req, rest, e, ground arith)
      ]
      | inr not ↦ inl (ground arith, ground arith)
    ]

-- Any number of rounds keeps the order.
pub workfn-Orderly :
    (fuel : ℕ) (xa_rc : ℕ → ℕ) (dev : Device) (accepted : List ℕ) (n : ℕ)
    → Orderly dev accepted n
    → Orderly (urma_blkdev_submit_workfn fuel xa_rc dev) accepted n
unfolding urma_blkdev_submit_workfn
workfn-Orderly zero xa_rc dev accepted n o = o
workfn-Orderly (suc fuel) xa_rc dev accepted n o = elim (workfn_round fuel xa_rc dev) [
  | inl (ends, why) ↦ rw ends o
  | inr (req, rest, e, goes) ↦ rw goes (
      workfn-Orderly fuel xa_rc (popped xa_rc dev req rest) accepted n
        (popped-Orderly xa_rc dev req rest accepted n e o))
]

popped_fields :
    (xa_rc : ℕ → ℕ) (dev : Device) (req : IoReq) (rest : List IoReq) (accepted : List ℕ) (n : ℕ)
    → dev.pending_list ≡ req ∷ rest
    → Orderly dev accepted n
    → ((popped xa_rc dev req rest).pending_list ≡ rest)
      × ((popped xa_rc dev req rest).stopping ≡ dev.stopping)
popped_fields xa_rc dev req rest accepted n e o =
    let q : Queued (req ∷ rest) = rw e at o.queued in
    rw
      (post_popped_lem xa_rc (record dev { pending_list = rest; pending = dev.pending - 1 }) req q.0
        q.1 o.none_inflight.0)
      (refl, refl)

-- With as many rounds as requests and one more, the work function of a running device completes
-- every accepted request, each once and in the order of acceptance, and frees all their references.
pub workfn_drains :
    (fuel : ℕ) (xa_rc : ℕ → ℕ) (dev : Device) (accepted : List ℕ) (n : ℕ)
    → Orderly dev accepted n
    → dev.stopping ≡ false
    → length dev.pending_list < fuel
    → let after = urma_blkdev_submit_workfn fuel xa_rc dev in
      (map completed_priv after.completions ≡ accepted)
      × (after.pending_list ≡ [])
      × (after.pending ≡ 0)
      × (after.module_refs ≡ n)
workfn_drains zero xa_rc dev accepted n o running enough = elim enough [ ]
workfn_drains (suc fuel) xa_rc dev accepted n o running enough =
    elim (workfn_round fuel xa_rc dev) [
      | inl (ends, why) ↦
          rw ends (nothing_left dev accepted n o (ground (arith, o.none_inflight, o.some_room)))
      | inr (req, rest, e, goes) ↦
          let fields = popped_fields xa_rc dev req rest accepted n e o in
          rw goes (
            workfn_drains fuel xa_rc (popped xa_rc dev req rest) accepted n
              (popped-Orderly xa_rc dev req rest accepted n e o) (fields.1 ∙ running)
              (omega (arith, ap length fields.0, ap length e)))
    ]
