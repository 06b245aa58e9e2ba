-- ===== src/KernelUrma/DirectIo/Submission.antt =====
-- Accepting and refusing direct IO.
use ddr_direct_storage.Base.{
  ℕ, ◌+◌, ◌-◌, ◌<◌, ◌≡◌, refl, ap, ◌⊎◌, inl, inr, Bool, true, false, Option, none, some, List, [],
  ◌∷◌, ◌++◌, arith, Status, ok, err, length-append, append_assoc, Bool-cases, leb,
}
use ddr_direct_storage.Base.Errno.{eshutdown, ebusy, einval, enodev, enomem}
use mathlib.Core.List.{map-append}
use ddr_direct_storage.KernelUrma.Device.{IoPeer, Io, IoReq, Device}
use ddr_direct_storage.KernelUrma.Mapping.{Mapping, Mapped, mapped, refused}
use ddr_direct_storage.KernelUrma.DirectIo.{
  check_submit, new_io_req, enqueue_locked, urma_blkdev_submit_nvmet_io,
}
use ddr_direct_storage.KernelUrma.DirectIo.Order.{priv_of, Queued-append, Orderly}

-- The cookies accepted after a submission that answered `s`.
abbrev pub accepted_after : Status → List ℕ → ℕ → List ℕ
accepted_after ok accepted priv = accepted ++ priv ∷ []
accepted_after (err e) accepted priv = accepted

-- Adding a request at the end, with its reference on the module.
accept-Orderly :
    (dev : Device) (req : IoReq) (accepted : List ℕ) (n : ℕ)
    → req.done ≡ true
    → req.ref ≡ 1
    → dev.pending + dev.inflight < dev.queue_depth
    → Orderly dev accepted n
    → Orderly
        (record dev {
          pending_list = dev.pending_list ++ req ∷ [];
          pending = dev.pending + 1;
          module_refs = dev.module_refs + 1;
        })
        (accepted ++ req.priv ∷ [])
        n
accept-Orderly dev req accepted n d f room o =
    let longer = length-append dev.pending_list (req ∷ []) in
    record {
      all_there =
          rw (map-append priv_of dev.pending_list (req ∷ []), ← append_assoc)
            (ap (λ l. l ++ req.priv ∷ []) o.all_there);
      none_inflight = o.none_inflight;
      counted = omega (arith, o.counted, longer);
      within = omega arith;
      some_room = o.some_room;
      queued = Queued-append dev.pending_list req o.queued d f;
      refs = omega (arith, o.refs, longer);
    }

counted_back : (dev : Device) → record dev { module_refs = dev.module_refs + 1 - 1 } ≡ dev
counted_back dev = ground arith

Mapped-cases : (r : Mapped) → ((e : ℕ) × (r ≡ refused e)) ⊎ ((m : Mapping) × (r ≡ mapped m))
Mapped-cases (mapped m) = inr (m, refl)
Mapped-cases (refused e) = inl (e, refl)

-- The two outcomes of the critical section, with the reference taken before it.
enqueue_outcome :
    (dev : Device) (req : IoReq)
    → req.ref ≡ 1
    → ((e : ℕ) × (enqueue_locked (record dev { module_refs = dev.module_refs + 1 }) req
          ≡ (err e, dev)))
      ⊎ ((dev.pending + dev.inflight < dev.queue_depth)
          × (enqueue_locked (record dev { module_refs = dev.module_refs + 1 }) req ≡ (
            ok,
            record dev {
              pending_list = dev.pending_list ++ req ∷ [];
              pending = dev.pending + 1;
              module_refs = dev.module_refs + 1;
            },
          )))
unfolding enqueue_locked
enqueue_outcome dev req f = elim (Bool-cases dev.stopping) [
  | inl ending ↦ inl (eshutdown, ground (arith, counted_back dev))
  | inr going ↦ elim (Bool-cases (leb dev.queue_depth (dev.pending + dev.inflight))) [
    | inl full ↦ inl (ebusy, ground (arith, counted_back dev))
    | inr room ↦ inr (ground arith, ground arith)
  ]
]

-- The two outcomes of a submission whose pointers are set.
pub submit_outcome :
    (block_size : ℕ) (bdev module_ok alloc_ok : Bool) (seen dev : Device) (peer : IoPeer) (io : Io)
    (done : Bool) (priv : ℕ)
    → let result =
        urma_blkdev_submit_nvmet_io block_size bdev module_ok alloc_ok seen dev
          (some peer)
          (some io)
          done
          priv in
      ((e : ℕ) × (result ≡ (err e, dev)))
      ⊎ ((m : Mapping) × (dev.pending + dev.inflight < dev.queue_depth)
          × (result ≡ (
            ok,
            record dev {
              pending_list = dev.pending_list ++ new_io_req peer io m priv ∷ [];
              pending = dev.pending + 1;
              module_refs = dev.module_refs + 1;
            },
          )))
unfolding urma_blkdev_submit_nvmet_io
submit_outcome block_size bdev module_ok alloc_ok seen dev peer io false priv = inl (einval, refl)
submit_outcome block_size false module_ok alloc_ok seen dev peer io true priv = inl (enodev, refl)
submit_outcome block_size true module_ok false seen dev peer io true priv =
    elim (Mapped-cases (check_submit block_size seen peer io module_ok)) [
      | inl (e, q) ↦ inl (e, rw q)
      | inr (m, q) ↦ inl (enomem, rw q)
    ]
submit_outcome block_size true module_ok true seen dev peer io true priv =
    elim (Mapped-cases (check_submit block_size seen peer io module_ok)) [
      | inl (e, q) ↦ inl (e, rw q)
      | inr (m, q) ↦ elim (enqueue_outcome dev (new_io_req peer io m priv) refl) [
        | inl (e, r) ↦ inl (e, rw q r)
        | inr (room, r) ↦ inr (m, room, rw q r)
      ]
    ]

-- Whatever the caller saw of the device before it took the lock, a submission that is refused
-- changes nothing, and one that is accepted goes to the end of the queue, within the depth; either
-- way the queue stays in order and the module's references right.
pub submit-Orderly :
    (block_size : ℕ) (bdev module_ok alloc_ok : Bool) (seen dev : Device) (peer : Option IoPeer)
    (io : Option Io) (done : Bool) (priv : ℕ) (accepted : List ℕ) (n : ℕ)
    → Orderly dev accepted n
    → let (s, after) =
        urma_blkdev_submit_nvmet_io block_size bdev module_ok alloc_ok seen dev peer io done priv in
      Orderly after (accepted_after s accepted priv) n
unfolding urma_blkdev_submit_nvmet_io
submit-Orderly block_size bdev module_ok alloc_ok seen dev none io done priv accepted n o = o
submit-Orderly block_size bdev module_ok alloc_ok seen dev (some peer) none done priv accepted n o =
    o
submit-Orderly block_size bdev module_ok alloc_ok seen dev (some peer) (some io) done priv accepted
      n o =
    elim (submit_outcome block_size bdev module_ok alloc_ok seen dev peer io done priv) [
      | inl (e, r) ↦ rw r o
      | inr (m, room, r) ↦
          rw r (accept-Orderly dev (new_io_req peer io m priv) accepted n refl refl room o)
    ]
