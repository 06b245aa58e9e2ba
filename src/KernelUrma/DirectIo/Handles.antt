-- ===== src/KernelUrma/DirectIo/Handles.antt =====
-- Direct IO leaves the device's segment, its UB device and its work queue alone.
use ddr_direct_storage.Base.{
  ℕ, zero, suc, ◌-◌, ◌≡◌, refl, ◌∙◌, inl, inr, Bool, true, Option, none, some, List, [], ◌∷◌, arith,
  Status, err, not, ◌&&◌, ltb, Bool-cases, List-cases, length, map, ◌++◌,
}
use ddr_direct_storage.Base.Errno.{eshutdown}
use ddr_direct_storage.KernelUrma.Device.{IoPeer, Io, IoReq, Device}
use ddr_direct_storage.KernelUrma.DirectIo.{
  urma_blkdev_req_put, urma_blkdev_done_req, urma_blkdev_post_jetty_wr, post_popped,
  urma_blkdev_pop_pending, urma_blkdev_submit_workfn, done_all, urma_blkdev_fail_queued,
  urma_blkdev_submit_nvmet_io, urma_blkdev_cleanup_io_queue, entry_req,
}
use ddr_direct_storage.KernelUrma.DirectIo.Submission.{submit_outcome}
use ddr_direct_storage.KernelUrma.DirectIo.Ending.{Call, submission, work, after_calls, after_call}

abbrev pub Keeps : Device → Device → Type 0
Keeps dev dev' = (dev'.seg ≡ dev.seg) × (dev'.ub_dev ≡ dev.ub_dev) × (dev'.io_wq ≡ dev.io_wq)

then_Keeps : (a b c : Device) → Keeps a b → Keeps b c → Keeps a c
then_Keeps a b c (s, u, w) (s', u', w') = (s' ∙ s, u' ∙ u, w' ∙ w)

done_req-Keeps : (dev : Device) (r : IoReq) (s : Status) → Keeps dev (urma_blkdev_done_req dev r s)
unfolding urma_blkdev_done_req urma_blkdev_req_put
done_req-Keeps dev r s = ground arith

done_all-Keeps : (dev : Device) (rs : List IoReq) (s : Status) → Keeps dev (done_all dev rs s)
unfolding done_all
done_all-Keeps dev [] s = (refl, refl, refl)
done_all-Keeps dev (r ∷ rs) s =
    then_Keeps dev (urma_blkdev_done_req dev r s) (done_all dev (r ∷ rs) s) (done_req-Keeps dev r s)
      (done_all-Keeps (urma_blkdev_done_req dev r s) rs s)

post_popped-Keeps : (xa_rc : ℕ → ℕ) (dev : Device) (r : IoReq) → Keeps dev (post_popped xa_rc dev r)
unfolding post_popped urma_blkdev_done_req urma_blkdev_req_put urma_blkdev_post_jetty_wr
post_popped-Keeps xa_rc dev r = ground arith

workfn-Keeps :
    (fuel : ℕ) (xa_rc : ℕ → ℕ) (dev : Device) → Keeps dev (urma_blkdev_submit_workfn fuel xa_rc dev)
unfolding urma_blkdev_submit_workfn urma_blkdev_pop_pending
workfn-Keeps zero xa_rc dev = (refl, refl, refl)
workfn-Keeps (suc fuel) xa_rc dev =
    elim (Bool-cases (not dev.stopping && ltb dev.inflight dev.queue_depth)) [
      | inr ends ↦ ground arith
      | inl goes ↦ elim (List-cases dev.pending_list) [
        | inl e ↦ ground arith
        | inr (r, rest, e) ↦
            let popped = record dev { pending_list = rest; pending = dev.pending - 1 } in
            let posted = post_popped xa_rc popped r in
            ground
              (arith, goes, e, post_popped-Keeps xa_rc popped r, workfn-Keeps fuel xa_rc posted)
      ]
    ]

submit-Keeps :
    (bs : ℕ) (bdev module_ok alloc_ok : Bool) (seen dev : Device) (peer : Option IoPeer)
    (io : Option Io) (done : Bool) (priv : ℕ)
    → Keeps dev
        (urma_blkdev_submit_nvmet_io bs bdev module_ok alloc_ok seen dev peer io done priv).1
unfolding urma_blkdev_submit_nvmet_io
submit-Keeps bs bdev module_ok alloc_ok seen dev none io done priv = (refl, refl, refl)
submit-Keeps bs bdev module_ok alloc_ok seen dev (some peer) none done priv = (refl, refl, refl)
submit-Keeps bs bdev module_ok alloc_ok seen dev (some peer) (some io) done priv =
    elim (submit_outcome bs bdev module_ok alloc_ok seen dev peer io done priv) [
      | inl (e, r) ↦ rw r (refl, refl, refl)
      | inr (m, room, r) ↦ rw r (refl, refl, refl)
    ]

pub after_calls-Keeps :
    (cs : List Call) (dev : Device) (accepted : List ℕ)
    → Keeps dev (after_calls cs (dev, accepted)).0
after_calls-Keeps [] dev accepted = (refl, refl, refl)
after_calls-Keeps (submission bs bdev mod_ok alloc_ok seen peer io done priv ∷ cs) dev accepted =
    let after =
      after_call (submission bs bdev mod_ok alloc_ok seen peer io done priv) (dev, accepted) in
    then_Keeps dev after.0 (after_calls cs after).0
      (submit-Keeps bs bdev mod_ok alloc_ok seen dev peer io done priv)
      (after_calls-Keeps cs after.0 after.1)
after_calls-Keeps (work fuel xa_rc ∷ cs) dev accepted =
    let worked = urma_blkdev_submit_workfn fuel xa_rc dev in
    then_Keeps dev worked (after_calls cs (worked, accepted)).0 (workfn-Keeps fuel xa_rc dev)
      (after_calls-Keeps cs worked accepted)

fail_queued-Keeps : (dev : Device) (s : Status) → Keeps dev (urma_blkdev_fail_queued dev s)
unfolding urma_blkdev_fail_queued
fail_queued-Keeps dev s =
    done_all-Keeps
      (record dev {
        pending_list = [];
        pending = 0;
        inflight_reqs = [];
        inflight = dev.inflight - length dev.inflight_reqs;
      })
      (dev.pending_list ++ map entry_req dev.inflight_reqs) s

-- The end of the queue keeps the first two.
pub cleanup_keeps :
    (fuel : ℕ) (xa_rc : ℕ → ℕ) (dev : Device)
    → let ended = urma_blkdev_cleanup_io_queue (urma_blkdev_submit_workfn fuel xa_rc) dev in
      (ended.seg ≡ dev.seg) × (ended.ub_dev ≡ dev.ub_dev)
unfolding urma_blkdev_cleanup_io_queue
cleanup_keeps fuel xa_rc dev =
    let stopped = record dev { stopping = true } in
    let flushed = urma_blkdev_submit_workfn fuel xa_rc stopped in
    ground (
      arith,
      workfn-Keeps fuel xa_rc stopped,
      fail_queued-Keeps flushed (err eshutdown),
      fail_queued-Keeps stopped (err eshutdown),
    )
