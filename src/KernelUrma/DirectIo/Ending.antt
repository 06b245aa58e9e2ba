-- ===== src/KernelUrma/DirectIo/Ending.antt =====
-- From the start of the direct IO queue of kernel-urma/urma_blkdev.c to its end.
use ddr_direct_storage.Base.{
  ℕ, ◌-◌, ◌≡◌, refl, ap, ◌∙◌, Bool, true, false, Option, List, [], ◌∷◌, ◌++◌, map, arith,
  if◌then◌else◌, Status, ok, err, length, append_assoc, append-nil,
}
use ddr_direct_storage.Base.Errno.{eshutdown}
use mathlib.Core.List.{map-append}
use ddr_direct_storage.KernelUrma.Device.{IoPeer, Io, IoReq, Device}
use ddr_direct_storage.KernelUrma.DirectIo.{
  urma_blkdev_done_req, urma_blkdev_submit_nvmet_io, urma_blkdev_submit_workfn, done_all,
  urma_blkdev_fail_queued, urma_blkdev_init_io_queue, urma_blkdev_cleanup_io_queue,
}
use ddr_direct_storage.KernelUrma.DirectIo.Order.{
  priv_of, completed_priv, Queued, Orderly, workfn-Orderly,
}
use ddr_direct_storage.KernelUrma.DirectIo.Submission.{accepted_after, submit-Orderly}

abbrev completion : Status → IoReq → ℕ × Status
completion status r = (r.priv, status)

-- Completing a list of requests calls each callback in turn and frees each reference.
done_all_lem :
    (dev : Device) (reqs : List IoReq) (status : Status)
    → Queued reqs
    → done_all dev reqs status ≡ record dev {
      completions = dev.completions ++ map (completion status) reqs;
      module_refs = dev.module_refs - length reqs;
    }
unfolding done_all urma_blkdev_done_req
done_all_lem dev [] status q = ground (arith, append-nil dev.completions)
done_all_lem dev (r ∷ rs) status q = ground (
  arith,
  done_all_lem
      (record dev {
        completions = dev.completions ++ (r.priv, status) ∷ [];
        module_refs = dev.module_refs - 1;
      })
      rs status q.2,
  append_assoc dev.completions ((r.priv, status) ∷ []) (map (completion status) rs),
)

priv-completion :
    (reqs : List IoReq) (status : Status)
    → map completed_priv (map (completion status) reqs) ≡ map priv_of reqs
priv-completion [] status = refl
priv-completion (r ∷ rs) status = ap (◌∷◌ r.priv) (priv-completion rs status)

-- What is left when the queue has ended.
pub record Ended (dev : Device) (accepted : List ℕ) (n : ℕ) : Type 0 where
  pub completed : map completed_priv dev.completions ≡ accepted
  pub nothing_pending : (dev.pending_list ≡ []) × (dev.pending ≡ 0)
  pub nothing_inflight : (dev.inflight_reqs ≡ []) × (dev.inflight ≡ 0)
  pub refs : dev.module_refs ≡ n

fail_queued_lem :
    (dev : Device) (status : Status) (accepted : List ℕ) (n : ℕ)
    → Orderly dev accepted n
    → urma_blkdev_fail_queued dev status ≡ record dev {
      pending_list = [];
      pending = 0;
      inflight_reqs = [];
      inflight = 0;
      completions = dev.completions ++ map (completion status) dev.pending_list;
      module_refs = n;
    }
unfolding urma_blkdev_fail_queued
fail_queued_lem dev status accepted n o = ground (
  arith,
  o.none_inflight,
  o.refs,
  append-nil dev.pending_list,
  done_all_lem
      (record dev {
        pending_list = [];
        pending = 0;
        inflight_reqs = [];
        inflight = dev.inflight - length dev.inflight_reqs;
      })
      dev.pending_list status o.queued,
)

fail_queued-Ended :
    (dev : Device) (status : Status) (accepted : List ℕ) (n : ℕ)
    → Orderly dev accepted n
    → Ended (urma_blkdev_fail_queued dev status) accepted n
fail_queued-Ended dev status accepted n o = rw (fail_queued_lem dev status accepted n o) (record {
  completed =
      map-append completed_priv dev.completions (map (completion status) dev.pending_list)
      ∙ ap (λ l. map completed_priv dev.completions ++ l) (priv-completion dev.pending_list status)
      ∙ o.all_there;
  nothing_pending = (refl, refl);
  nothing_inflight = (refl, refl);
  refs = refl;
})

stopping_Orderly :
    (dev : Device) (accepted : List ℕ) (n : ℕ)
    → Orderly dev accepted n
    → Orderly (record dev { stopping = true }) accepted n
stopping_Orderly dev accepted n o = record {
  all_there = o.all_there;
  none_inflight = o.none_inflight;
  counted = o.counted;
  within = o.within;
  some_room = o.some_room;
  queued = o.queued;
  refs = o.refs;
}

without_wq-Ended :
    (d : Device) (accepted : List ℕ) (n : ℕ)
    → Ended d accepted n
    → Ended (record d { io_wq = false }) accepted n
without_wq-Ended d accepted n h = record {
  completed = h.completed;
  nothing_pending = h.nothing_pending;
  nothing_inflight = h.nothing_inflight;
  refs = h.refs;
}

either-Ended :
    (wq : Bool) (flushed unflushed : Device) (accepted : List ℕ) (n : ℕ)
    → Ended flushed accepted n
    → Ended unflushed accepted n
    → Ended (if wq then record flushed { io_wq = false } else unflushed) accepted n
either-Ended true d e accepted n h k = without_wq-Ended d accepted n h
either-Ended false d e accepted n h k = k

pub cleanup-Ended :
    (fuel : ℕ) (xa_rc : ℕ → ℕ) (dev : Device) (accepted : List ℕ) (n : ℕ)
    → Orderly dev accepted n
    → Ended (urma_blkdev_cleanup_io_queue (urma_blkdev_submit_workfn fuel xa_rc) dev) accepted n
unfolding urma_blkdev_cleanup_io_queue
cleanup-Ended fuel xa_rc dev accepted n o =
    let stopped = record dev { stopping = true } in
    let still = stopping_Orderly dev accepted n o in
    either-Ended dev.io_wq _ _ accepted n
      (fail_queued-Ended (urma_blkdev_submit_workfn fuel xa_rc stopped) (err eshutdown) accepted n
        (workfn-Orderly fuel xa_rc stopped accepted n still))
      (fail_queued-Ended stopped (err eshutdown) accepted n still)

-- One use of the queue: a submission with all that it reads, or rounds of the work function.
pub data Call : Type 0 where
  submission : ℕ → Bool → Bool → Bool → Device → Option IoPeer → Option Io → Bool → ℕ → Call
  work : ℕ → (ℕ → ℕ) → Call

-- The device after some calls, with the cookies accepted.
abbrev pub after_call : Call → Device × List ℕ → Device × List ℕ
after_call (submission bs bdev mod_ok alloc_ok seen peer io done priv) (dev, accepted) =
    let (s, dev') =
      urma_blkdev_submit_nvmet_io bs bdev mod_ok alloc_ok seen dev peer io done priv in
    (dev', accepted_after s accepted priv)
after_call (work fuel xa_rc) (dev, accepted) = (urma_blkdev_submit_workfn fuel xa_rc dev, accepted)

abbrev pub after_calls : List Call → Device × List ℕ → Device × List ℕ
after_calls [] st = st
after_calls (c ∷ cs) st = after_calls cs (after_call c st)

pub after_calls-Orderly :
    (cs : List Call) (dev : Device) (accepted : List ℕ) (n : ℕ)
    → Orderly dev accepted n
    → let (dev', accepted') = after_calls cs (dev, accepted) in Orderly dev' accepted' n
after_calls-Orderly [] dev accepted n o = o
after_calls-Orderly (submission bs bdev mod_ok alloc_ok seen peer io done priv ∷ cs) dev accepted n
      o =
    after_calls-Orderly cs _ _ n
      (submit-Orderly bs bdev mod_ok alloc_ok seen dev peer io done priv accepted n o)
after_calls-Orderly (work fuel xa_rc ∷ cs) dev accepted n o =
    after_calls-Orderly cs _ _ n (workfn-Orderly fuel xa_rc dev accepted n o)

init-Orderly :
    (depth : ℕ) (dev dev' : Device)
    → dev.completions ≡ []
    → urma_blkdev_init_io_queue depth true dev ≡ (ok, dev')
    → Orderly dev' [] dev.module_refs
unfolding urma_blkdev_init_io_queue
init-Orderly depth dev dev' none_yet e = ground arith

-- From the start of the queue of a new device, through any submissions and any rounds of the work
-- function, to its clean-up: the callback of every accepted IO has been called exactly once, in the
-- order of acceptance; nothing is pending or in flight, and the module has its references back.
pub every_io_completes :
    (depth fuel : ℕ) (xa_rc : ℕ → ℕ) (dev dev' : Device) (cs : List Call)
    → dev.completions ≡ []
    → urma_blkdev_init_io_queue depth true dev ≡ (ok, dev')
    → let (last, accepted) = after_calls cs (dev', []) in
      Ended
        (urma_blkdev_cleanup_io_queue (urma_blkdev_submit_workfn fuel xa_rc) last)
        accepted
        dev.module_refs
every_io_completes depth fuel xa_rc dev dev' cs none_yet e =
    cleanup-Ended fuel xa_rc _ _ dev.module_refs
      (after_calls-Orderly cs dev' [] dev.module_refs (init-Orderly depth dev dev' none_yet e))
