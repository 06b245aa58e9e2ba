-- ===== src/KernelUrma/Lifecycle/Session.antt =====
-- The module from its loading through any direct IO to its unloading.
use ddr_direct_storage.Base.{ℕ, ◌≡◌, ◌∙◌, ap, List, [], map, arith, ok}
use ddr_direct_storage.KernelUrma.Device.{Device}
use ddr_direct_storage.KernelUrma.DirectIo.{urma_blkdev_submit_workfn}
use ddr_direct_storage.KernelUrma.DirectIo.Order.{Orderly, completed_priv}
use ddr_direct_storage.KernelUrma.DirectIo.Ending.{
  Call, after_calls, after_calls-Orderly, cleanup-Ended,
}
use ddr_direct_storage.KernelUrma.DirectIo.Handles.{Keeps, after_calls-Keeps, cleanup_keeps}
use ddr_direct_storage.KernelUrma.Driver.{Kernel, Driver, with_dev}
use ddr_direct_storage.KernelUrma.Lifecycle.{urma_blkdev_init, urma_blkdev_exit}
use ddr_direct_storage.KernelUrma.Lifecycle.Ledger.{Clean}
use ddr_direct_storage.KernelUrma.Lifecycle.Load.{Idle, Loaded, init_Ready}
use ddr_direct_storage.KernelUrma.Lifecycle.Unload.{exit-Clean, exit-completions}

Idle-Orderly : (dev : Device) → Idle dev → Orderly dev [] 0
Idle-Orderly dev i = record {
  all_there = ground (arith, i);
  none_inflight = ground (arith, i);
  counted = ground (arith, i);
  within = ground (arith, i);
  some_room = ground (arith, i);
  queued = rw i.1 tt;
  refs = ground (arith, i);
}

used-Loaded : (d : Driver) (dev : Device) → Loaded d → Keeps d.dev dev → Loaded (with_dev d dev)
used-Loaded d dev o (s, u, w) = record {
  is_present = o.is_present;
  has_disk = o.has_disk;
  has_queue = w ∙ o.has_queue;
  has_memory = o.has_memory;
  holds = rw (s, u) o.holds;
}

-- A module that has loaded and is unloaded after any direct IO has called the callback of every
-- accepted IO exactly once, in the order of acceptance, and gives back everything it took: nothing
-- is given back twice or while it is not held, and nothing stays held.
pub load_use_unload :
    (flush : Device → Device) (fuel : ℕ) (xa_rc : ℕ → ℕ) (k : Kernel) (d : Driver) (cs : List Call)
    → urma_blkdev_init flush k ≡ (ok, d)
    → let (last, accepted) = after_calls cs (d.dev, []) in
      let unloaded = urma_blkdev_exit (urma_blkdev_submit_workfn fuel xa_rc) (with_dev d last) in
      Clean unloaded × (map completed_priv unloaded.dev.completions ≡ accepted)
load_use_unload flush fuel xa_rc k d cs e =
    let (loaded, idle) = init_Ready flush k d e in
    let (last, accepted) = after_calls cs (d.dev, []) in
    let used = used-Loaded d last loaded (after_calls-Keeps cs d.dev []) in
    let orderly = after_calls-Orderly cs d.dev [] 0 (Idle-Orderly d.dev idle) in
    let (seg, ub_dev) = cleanup_keeps fuel xa_rc last in
    (
      exit-Clean (urma_blkdev_submit_workfn fuel xa_rc) (with_dev d last) used seg ub_dev,
      ap (map completed_priv)
            (exit-completions (urma_blkdev_submit_workfn fuel xa_rc) (with_dev d last) used)
          ∙ (cleanup-Ended fuel xa_rc last accepted 0 orderly).completed,
    )
