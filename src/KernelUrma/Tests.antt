-- ===== src/KernelUrma/Tests.antt =====
-- Concrete runs of kernel-urma/urma_blkdev.c.
use ddr_direct_storage.Base.{
  ◌++◌, zeros, ℕ, ◌+◌, ◌*◌, ◌≤◌, ◌≡◌, refl, true, false, none, some, List, [], ◌∷◌, map, arith, ok,
  err, Bytes, leb,
}
use ddr_direct_storage.KernelUrma.Device.{IoPeer, Io, IoReq, Device}
use ddr_direct_storage.KernelUrma.Mapping.{Mapping, mapped, urma_blkdev_map_io}
use ddr_direct_storage.KernelUrma.Mapping.Bounds.{is_mapped, map_io_exact, map_io_sound}
use ddr_direct_storage.KernelUrma.DirectIo.{
  urma_blkdev_submit_nvmet_io, urma_blkdev_submit_workfn, urma_blkdev_init_io_queue,
  urma_blkdev_cleanup_io_queue,
}
use ddr_direct_storage.KernelUrma.DirectIo.Order.{Orderly, completed_priv, workfn_drains}
use ddr_direct_storage.KernelUrma.DirectIo.Submission.{accepted_after, submit-Orderly}
use ddr_direct_storage.KernelUrma.DirectIo.Ending.{
  Call, submission, work, after_calls, Ended, every_io_completes,
}
use ddr_direct_storage.KernelUrma.Driver.{Kernel, Driver, with_dev}
use ddr_direct_storage.KernelUrma.Lifecycle.{urma_blkdev_init, urma_blkdev_exit}
use ddr_direct_storage.KernelUrma.Lifecycle.Ledger.{Clean}
use ddr_direct_storage.KernelUrma.Lifecycle.Failure.{init-Clean}
use ddr_direct_storage.KernelUrma.Lifecycle.Session.{load_use_unload}
use ddr_direct_storage.KernelUrma.BlockLayer.{Request, blk_sts_ok, urma_blkdev_queue_rq}
use ddr_direct_storage.KernelUrma.BlockLayer.Serving.{queue_rq_lem}

abbrev peer : IoPeer
peer = record { eid = 1 ∷ 2 ∷ []; jetty = true }

abbrev two_blocks : Io
two_blocks = record { dir = 1; lba = 3; block_count = 2; hbm_addr = 64; hbm_token_id = 7 }

abbrev loaded : Device
loaded = record {
  ramdisk_size = 4096;
  ubva_addr = 65536;
  ub_dev = true;
  seg = true;
  io_wq = false;
  pending_list = [];
  inflight_reqs = [];
  pending = 0;
  inflight = 0;
  next_wr_id = 0;
  queue_depth = 0;
  stopping = false;
  completions = [];
  module_refs = 1;
}

abbrev ready : Device
ready = record loaded { io_wq = true; queue_depth = 2 }

abbrev waiting : ℕ → IoReq
waiting priv = record {
  peer = peer;
  io = two_blocks;
  byte_offset = 1536;
  local_ubva = 67072;
  len = 1024;
  wr_id = 0;
  done = true;
  priv = priv;
  ref = 1;
}

abbrev one_waits : Device
one_waits = record ready { pending_list = waiting 5 ∷ []; pending = 1; module_refs = 2 }

one_waits-Orderly : Orderly one_waits (5 ∷ []) 1
one_waits-Orderly = record {
  all_there = refl;
  none_inflight = (refl, refl);
  counted = refl;
  within = omega arith;
  some_room = omega arith;
  queued = (refl, refl, tt);
  refs = refl;
}

abbrev xa_ok : ℕ → ℕ
xa_ok id = 0

map_io_exact_example :
    is_mapped (urma_blkdev_map_io 512 ready two_blocks) ≡ leb (3 * 512 + 2 * 512) 4096
map_io_exact_example = map_io_exact 512 ready two_blocks (omega arith) (omega arith) (omega arith)

abbrev two_mapped : Mapping
two_mapped = record { byte_offset = 1536; len = 1024; local_ubva = 67072 }

two_blocks_mapped : urma_blkdev_map_io 512 ready two_blocks ≡ mapped two_mapped
unfolding urma_blkdev_map_io
two_blocks_mapped = refl

map_io_sound_example :
    (1536 ≡ 3 * 512) × (1024 ≡ 2 * 512) × (67072 ≡ 65536 + 3 * 512) × (1536 + 1024 ≤ 4096)
map_io_sound_example =
    map_io_sound 512 ready two_blocks (omega arith) (omega arith) (omega arith) two_mapped
      two_blocks_mapped

submit-Orderly_example :
    let (s, after) =
      urma_blkdev_submit_nvmet_io 512 true true true loaded one_waits
        (some peer)
        (some two_blocks)
        true
        9 in
    Orderly after (accepted_after s (5 ∷ []) 9) 1
submit-Orderly_example =
    submit-Orderly 512 true true true loaded one_waits (some peer) (some two_blocks) true 9 (5 ∷ [])
      1 one_waits-Orderly

workfn_drains_example :
    let after = urma_blkdev_submit_workfn 2 xa_ok one_waits in
    (map completed_priv after.completions ≡ 5 ∷ [])
    × (after.pending_list ≡ [])
    × (after.pending ≡ 0)
    × (after.module_refs ≡ 1)
workfn_drains_example =
    workfn_drains 2 xa_ok one_waits (5 ∷ []) 1 one_waits-Orderly refl (omega arith)

loaded_init : urma_blkdev_init_io_queue 2 true loaded ≡ (ok, ready)
unfolding urma_blkdev_init_io_queue
loaded_init = refl

abbrev some_calls : List Call
some_calls =
    submission 512 true true true ready (some peer) (some two_blocks) true 9
    ∷ work 1 xa_ok
    ∷ submission 512 true true true ready (some peer) (some two_blocks) true 10
    ∷ []

every_io_completes_example :
    let (last, accepted) = after_calls some_calls (ready, []) in
    Ended (urma_blkdev_cleanup_io_queue (urma_blkdev_submit_workfn 3 xa_ok) last) accepted 1
every_io_completes_example = every_io_completes 2 3 xa_ok loaded ready some_calls refl loaded_init

-- A kernel that grants everything until the disk is added; `add_rc` is the error there.
abbrev kernel : ℕ → Kernel
kernel add_rc = record {
  device_size_mb = 1;
  queue_depth = 2;
  register_rc = 0;
  kzalloc_ok = true;
  wq_ok = true;
  vmalloc = some 4096;
  named = none;
  netdevs = false ∷ true ∷ [];
  virt_to_phys = λ a. 0;
  token_id = some 7;
  ubva = some 65536;
  tag_set_rc = 0;
  disk_rc = 0;
  add_rc = add_rc;
}

abbrev no_work : Device → Device
no_work dev = dev

abbrev failed : Driver
failed = (urma_blkdev_init no_work (kernel 12)).1

failed_init : urma_blkdev_init no_work (kernel 12) ≡ (err 12, failed)
unfolding urma_blkdev_init
failed_init = refl

init-Clean_example : Clean failed
init-Clean_example = init-Clean no_work (kernel 12) failed 12 failed_init

abbrev running : Driver
running = (urma_blkdev_init no_work (kernel 0)).1

running_init : urma_blkdev_init no_work (kernel 0) ≡ (ok, running)
unfolding urma_blkdev_init
running_init = refl

load_use_unload_example :
    let (last, accepted) = after_calls some_calls (running.dev, []) in
    let unloaded = urma_blkdev_exit (urma_blkdev_submit_workfn 3 xa_ok) (with_dev running last) in
    Clean unloaded × (map completed_priv unloaded.dev.completions ≡ accepted)
load_use_unload_example = load_use_unload no_work 3 xa_ok (kernel 0) running some_calls running_init

abbrev two_segments : Request
two_segments = record {
  sector = 1;
  is_write = true;
  bytes = 3;
  segments = (7 ∷ 8 ∷ []) ∷ (9 ∷ []) ∷ [];
}

-- A sector and a bit.
abbrev small_disk : Bytes
small_disk = zeros 516

queue_rq_lem_example :
    urma_blkdev_queue_rq 512 516 small_disk two_segments
    ≡ some (blk_sts_ok, zeros 512 ++ 7 ∷ 8 ∷ 9 ∷ 0 ∷ [], (7 ∷ 8 ∷ []) ∷ (9 ∷ []) ∷ [])
queue_rq_lem_example = queue_rq_lem small_disk two_segments refl (omega arith)
