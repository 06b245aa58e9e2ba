-- ===== src/KernelRdma/Tests.antt =====
-- A concrete request of kernel/rdma_blkdev.c, and a concrete life of the module.
use ddr_direct_storage.Base.{
  none, Option, Bool, refl, ◌++◌, zeros, ◌≡◌, true, false, some, [], ◌∷◌, arith,
}
use ddr_direct_storage.Ledger.{replay}
use ddr_direct_storage.KernelUrma.BlockLayer.{Request, blk_sts_ok}
use ddr_direct_storage.KernelRdma.{rdma_blkdev_queue_rq, rdma_queue_rq_lem}
use ddr_direct_storage.KernelRdma.Lifecycle.{
  number, first_reference, second_reference, RdmaKernel, module_life,
}
use ddr_direct_storage.KernelRdma.Lifecycle.Balance.{module_life-Balanced}

abbrev two_segments : Request
two_segments = record {
  sector = 1;
  is_write = true;
  bytes = 3;
  segments = (7 ∷ 8 ∷ []) ∷ (9 ∷ []) ∷ [];
}

rdma_queue_rq_lem_example :
    rdma_blkdev_queue_rq 512 516 (zeros 516) two_segments
    ≡ some (blk_sts_ok, zeros 512 ++ 7 ∷ 8 ∷ 9 ∷ 0 ∷ [], (7 ∷ 8 ∷ []) ∷ (9 ∷ []) ∷ [])
rdma_queue_rq_lem_example = rdma_queue_rq_lem (zeros 516) two_segments refl (omega arith)

-- The disk cannot be added, behind a device that was found, by its name or by searching.
abbrev add_fails : Option Bool → RdmaKernel
add_fails named = record {
  device_size_mb = 256;
  register_rc = 0;
  kzalloc_ok = true;
  vmalloc = some 4096;
  named = named;
  first = some 5;
  kmalloc_ok = true;
  second = true;
  netdevs = true ∷ [];
  phys = 4096;
  pd_rc = 0;
  mr_rc = 0;
  mapped = 8192;
  mapping_error = false;
  tag_set_rc = 0;
  disk_rc = 0;
  add_rc = 12;
}

module_life-Balanced_example :
    replay number [] (module_life (add_fails none)).log
    ≡ some (second_reference ∷ first_reference ∷ [])
module_life-Balanced_example = module_life-Balanced (add_fails none) (omega arith)

named_device : replay number [] (module_life (add_fails (some true))).log ≡ some []
named_device = module_life-Balanced (add_fails (some true)) (omega arith)
