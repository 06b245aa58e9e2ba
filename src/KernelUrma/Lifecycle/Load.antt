-- ===== src/KernelUrma/Lifecycle/Load.antt =====
-- What the driver holds once it has been loaded.
use ddr_direct_storage.Base.{
  ◌<◌, ◌≡◌, refl, ap, subst, inl, inr, true, false, not, none, some, List, [], ◌∷◌, ◌==◌,
  if◌then◌else◌, ok, arith, is_none, Bool-cases, Option-cases,
}
use ddr_direct_storage.KernelUrma.Device.{Device}
use ddr_direct_storage.KernelUrma.DirectIo.{urma_blkdev_init_io_queue}
use ddr_direct_storage.KernelUrma.Driver.{
  Resource, blkdev, dev_memory, workqueue, ramdisk, tag_set, gendisk, added_disk, acquire, Kernel,
  Driver, init_io_queue, urma_blkdev_alloc_ramdisk, take_device, urma_blkdev_setup_urma,
  urma_blkdev_alloc_disk, urma_blkdev_free_ramdisk, cleanup_io_queue,
}
use ddr_direct_storage.KernelUrma.Lifecycle.{unloaded, urma_blkdev_init, init_dev, init_disk}
use ddr_direct_storage.KernelUrma.Lifecycle.Ledger.{replay, urma_holding}
use ddr_direct_storage.KernelUrma.Lifecycle.Stages.{
  Holds, urma-Holds, alloc_disk_ok, alloc_disk_fields, setup_fields,
}

-- What a loaded driver holds, the newest first.
abbrev pub holding : Driver → List Resource
holding d = added_disk ∷ gendisk ∷ tag_set ∷ urma_holding d

abbrev pub Idle : Device → Type 0
Idle dev =
    (dev.completions ≡ [])
    × (dev.pending_list ≡ [])
    × (dev.pending ≡ 0)
    × (dev.inflight_reqs ≡ [])
    × (dev.inflight ≡ 0)
    × (dev.module_refs ≡ 0)
    × (0 < dev.queue_depth)

pub record Loaded (d : Driver) : Type 0 where
  pub is_present : d.present ≡ true
  pub has_disk : d.disk ≡ true
  pub has_queue : d.dev.io_wq ≡ true
  pub has_memory : is_none d.ramdisk_addr ≡ false
  pub holds : replay [] d.log ≡ some (holding d)

abbrev pub Ready : Driver → Type 0
Ready d = Loaded d × Idle d.dev

take-Idle : (k : Kernel) (d : Driver) → Idle d.dev → Idle (take_device k d).dev
unfolding take_device
take-Idle k d i = ground (arith, i)

setup-Idle : (k : Kernel) (d : Driver) → Idle d.dev → Idle (urma_blkdev_setup_urma k d).1.dev
unfolding urma_blkdev_setup_urma
setup-Idle k d i = ground (arith, i)

alloc_disk_dev : (k : Kernel) (d : Driver) → (urma_blkdev_alloc_disk k d).1.dev ≡ d.dev
unfolding urma_blkdev_alloc_disk
alloc_disk_dev k d = ground arith

disk-Idle :
    (flush : Device → Device) (k : Kernel) (d : Driver)
    → Idle d.dev
    → (init_disk flush k d).0 ≡ ok
    → Idle (init_disk flush k d).1.dev
unfolding init_disk
disk-Idle flush k d i q =
    let set_up = (urma_blkdev_setup_urma k (take_device k d)).1 in
    let same : (init_disk flush k d).1.dev ≡ set_up.dev =
      ground (arith, q, alloc_disk_dev k set_up) in
    rw same (setup-Idle k (take_device k d) (take-Idle k d i))

disk_loads :
    (flush : Device → Device) (k : Kernel) (d : Driver)
    → (init_disk flush k d).0 ≡ ok
    → let set_up = (urma_blkdev_setup_urma k (take_device k d)).1 in
      ((urma_blkdev_alloc_disk k set_up).0 ≡ ok)
      × ((init_disk flush k d).1 ≡ (urma_blkdev_alloc_disk k set_up).1)
unfolding init_disk
disk_loads flush k d q = ground (arith, q)

disk_Ready :
    (flush : Device → Device) (k : Kernel) (d : Driver)
    → Holds d (ramdisk ∷ workqueue ∷ dev_memory ∷ blkdev ∷ [])
    → d.present ≡ true
    → d.dev.io_wq ≡ true
    → d.token_id ≡ none
    → d.dev.seg ≡ false
    → is_none d.ramdisk_addr ≡ false
    → Idle d.dev
    → (init_disk flush k d).0 ≡ ok
    → Ready (init_disk flush k d).1
disk_Ready flush k d l p w t s m i q =
    let set_up = (urma_blkdev_setup_urma k (take_device k d)).1 in
    let (loads, same) = disk_loads flush k d q in
    let kept = alloc_disk_fields k set_up in
    let before = setup_fields k d in
    let loaded = (urma_blkdev_alloc_disk k set_up).1 in
    let held : Holds loaded (added_disk ∷ gendisk ∷ tag_set ∷ urma_holding set_up) =
      alloc_disk_ok k set_up (urma-Holds k d l t s) loads in
    let below : urma_holding set_up ≡ urma_holding loaded = ground (arith, kept) in
    (
      rw same (record {
        is_present = ground (arith, kept, before, p);
        has_disk = ground (arith, kept, loads);
        has_queue = ground (arith, kept, before, w);
        has_memory = ground (arith, kept, before, m);
        holds = rw (← below) held;
      }),
      disk-Idle flush k d i q,
    )

dev_Ready :
    (flush : Device → Device) (k : Kernel) (d : Driver)
    → d.log ≡ acquire blkdev ∷ acquire dev_memory ∷ []
    → d.present ≡ true
    → d.token_id ≡ none
    → d.dev.seg ≡ false
    → d.dev.completions ≡ []
    → d.dev.module_refs ≡ 0
    → (init_dev flush k d).0 ≡ ok
    → Ready (init_dev flush k d).1
unfolding init_dev init_io_queue urma_blkdev_init_io_queue urma_blkdev_alloc_ramdisk
    cleanup_io_queue urma_blkdev_free_ramdisk
dev_Ready flush k d l p t s c m = elim (Bool-cases k.wq_ok) [
  | inr w ↦ rw w (λ q. absurd (ground arith))
  | inl w ↦ elim (Option-cases k.vmalloc) [
    | inl v ↦ rw (w, v) (λ q. absurd (ground arith))
    | inr (a, v) ↦
        let k' = record k { wq_ok = true; vmalloc = some a } in
        let depth : 0 < (if k.queue_depth == 0 then 1 else k.queue_depth) = ground arith in
        let backed = (urma_blkdev_alloc_ramdisk k' (init_io_queue k' d).1).1 in
        rw (w, v)
          (disk_Ready flush k' backed (rw l refl) p refl t s refl
            (c, refl, refl, refl, refl, m, depth))
  ]
]

abbrev allocated : Driver
allocated = record unloaded { present = true; log = acquire blkdev ∷ acquire dev_memory ∷ [] }

pub init_Ready :
    (flush : Device → Device) (k : Kernel) (d : Driver)
    → urma_blkdev_init flush k ≡ (ok, d)
    → Ready d
unfolding urma_blkdev_init
init_Ready flush k d q = elim (Bool-cases (not (k.register_rc == 0))) [
  | inl r ↦ absurd (ground arith)
  | inr r ↦ elim (Bool-cases (not k.kzalloc_ok)) [
    | inl z ↦ absurd (ground arith)
    | inr z ↦
        let run = rw (r, z) at q in
        subst (λ s. Ready s) (ap (λ p. p.1) run)
          (dev_Ready flush k allocated refl refl refl refl refl refl (ap (λ p. p.0) run))
  ]
]
