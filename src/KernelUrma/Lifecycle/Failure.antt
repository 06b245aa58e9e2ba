-- ===== src/KernelUrma/Lifecycle/Failure.antt =====
-- Loading that fails gives back what it took.
use ddr_direct_storage.Base.{
  ℕ, ◌≡◌, refl, ap, ◌∙◌, subst, inl, inr, true, false, not, none, some, List, [], ◌∷◌, ◌++◌, ◌==◌,
  err, arith, is_none, Bool-cases, Option-cases, append_assoc,
}
use ddr_direct_storage.KernelUrma.Device.{Device}
use ddr_direct_storage.KernelUrma.DirectIo.{urma_blkdev_init_io_queue}
use ddr_direct_storage.KernelUrma.Driver.{
  blkdev, dev_memory, workqueue, ramdisk, ub_device, token, segment, Event, acquire, release,
  Kernel, Driver, init_io_queue, urma_blkdev_alloc_ramdisk, take_device, urma_blkdev_setup_urma,
  urma_blkdev_cleanup_urma, urma_blkdev_alloc_disk, urma_blkdev_free_ramdisk, cleanup_io_queue,
}
use ddr_direct_storage.KernelUrma.Lifecycle.{
  unloaded, urma_blkdev_init, init_dev, init_disk, free_dev, unregister,
}
use ddr_direct_storage.KernelUrma.Lifecycle.Ledger.{
  replay, replay-append, urma_holding, gives_back, Clean,
}
use ddr_direct_storage.KernelUrma.Lifecycle.Stages.{
  Holds, urma-Holds, alloc_disk-Holds, alloc_disk_fields, setup_fields,
}

-- What unwinding gives back, in its order.
abbrev unwind_events : Driver → List Event
unwind_events d =
    gives_back d.dev.seg segment
    ++ gives_back (not (is_none d.token_id)) token
    ++ gives_back d.dev.ub_dev ub_device
    ++ release ramdisk ∷ release workqueue ∷ release dev_memory ∷ release blkdev ∷ []

-- The error exit of loading, from the failed allocation of the disk on.
abbrev unwound : (Device → Device) → Driver → Driver
unwound flush d =
    unregister
      (free_dev (cleanup_io_queue flush (urma_blkdev_free_ramdisk (urma_blkdev_cleanup_urma d))))

unwound-log :
    (flush : Device → Device) (d : Driver)
    → d.dev.io_wq ≡ true
    → is_none d.ramdisk_addr ≡ false
    → (unwound flush d).log ≡ d.log ++ unwind_events d
unfolding cleanup_io_queue urma_blkdev_cleanup_urma urma_blkdev_free_ramdisk
unwound-log flush d w m = grind (arith, w, m, append_assoc)

unwind_events_balance : (d : Driver) → replay (urma_holding d) (unwind_events d) ≡ some []
unwind_events_balance d = ground arith

unwound-Clean :
    (flush : Device → Device) (d : Driver)
    → d.dev.io_wq ≡ true
    → is_none d.ramdisk_addr ≡ false
    → Holds d (urma_holding d)
    → Clean (unwound flush d)
unwound-Clean flush d w m h = (
  refl,
  ap (replay []) (unwound-log flush d w m)
      ∙ replay-append [] (urma_holding d) d.log (unwind_events d) h
      ∙ unwind_events_balance d,
)

-- What a failing `init_disk` unwinds.
disk_fails :
    (flush : Device → Device) (k : Kernel) (d : Driver) (e : ℕ)
    → (init_disk flush k d).0 ≡ err e
    → ((urma_blkdev_alloc_disk k (urma_blkdev_setup_urma k (take_device k d)).1).0 ≡ err e)
      × ((init_disk flush k d).1
          ≡ unwound flush
              (urma_blkdev_alloc_disk k (urma_blkdev_setup_urma k (take_device k d)).1).1)
unfolding init_disk
disk_fails flush k d e q = ground (arith, q)

disk-Clean :
    (flush : Device → Device) (k : Kernel) (d : Driver) (e : ℕ)
    → Holds d (ramdisk ∷ workqueue ∷ dev_memory ∷ blkdev ∷ [])
    → d.dev.io_wq ≡ true
    → d.token_id ≡ none
    → d.dev.seg ≡ false
    → is_none d.ramdisk_addr ≡ false
    → (init_disk flush k d).0 ≡ err e
    → Clean (init_disk flush k d).1
disk-Clean flush k d e l w t s m q =
    let set_up = (urma_blkdev_setup_urma k (take_device k d)).1 in
    let (fails, unwinds) = disk_fails flush k d e q in
    let kept = alloc_disk_fields k set_up in
    let before = setup_fields k d in
    let failed = (urma_blkdev_alloc_disk k set_up).1 in
    let held : Holds failed (urma_holding set_up) =
      alloc_disk-Holds k set_up (urma-Holds k d l t s) e fails in
    let same : urma_holding set_up ≡ urma_holding failed = ground (arith, kept) in
    rw unwinds (
      unwound-Clean flush failed (ground (arith, kept, before, w)) (ground (arith, kept, before, m))
        (rw (← same) held))

dev-Clean :
    (flush : Device → Device) (k : Kernel) (d : Driver) (e : ℕ)
    → d.log ≡ acquire blkdev ∷ acquire dev_memory ∷ []
    → d.token_id ≡ none
    → d.dev.seg ≡ false
    → (init_dev flush k d).0 ≡ err e
    → Clean (init_dev flush k d).1
unfolding init_dev init_io_queue urma_blkdev_init_io_queue urma_blkdev_alloc_ramdisk
    cleanup_io_queue urma_blkdev_free_ramdisk
dev-Clean flush k d e l t s = elim (Bool-cases k.wq_ok) [
  | inr w ↦ rw (w, l) (λ q. (refl, refl))
  | inl w ↦ elim (Option-cases k.vmalloc) [
    | inl v ↦ rw (w, v, l) (λ q. (refl, refl))
    | inr (a, v) ↦
        let k' = record k { wq_ok = true; vmalloc = some a } in
        let backed = (urma_blkdev_alloc_ramdisk k' (init_io_queue k' d).1).1 in
        rw (w, v) (disk-Clean flush k' backed e (rw l refl) refl t s refl)
  ]
]

abbrev allocated : Driver
allocated = record unloaded { present = true; log = acquire blkdev ∷ acquire dev_memory ∷ [] }

-- Loading that fails gives back all that it took.
pub init-Clean :
    (flush : Device → Device) (k : Kernel) (d : Driver) (e : ℕ)
    → urma_blkdev_init flush k ≡ (err e, d)
    → Clean d
unfolding urma_blkdev_init
init-Clean flush k d e q = elim (Bool-cases (not (k.register_rc == 0))) [
  | inl r ↦ ground arith
  | inr r ↦ elim (Bool-cases (not k.kzalloc_ok)) [
    | inl z ↦ ground arith
    | inr z ↦
        let run = rw (r, z) at q in
        subst (λ s. Clean s) (ap (λ p. p.1) run)
          (dev-Clean flush k allocated e refl refl refl (ap (λ p. p.0) run))
  ]
]
