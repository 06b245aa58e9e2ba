-- ===== src/KernelUrma/Lifecycle/Stages.antt =====
-- What the driver holds after setting up URMA, and after allocating the disk.
use ddr_direct_storage.Base.{
  ℕ, ◌≡◌, refl, ◌∙◌, inl, inr, true, false, none, some, List, [], ◌∷◌, ok, err, arith, Bool-cases,
  Option-cases,
}
use ddr_direct_storage.KernelUrma.Driver.{
  Resource, blkdev, dev_memory, workqueue, ramdisk, ub_device, token, segment, tag_set, gendisk,
  added_disk, Event, acquire, release, Kernel, Driver, urma_blkdev_find_device, take_device,
  urma_blkdev_setup_urma, urma_blkdev_alloc_disk, note,
}
use ddr_direct_storage.KernelUrma.Lifecycle.Ledger.{
  replay, is_held, after_event, replay-append, urma_holding,
}

abbrev below : List Resource
below = ramdisk ∷ workqueue ∷ dev_memory ∷ blkdev ∷ []

abbrev pub Holds : Driver → List Resource → Type 0
Holds d held = replay [] d.log ≡ some held

note-Holds :
    (d : Driver) (held after : List Resource) (e : Event)
    → Holds d held
    → after_event held e ≡ some after
    → Holds (note d e) after
note-Holds d held after e h q = replay-append [] held d.log (e ∷ []) h ∙ ground (arith, q)

pub take-Holds :
    (k : Kernel) (d : Driver)
    → Holds d (ramdisk ∷ workqueue ∷ dev_memory ∷ blkdev ∷ [])
    → d.token_id ≡ none
    → d.dev.seg ≡ false
    → Holds (take_device k d) (urma_holding (take_device k d))
unfolding take_device
take-Holds k d h t s = elim (Bool-cases (urma_blkdev_find_device k)) [
  | inl f ↦
      rw (f, t, s)
        (note-Holds d _ (ub_device ∷ ramdisk ∷ workqueue ∷ dev_memory ∷ blkdev ∷ [])
          (acquire ub_device) h refl)
  | inr f ↦ rw (f, t, s) h
]

pub setup-Holds :
    (k : Kernel) (d : Driver)
    → Holds d (urma_holding d)
    → d.token_id ≡ none
    → d.dev.seg ≡ false
    → Holds (urma_blkdev_setup_urma k d).1 (urma_holding (urma_blkdev_setup_urma k d).1)
unfolding urma_blkdev_setup_urma
setup-Holds k d h t s = elim (Bool-cases d.dev.ub_dev) [
  | inr u ↦ ground (arith, h, t, s, u)
  | inl u ↦
      let with_device : Holds d (ub_device ∷ below) = ground (arith, h, t, s, u) in
      let with_token =
        note-Holds d (ub_device ∷ below) (token ∷ ub_device ∷ below) (acquire token) with_device
          refl in
      let given_back =
        note-Holds (note d (acquire token)) (token ∷ ub_device ∷ below) (ub_device ∷ below)
          (release token) with_token refl in
      let with_segment =
        note-Holds (note d (acquire token)) (token ∷ ub_device ∷ below)
          (segment ∷ token ∷ ub_device ∷ below) (acquire segment) with_token refl in
      elim (Option-cases k.token_id) [
        | inl n ↦ ground (arith, with_device, t, s, u, n)
        | inr (a, n) ↦ elim (Option-cases k.ubva) [
          | inl v ↦ ground (arith, given_back, u, n, v)
          | inr (va, v) ↦ ground (arith, with_segment, u, n, v)
        ]
      ]
]

urma_not_held :
    (d : Driver)
    → (is_held (urma_holding d) tag_set ≡ false)
      × (is_held (urma_holding d) gendisk ≡ false)
      × (is_held (urma_holding d) added_disk ≡ false)
urma_not_held d = ground arith

-- The disk's resources, with what was held before them.
module _ (k : Kernel) (d : Driver) (h : Holds d (urma_holding d)) where
  with_tags : Holds (note d (acquire tag_set)) (tag_set ∷ urma_holding d)
  with_tags =
      note-Holds d (urma_holding d) (tag_set ∷ urma_holding d) (acquire tag_set) h
        (ground (arith, urma_not_held d))

  with_disk :
      Holds (note (note d (acquire tag_set)) (acquire gendisk)) (gendisk ∷ tag_set ∷ urma_holding d)
  with_disk =
      note-Holds (note d (acquire tag_set)) (tag_set ∷ urma_holding d)
        (gendisk ∷ tag_set ∷ urma_holding d) (acquire gendisk) with_tags
        (ground (arith, urma_not_held d))

  tags_back : Holds (note (note d (acquire tag_set)) (release tag_set)) (urma_holding d)
  tags_back =
      note-Holds (note d (acquire tag_set)) (tag_set ∷ urma_holding d) (urma_holding d)
        (release tag_set) with_tags refl

  disk_back :
      Holds
        (note (note (note d (acquire tag_set)) (acquire gendisk)) (release gendisk))
        (tag_set ∷ urma_holding d)
  disk_back =
      note-Holds (note (note d (acquire tag_set)) (acquire gendisk))
        (gendisk ∷ tag_set ∷ urma_holding d) (tag_set ∷ urma_holding d) (release gendisk) with_disk
        refl

  all_back :
      Holds
        (note
          (note (note (note d (acquire tag_set)) (acquire gendisk)) (release gendisk))
          (release tag_set))
        (urma_holding d)
  all_back =
      note-Holds (note (note (note d (acquire tag_set)) (acquire gendisk)) (release gendisk))
        (tag_set ∷ urma_holding d) (urma_holding d) (release tag_set) disk_back refl

  -- An allocation that fails holds what was held before.
  pub alloc_disk-Holds :
      (e : ℕ)
      → (urma_blkdev_alloc_disk k d).0 ≡ err e
      → Holds (urma_blkdev_alloc_disk k d).1 (urma_holding d)
  unfolding urma_blkdev_alloc_disk
  alloc_disk-Holds e q = ground (arith, h, q, tags_back, all_back)

  -- One that succeeds holds its three resources on top.
  pub alloc_disk_ok :
      (urma_blkdev_alloc_disk k d).0 ≡ ok
      → Holds (urma_blkdev_alloc_disk k d).1 (added_disk ∷ gendisk ∷ tag_set ∷ urma_holding d)
  unfolding urma_blkdev_alloc_disk
  alloc_disk_ok q =
      let added =
        note-Holds (note (note d (acquire tag_set)) (acquire gendisk))
          (gendisk ∷ tag_set ∷ urma_holding d) (added_disk ∷ gendisk ∷ tag_set ∷ urma_holding d)
          (acquire added_disk) with_disk (ground (arith, urma_not_held d)) in
      ground (arith, q, added)

-- The fields that the allocation of the disk leaves alone.
pub alloc_disk_fields :
    (k : Kernel) (d : Driver)
    → let d' = (urma_blkdev_alloc_disk k d).1 in
      (d'.dev ≡ d.dev)
      × (d'.present ≡ d.present)
      × (d'.token_id ≡ d.token_id)
      × (d'.ramdisk_addr ≡ d.ramdisk_addr)
      × ((urma_blkdev_alloc_disk k d).0 ≡ ok → d'.disk ≡ true)
unfolding urma_blkdev_alloc_disk
alloc_disk_fields k d = ground arith

-- Those that setting up URMA leaves alone.
pub setup_fields :
    (k : Kernel) (d : Driver)
    → let d' = (urma_blkdev_setup_urma k (take_device k d)).1 in
      (d'.dev.io_wq ≡ d.dev.io_wq) × (d'.present ≡ d.present) × (d'.ramdisk_addr ≡ d.ramdisk_addr)
unfolding urma_blkdev_setup_urma take_device
setup_fields k d = ground arith

-- Both together.
pub urma-Holds :
    (k : Kernel) (d : Driver)
    → Holds d (ramdisk ∷ workqueue ∷ dev_memory ∷ blkdev ∷ [])
    → d.token_id ≡ none
    → d.dev.seg ≡ false
    → let d' = (urma_blkdev_setup_urma k (take_device k d)).1 in Holds d' (urma_holding d')
unfolding take_device
urma-Holds k d h t s =
    setup-Holds k (take_device k d) (take-Holds k d h t s) (ground (arith, t)) (ground (arith, s))
