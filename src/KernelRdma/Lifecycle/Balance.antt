-- ===== src/KernelRdma/Lifecycle/Balance.antt =====
-- The module gives back what it takes.
use ddr_direct_storage.Base.{
  none, ◌&&◌, is_none, ℕ, ◌≡◌, ◌≢◌, refl, sym, ap, ◌∙◌, subst, Bool, true, false, some, List, [],
  ◌∷◌, ◌==◌, Status, ok, err, arith, Bool-cases, Option-cases, inl, inr, ◌⊎◌, if◌then◌else◌, not,
  ◌*◌, ◌%◌, ◌^◌,
}
use ddr_direct_storage.Base.Errno.{enomem}
use ddr_direct_storage.Ledger.{Event, acquire, release, replay}
use ddr_direct_storage.KernelRdma.Lifecycle.{
  Resource, number, blkdev, dev_memory, ramdisk, tag_set, gendisk, added_disk, RdmaKernel,
  RdmaDriver, note, rdma_blkdev_setup_rdma, rdma_blkdev_cleanup_rdma, rdma_blkdev_alloc_disk,
  rdma_blkdev_free_disk, rdma_blkdev_alloc_ramdisk, rdma_blkdev_free_ramdisk, rdma_free_dev,
  rdma_unregister, unloaded, rdma_init_disk, rdma_init_dev, rdma_blkdev_init, rdma_blkdev_exit,
  ended, module_life,
}
use ddr_direct_storage.KernelRdma.Lifecycle.Region.{
  Leak, clean, one, two, references, leak_of, Owns, note-Owns, base, Bare,
}
use ddr_direct_storage.KernelRdma.Lifecycle.Stages.{
  held_of, Stage, setup-Stage, cleanup-Stage, free-Owns,
}

restage :
    (full x : Bool) (d : RdmaDriver) (held after : List Resource) (es : List (Event Resource))
    → Stage full d held
    → replay number held es ≡ some after
    → Stage full (record (note d es) { disk = x }) after
restage full x d held after es s q = record {
  there = s.there;
  present = s.present;
  ib_dev = s.ib_dev;
  pd = s.pd;
  mr = s.mr;
  iova = s.iova;
  Holding = note-Owns d held after es s.Holding q;
}

-- The disk's resources above the others.
takes_tags :
    (full : Bool) (l : Leak)
    → replay number (held_of full l) (acquire tag_set ∷ []) ≡ some (tag_set ∷ held_of full l)
takes_tags false clean = refl
takes_tags false one = refl
takes_tags false two = refl
takes_tags true clean = refl
takes_tags true one = refl
takes_tags true two = refl

takes_disk :
    (full : Bool) (l : Leak)
    → replay number (tag_set ∷ held_of full l) (acquire gendisk ∷ acquire added_disk ∷ [])
      ≡ some (added_disk ∷ gendisk ∷ tag_set ∷ held_of full l)
takes_disk false clean = refl
takes_disk false one = refl
takes_disk false two = refl
takes_disk true clean = refl
takes_disk true one = refl
takes_disk true two = refl

returns_disk :
    (full : Bool) (l : Leak)
    → replay number
        (tag_set ∷ held_of full l)
        (acquire gendisk ∷ release gendisk ∷ release tag_set ∷ [])
      ≡ some (held_of full l)
returns_disk false clean = refl
returns_disk false one = refl
returns_disk false two = refl
returns_disk true clean = refl
returns_disk true one = refl
returns_disk true two = refl

drops_tags :
    (full : Bool) (l : Leak)
    → replay number (tag_set ∷ held_of full l) (release tag_set ∷ []) ≡ some (held_of full l)
drops_tags false l = refl
drops_tags true l = refl

alloc_disk-cases :
    (full : Bool) (l : Leak) (k : RdmaKernel) (d : RdmaDriver)
    → Stage full d (held_of full l)
    → let (rc, d') = rdma_blkdev_alloc_disk k d in
      ((rc ≡ ok)
        × (d'.disk ≡ true)
        × Stage full d' (added_disk ∷ gendisk ∷ tag_set ∷ held_of full l))
      ⊎ ((e : ℕ) × (rc ≡ err e) × Stage full d' (held_of full l))
unfolding rdma_blkdev_alloc_disk
alloc_disk-cases full l k d s =
    let held = held_of full l in
    let tagged : RdmaDriver = record (note d (acquire tag_set ∷ [])) { disk = true } in
    let s1 =
      restage full true d held (tag_set ∷ held) (acquire tag_set ∷ []) s (takes_tags full l) in
    elim (Bool-cases (k.tag_set_rc == 0)) [
      | inr e ↦ rw (rdma_blkdev_alloc_disk, e) (inr (k.tag_set_rc, refl, s))
      | inl e1 ↦ elim (Bool-cases (k.disk_rc == 0)) [
        | inr e ↦
            rw (rdma_blkdev_alloc_disk, e1, e)
              (inr (
                k.disk_rc,
                refl,
                restage full true tagged (tag_set ∷ held) held (release tag_set ∷ []) s1
                    (drops_tags full l),
              ))
        | inl e2 ↦ elim (Bool-cases (k.add_rc == 0)) [
          | inr e ↦
              rw (rdma_blkdev_alloc_disk, e1, e2, e)
                (inr (
                  k.add_rc,
                  refl,
                  restage full true tagged (tag_set ∷ held) held
                      (acquire gendisk ∷ release gendisk ∷ release tag_set ∷ []) s1
                      (returns_disk full l),
                ))
          | inl e3 ↦
              rw (rdma_blkdev_alloc_disk, e1, e2, e3)
                (inl (
                  refl,
                  refl,
                  restage full true tagged (tag_set ∷ held) (added_disk ∷ gendisk ∷ tag_set ∷ held)
                      (acquire gendisk ∷ acquire added_disk ∷ []) s1 (takes_disk full l),
                ))
        ]
      ]
    ]

-- A module that has been loaded gives back everything when it is unloaded.
exit-Owns :
    (full : Bool) (l : Leak) (d : RdmaDriver)
    → d.disk ≡ true
    → Stage full d (added_disk ∷ gendisk ∷ tag_set ∷ held_of full l)
    → Owns (rdma_blkdev_exit d) (references l)
unfolding rdma_blkdev_exit rdma_blkdev_free_disk
exit-Owns full l d has_disk s =
    let es = release added_disk ∷ release gendisk ∷ release tag_set ∷ [] in
    let freed : RdmaDriver = record (note d es) { disk = false } in
    let s1 =
      restage full false d (added_disk ∷ gendisk ∷ tag_set ∷ held_of full l) (held_of full l) es s
        refl in
    let (h, there) = cleanup-Stage full l freed s1 in
    let e : rdma_blkdev_free_disk d ≡ freed = rw (rdma_blkdev_free_disk, has_disk) refl in
    let rest : RdmaDriver → RdmaDriver =
      λ x. rdma_free_dev (rdma_blkdev_free_ramdisk (rdma_blkdev_cleanup_rdma x)) in
    let runs : rdma_blkdev_exit d ≡ rdma_unregister (rest freed) =
      ap (λ b. rdma_unregister (if b then rest (rdma_blkdev_free_disk d) else d)) s.present
      ∙ ap (λ x. rdma_unregister (rest x)) e in
    subst (λ x. Owns x (references l)) (sym runs)
      (free-Owns l (rdma_blkdev_cleanup_rdma freed) h there)

disk_life :
    (k : RdmaKernel) (d : RdmaDriver)
    → (k.mapped == 0) ≡ false
    → Bare d (base clean)
    → Owns (ended (rdma_init_disk k d)) (references (leak_of k))
unfolding rdma_init_disk
disk_life k d mapped b =
    let l = leak_of k in
    let set_up = (rdma_blkdev_setup_rdma k d).1 in
    let (full, s) = setup-Stage k d mapped b in
    let d' = (rdma_blkdev_alloc_disk k set_up).1 in
    elim (alloc_disk-cases full l k set_up s) [
      | inl (e, has_disk, s') ↦
          let succeeds : rdma_init_disk k d ≡ (ok, d') = rw (rdma_init_disk, e) refl in
          subst (λ r. Owns (ended r) (references l)) (sym succeeds)
            (exit-Owns full l d' has_disk s')
      | inr (c, e, s') ↦
          let (h, there) = cleanup-Stage full l d' s' in
          let cleaned = rdma_blkdev_cleanup_rdma d' in
          let failing : rdma_init_disk k d
              ≡ (err c, rdma_unregister (rdma_free_dev (rdma_blkdev_free_ramdisk cleaned))) =
            rw (rdma_init_disk, e) refl in
          subst (λ r. Owns (ended r) (references l)) (sym failing) (free-Owns l cleaned h there)
    ]

-- Before the RAM disk is allocated, with its size, and after.
abbrev allocated : RdmaDriver
allocated = record unloaded { present = true; log = acquire blkdev ∷ acquire dev_memory ∷ [] }

abbrev sized : RdmaKernel → RdmaDriver
sized k = record allocated { ramdisk_size = k.device_size_mb * 2 ^ 20 % 2 ^ 64 }

abbrev backed : RdmaKernel → ℕ → RdmaDriver
backed k addr = record unloaded {
  present = true;
  ramdisk_addr = some addr;
  ramdisk_size = k.device_size_mb * 2 ^ 20 % 2 ^ 64;
  log = acquire blkdev ∷ acquire dev_memory ∷ acquire ramdisk ∷ [];
}

alloc_ramdisk-cases :
    (k : RdmaKernel)
    → ((k.vmalloc ≡ none) × (rdma_blkdev_alloc_ramdisk k allocated ≡ (err enomem, sized k)))
      ⊎ ((addr : ℕ) × (k.vmalloc ≡ some addr)
          × (rdma_blkdev_alloc_ramdisk k allocated ≡ (ok, backed k addr)))
unfolding rdma_blkdev_alloc_ramdisk
alloc_ramdisk-cases k = elim (Option-cases k.vmalloc) [
  | inl e ↦ inl (e, rw (rdma_blkdev_alloc_ramdisk, e) refl)
  | inr (addr, e) ↦ inr (addr, e, rw (rdma_blkdev_alloc_ramdisk, e) refl)
]

-- What is left in the end: the references that the search for a device has taken, if it came to that.
abbrev pub left_over : RdmaKernel → List Resource
left_over k =
    if k.register_rc == 0 && (k.kzalloc_ok && not (is_none k.vmalloc))
    then references (leak_of k)
    else []

abbrev left_searching : RdmaKernel → List Resource
left_searching k = if not (is_none k.vmalloc) then references (leak_of k) else []

dev_life :
    (k : RdmaKernel)
    → (k.mapped == 0) ≡ false
    → Owns (ended (rdma_init_dev k allocated)) (left_searching k)
unfolding rdma_init_dev
dev_life k mapped = elim (alloc_ramdisk-cases k) [
  | inl (nothing, e) ↦ rw (rdma_init_dev, e, e, nothing) refl
  | inr (addr, given, e) ↦
      let s : Bare (backed k addr) (base clean) = record {
        there = λ n. ground (arith, n);
        present = refl;
        ib_dev = refl;
        pd = refl;
        mr = refl;
        Holding = refl;
      } in
      let goes : rdma_init_dev k allocated ≡ rdma_init_disk k (backed k addr) =
        rw (rdma_init_dev, e, e) refl in
      let left : left_searching k ≡ references (leak_of k) =
        ap (λ o. if not (is_none o) then references (leak_of k) else []) given in
      subst (Owns (ended (rdma_init_dev k allocated))) (sym left) (
        subst (λ r. Owns (ended r) (references (leak_of k))) (sym goes)
          (disk_life k (backed k addr) mapped s))
]

-- From the registered number on.
abbrev started : RdmaKernel → Bool → Status × RdmaDriver
started k kzalloc_ok =
    if not kzalloc_ok
    then (err enomem, rdma_unregister (note unloaded (acquire blkdev ∷ [])))
    else rdma_init_dev k allocated

-- Whether loading fails, at whichever call, or succeeds and the module is unloaded later, it has in the
-- end given back all that it took, nothing twice and nothing that it did not hold, but for the
-- references of the first two calls of `ib_device_get_by_netdev`, where a mapping is never at the
-- address 0: the reference of the first call stays if that returns a device, and the one of the second
-- if it comes to that call and it returns one. With `ib_dev_name` set nothing stays.
pub module_life-Balanced :
    (k : RdmaKernel) → k.mapped ≢ 0 → replay number [] (module_life k).log ≡ some (left_over k)
unfolding module_life rdma_blkdev_init
module_life-Balanced k not_zero =
    let mapped : (k.mapped == 0) ≡ false = ground (arith, not_zero) in
    elim (Bool-cases (k.register_rc == 0)) [
      | inr e ↦ rw (module_life, rdma_blkdev_init, e) refl
      | inl e1 ↦ elim (Bool-cases k.kzalloc_ok) [
        | inr e ↦ rw (module_life, rdma_blkdev_init, e1, e) refl
        | inl e2 ↦
            let goes : rdma_blkdev_init k ≡ rdma_init_dev k allocated =
              ap (λ b. if not b then (err k.register_rc, unloaded) else started k k.kzalloc_ok) e1
              ∙ ap (started k) e2 in
            let left : left_over k ≡ left_searching k =
              ap
                (λ b.
                  if b && (k.kzalloc_ok && not (is_none k.vmalloc))
                  then references (leak_of k)
                  else [])
                e1
              ∙ ap (λ b. if b && not (is_none k.vmalloc) then references (leak_of k) else []) e2 in
            subst (λ r. Owns (ended r) (left_over k)) (sym goes)
              (subst (Owns (ended (rdma_init_dev k allocated))) (sym left) (dev_life k mapped))
      ]
    ]
