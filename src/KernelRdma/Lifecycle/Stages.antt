-- ===== src/KernelRdma/Lifecycle/Stages.antt =====
-- What the module holds once RDMA is set up or not, and once it is cleaned up.
use ddr_direct_storage.Base.{
  ◌++◌, ℕ, ◌≡◌, ◌≢◌, refl, Bool, true, false, none, List, [], ◌∷◌, ◌==◌, arith, Option-cases, inl,
  inr, ◌⊎◌,
}
use ddr_direct_storage.Ledger.{release}
use ddr_direct_storage.KernelRdma.Lifecycle.{
  Resource, blkdev, dev_memory, ramdisk, ib_device, protection, region, mapping, RdmaKernel,
  RdmaDriver, note, Found, device, memory_only, fails, find_device, rdma_blkdev_setup_rdma,
  rdma_blkdev_cleanup_rdma, rdma_blkdev_free_ramdisk, rdma_free_dev, rdma_unregister,
}
use ddr_direct_storage.KernelRdma.Lifecycle.Region.{
  Leak, clean, references, leak_of, each, Owns, note-Owns, base, whole, Bare, Full, find-Bare,
  region-cases,
}

Found-cases : (f : Found) → (f ≡ device) ⊎ ((f ≡ memory_only) ⊎ ((e : ℕ) × (f ≡ fails e)))
Found-cases device = inl refl
Found-cases memory_only = inr (inl refl)
Found-cases (fails e) = inr (inr (e, refl))

setup-cases :
    (k : RdmaKernel) (d : RdmaDriver)
    → (k.mapped == 0) ≡ false
    → Bare d (base clean)
    → let d' = (rdma_blkdev_setup_rdma k d).1 in
      Bare d' (base (leak_of k)) ⊎ Full d' (whole (leak_of k))
unfolding rdma_blkdev_setup_rdma
setup-cases k d mapped b =
    let d1 = (find_device k d).1 in
    let found = find-Bare k d b in
    elim (Found-cases (find_device k d).0) [
      | inl e ↦ rw (rdma_blkdev_setup_rdma, e) (region-cases (leak_of k) k d1 mapped found)
      | inr (inl e) ↦
          rw (rdma_blkdev_setup_rdma, e)
            (inl (record {
              there = found.there;
              present = found.present;
              ib_dev = found.ib_dev;
              pd = found.pd;
              mr = found.mr;
              Holding = found.Holding;
            }))
      | inr (inr (c, e)) ↦ rw (rdma_blkdev_setup_rdma, e) (inl found)
    ]

-- Both at once: `full` says whether the RDMA part is set up.
abbrev pub held_of : Bool → Leak → List Resource
held_of false l = base l
held_of true l = whole l

pub record Stage (full : Bool) (d : RdmaDriver) (held : List Resource) : Type 0 where
  pub there : d.ramdisk_addr ≢ none
  pub present : d.present ≡ true
  pub ib_dev : d.ib_dev ≡ full
  pub pd : d.pd ≡ full
  pub mr : d.mr ≡ full
  pub iova : full ≡ true → (d.ramdisk_iova == 0) ≡ false
  pub Holding : Owns d held

pub setup-Stage :
    (k : RdmaKernel) (d : RdmaDriver)
    → (k.mapped == 0) ≡ false
    → Bare d (base clean)
    → (full : Bool) × Stage full (rdma_blkdev_setup_rdma k d).1 (held_of full (leak_of k))
setup-Stage k d mapped b = elim (setup-cases k d mapped b) [
  | inl s ↦ (
    false,
    record {
      there = s.there;
      present = s.present;
      ib_dev = s.ib_dev;
      pd = s.pd;
      mr = s.mr;
      iova = λ e. ground arith;
      Holding = s.Holding;
    },
  )
  | inr s ↦ (
    true,
    record {
      there = s.there;
      present = s.present;
      ib_dev = s.ib_dev;
      pd = s.pd;
      mr = s.mr;
      iova = λ e. s.iova;
      Holding = s.Holding;
    },
  )
]

pub cleanup-Stage :
    (full : Bool) (l : Leak) (d : RdmaDriver)
    → Stage full d (held_of full l)
    → Owns (rdma_blkdev_cleanup_rdma d) (base l)
      × ((rdma_blkdev_cleanup_rdma d).ramdisk_addr ≢ none)
unfolding rdma_blkdev_cleanup_rdma
cleanup-Stage false l d s = (
  rw (rdma_blkdev_cleanup_rdma, s.ib_dev, s.pd, s.mr)
      (note-Owns d (base l) (base l) [] s.Holding refl),
  s.there,
)
cleanup-Stage true l d s =
    let es = release mapping ∷ release region ∷ release protection ∷ release ib_device ∷ [] in
    (
      rw (rdma_blkdev_cleanup_rdma, s.ib_dev, s.pd, s.mr, s.iova refl)
          (note-Owns d (whole l) (base l) es s.Holding (each es whole base refl refl refl l)),
      s.there,
    )

abbrev without_ramdisk : Leak → List Resource
without_ramdisk x = references x ++ dev_memory ∷ blkdev ∷ []

abbrev number_only : Leak → List Resource
number_only x = references x ++ blkdev ∷ []

-- From there on only those references are left.
pub free-Owns :
    (l : Leak) (d : RdmaDriver)
    → Owns d (base l)
    → d.ramdisk_addr ≢ none
    → Owns (rdma_unregister (rdma_free_dev (rdma_blkdev_free_ramdisk d))) (references l)
unfolding rdma_blkdev_free_ramdisk
free-Owns l d h there = elim (Option-cases d.ramdisk_addr) [
  | inl nothing ↦ absurd (there nothing)
  | inr (addr, e) ↦
      let d1 = note d (release ramdisk ∷ []) in
      let h1 =
        note-Owns d (base l) (without_ramdisk l) (release ramdisk ∷ []) h
          (each (release ramdisk ∷ []) base without_ramdisk refl refl refl l) in
      let d2 = note d1 (release dev_memory ∷ []) in
      let h2 =
        note-Owns d1 (without_ramdisk l) (number_only l) (release dev_memory ∷ []) h1
          (each (release dev_memory ∷ []) without_ramdisk number_only refl refl refl l) in
      rw (rdma_blkdev_free_ramdisk, e)
        (note-Owns d2 (number_only l) (references l) (release blkdev ∷ []) h2
          (each (release blkdev ∷ []) number_only references refl refl refl l))
]
