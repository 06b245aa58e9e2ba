-- ===== src/KernelRdma/Lifecycle/Region.antt =====
-- What the module holds while the memory region is set up: `setup_region`, with all its failures.
use ddr_direct_storage.Base.{
  ◌++◌, not, if◌then◌else◌, ◌≡◌, ◌≢◌, refl, ◌∙◌, true, false, none, some, List, [], ◌∷◌, ◌==◌,
  Bool-cases, Option-cases, inl, inr, ◌⊎◌,
}
use ddr_direct_storage.Ledger.{Event, acquire, release, replay, replay-append}
use ddr_direct_storage.KernelRdma.Lifecycle.{
  Resource, number, first_reference, second_reference, blkdev, dev_memory, ramdisk, dev_list,
  ib_device, protection, region, mapping, RdmaKernel, RdmaDriver, note, find_device, setup_region,
}

abbrev pub Owns : RdmaDriver → List Resource → Type 0
Owns d held = replay number [] d.log ≡ some held

pub note-Owns :
    (d : RdmaDriver) (held after : List Resource) (es : List (Event Resource))
    → Owns d held
    → replay number held es ≡ some after
    → Owns (note d es) after
note-Owns d held after es h q = replay-append number [] held d.log es h ∙ q

-- The references that the search for a device has taken, and that nothing gives back.
pub data Leak : Type 0 where
  clean : Leak
  one : Leak
  two : Leak

abbrev pub references : Leak → List Resource
references clean = []
references one = first_reference ∷ []
references two = second_reference ∷ first_reference ∷ []

-- A device is named; or the first call finds nothing, or a device whose number is not positive, or
-- there is no memory for the list; or the second call finds a device too.
abbrev pub leak_of : RdmaKernel → Leak
leak_of k = elim k.named [
  | some found ↦ clean
  | none ↦ elim k.first [
    | none ↦ clean
    | some count ↦
        if count == 0 then one else if not k.kmalloc_ok then one else if k.second then two else one
  ]
]

abbrev pub base : Leak → List Resource
base l = references l ++ ramdisk ∷ dev_memory ∷ blkdev ∷ []

abbrev with_device : Leak → List Resource
with_device l = ib_device ∷ base l

abbrev pub whole : Leak → List Resource
whole l = mapping ∷ region ∷ protection ∷ ib_device ∷ base l

-- What is taken and given back does not depend on the references.
pub each :
    (es : List (Event Resource)) (f g : Leak → List Resource)
    → replay number (f clean) es ≡ some (g clean)
    → replay number (f one) es ≡ some (g one)
    → replay number (f two) es ≡ some (g two)
    → (l : Leak) → replay number (f l) es ≡ some (g l)
each es f g a b c clean = a
each es f g a b c one = b
each es f g a b c two = c

-- The RDMA part is set up or not, and what is held goes with it.
pub record Bare (d : RdmaDriver) (held : List Resource) : Type 0 where
  pub there : d.ramdisk_addr ≢ none
  pub present : d.present ≡ true
  pub ib_dev : d.ib_dev ≡ false
  pub pd : d.pd ≡ false
  pub mr : d.mr ≡ false
  pub Holding : Owns d held

pub record Full (d : RdmaDriver) (held : List Resource) : Type 0 where
  pub there : d.ramdisk_addr ≢ none
  pub present : d.present ≡ true
  pub ib_dev : d.ib_dev ≡ true
  pub pd : d.pd ≡ true
  pub mr : d.mr ≡ true
  pub iova : (d.ramdisk_iova == 0) ≡ false
  pub Holding : Owns d held

noted-Bare :
    (d : RdmaDriver) (held after : List Resource) (es : List (Event Resource))
    → Bare d held
    → replay number held es ≡ some after
    → Bare (note d es) after
noted-Bare d held after es b q = record {
  there = b.there;
  present = b.present;
  ib_dev = b.ib_dev;
  pd = b.pd;
  mr = b.mr;
  Holding = note-Owns d held after es b.Holding q;
}

pub find-Bare :
    (k : RdmaKernel) (d : RdmaDriver)
    → Bare d (base clean)
    → Bare (find_device k d).1 (base (leak_of k))
unfolding find_device
find-Bare k d b = elim (Option-cases k.named) [
  | inr (true, e) ↦ rw (find_device, leak_of, e) b
  | inr (false, e) ↦ rw (find_device, leak_of, e) b
  | inl e ↦ elim (Option-cases k.first) [
    | inl nothing ↦ rw (find_device, leak_of, e, nothing) b
    | inr (count, first) ↦
        let d1 = note d (acquire first_reference ∷ []) in
        let b1 = noted-Bare d (base clean) (base one) (acquire first_reference ∷ []) b refl in
        elim (Bool-cases (count == 0)) [
          | inl zero_ ↦ rw (find_device, leak_of, e, first, zero_) b1
          | inr more ↦ elim (Bool-cases k.kmalloc_ok) [
            | inr n ↦ rw (find_device, leak_of, e, first, more, n) b1
            | inl y ↦ elim (Bool-cases k.second) [
              | inl twice ↦
                  rw (find_device, leak_of, e, first, more, y, twice)
                    (noted-Bare d1 (base one) (base two)
                      (acquire dev_list ∷ acquire second_reference ∷ release dev_list ∷ []) b1 refl)
              | inr once ↦
                  rw (find_device, leak_of, e, first, more, y, once)
                    (noted-Bare d1 (base one) (base one) (acquire dev_list ∷ release dev_list ∷ [])
                      b1 refl)
            ]
          ]
        ]
  ]
]

-- The device, the protection domain, the region and the mapping, taken and given back in turn.
module _ (l : Leak) (d : RdmaDriver) (b : Bare d (base l)) where
  got_device : Owns (note d (acquire ib_device ∷ [])) (with_device l)
  got_device =
      note-Owns d (base l) (with_device l) (acquire ib_device ∷ []) b.Holding
        (each (acquire ib_device ∷ []) base with_device refl refl refl l)

  got_domain :
      Owns
        (note (note d (acquire ib_device ∷ [])) (acquire protection ∷ []))
        (protection ∷ with_device l)
  got_domain =
      note-Owns (note d (acquire ib_device ∷ [])) (with_device l) (protection ∷ with_device l)
        (acquire protection ∷ []) got_device
        (each (acquire protection ∷ []) with_device (λ x. protection ∷ with_device x) refl refl refl
          l)

  got_region :
      Owns
        (note
          (note (note d (acquire ib_device ∷ [])) (acquire protection ∷ []))
          (acquire region ∷ []))
        (region ∷ protection ∷ with_device l)
  got_region =
      note-Owns (note (note d (acquire ib_device ∷ [])) (acquire protection ∷ []))
        (protection ∷ with_device l) (region ∷ protection ∷ with_device l) (acquire region ∷ [])
        got_domain
        (each (acquire region ∷ []) (λ x. protection ∷ with_device x)
          (λ x. region ∷ protection ∷ with_device x) refl refl refl l)

pub region-cases :
    (l : Leak) (k : RdmaKernel) (d : RdmaDriver)
    → (k.mapped == 0) ≡ false
    → Bare d (base l)
    → let d' = (setup_region k (record (note d (acquire ib_device ∷ [])) { ib_dev = true })).1 in
      Bare d' (base l) ⊎ Full d' (whole l)
unfolding setup_region
region-cases l k d mapped b =
    let d1 = note d (acquire ib_device ∷ []) in
    let d2 = note d1 (acquire protection ∷ []) in
    let d3 = note d2 (acquire region ∷ []) in
    elim (Bool-cases (k.pd_rc == 0)) [
      | inr e1 ↦
          let h =
            note-Owns d1 (with_device l) (base l) (release ib_device ∷ []) (got_device l d b)
              (each (release ib_device ∷ []) with_device base refl refl refl l) in
          rw (setup_region, e1)
            (inl (record {
              there = b.there;
              present = b.present;
              ib_dev = refl;
              pd = refl;
              mr = b.mr;
              Holding = h;
            }))
      | inl e1 ↦ elim (Bool-cases (k.mr_rc == 0)) [
        | inr e2 ↦
            let h =
              note-Owns d2 (protection ∷ with_device l) (base l)
                (release protection ∷ release ib_device ∷ []) (got_domain l d b)
                (each (release protection ∷ release ib_device ∷ [])
                  (λ x. protection ∷ with_device x) base refl refl refl l) in
            rw (setup_region, e1, e2)
              (inl (record {
                there = b.there;
                present = b.present;
                ib_dev = refl;
                pd = refl;
                mr = refl;
                Holding = h;
              }))
        | inl e2 ↦ elim (Bool-cases k.mapping_error) [
          | inl e3 ↦
              let h =
                note-Owns d3 (region ∷ protection ∷ with_device l) (base l)
                  (release region ∷ release protection ∷ release ib_device ∷ []) (got_region l d b)
                  (each (release region ∷ release protection ∷ release ib_device ∷ [])
                    (λ x. region ∷ protection ∷ with_device x) base refl refl refl l) in
              rw (setup_region, e1, e2, e3)
                (inl (record {
                  there = b.there;
                  present = b.present;
                  ib_dev = refl;
                  pd = refl;
                  mr = refl;
                  Holding = h;
                }))
          | inr e3 ↦
              let h =
                note-Owns d3 (region ∷ protection ∷ with_device l) (whole l) (acquire mapping ∷ [])
                  (got_region l d b)
                  (each (acquire mapping ∷ []) (λ x. region ∷ protection ∷ with_device x) whole refl
                    refl refl l) in
              rw (setup_region, e1, e2, e3)
                (inr (record {
                  there = b.there;
                  present = b.present;
                  ib_dev = refl;
                  pd = refl;
                  mr = refl;
                  iova = mapped;
                  Holding = h;
                }))
        ]
      ]
    ]
