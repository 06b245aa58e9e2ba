-- ===== src/KernelRdma/Lifecycle.antt =====
-- Loading and unloading the module of kernel/rdma_blkdev.c.
pub mod Region
pub mod Stages
pub mod Balance
use ddr_direct_storage.Base.{
  ℕ, ◌*◌, ◌%◌, ◌^◌, Bool, true, false, not, ◌&&◌, ◌||◌, Option, none, some, List, [], ◌∷◌, ◌++◌,
  ◌==◌, if◌then◌else◌, Status, ok, err, is_none, take,
}
use ddr_direct_storage.Base.Errno.{enomem, enodev, eio}
use ddr_direct_storage.Ledger.{Event, acquire, release, gives_back}

pub data Resource : Type 0 where
  blkdev : Resource
  dev_memory : Resource
  ramdisk : Resource
  dev_list : Resource
  ib_device : Resource
  protection : Resource
  region : Resource
  mapping : Resource
  tag_set : Resource
  gendisk : Resource
  added_disk : Resource
  first_reference : Resource
  second_reference : Resource

abbrev pub number : Resource → ℕ
number blkdev = 0
number dev_memory = 1
number ramdisk = 2
number dev_list = 3
number ib_device = 4
number protection = 5
number region = 6
number mapping = 7
number tag_set = 8
number gendisk = 9
number added_disk = 10
number first_reference = 11
number second_reference = 12

-- What the calls out of the module answer, an error code being 0 on success. `named` is the answer for
-- the parameter `ib_dev_name`, if that is set. `first` is the device that the first call of
-- `ib_device_get_by_netdev` returns, if it does: its pointer as the `int` that the code takes it for,
-- with 0 for one that is not positive; `second` says whether the call before the loop returns a device,
-- and `netdevs` the same of those in the loop. Every device that is returned comes with a reference. `mapped` is the address that `ib_dma_map_single` gives, `phys` the one of
-- `virt_to_phys`.
pub record RdmaKernel : Type 0 where
  pub device_size_mb : ℕ
  pub register_rc : ℕ
  pub kzalloc_ok : Bool
  pub vmalloc : Option ℕ
  pub named : Option Bool
  pub first : Option ℕ
  pub kmalloc_ok : Bool
  pub second : Bool
  pub netdevs : List Bool
  pub phys : ℕ
  pub pd_rc : ℕ
  pub mr_rc : ℕ
  pub mapped : ℕ
  pub mapping_error : Bool
  pub tag_set_rc : ℕ
  pub disk_rc : ℕ
  pub add_rc : ℕ

-- The global `rdma_blkdev_dev`, if it is set (`present`), with the fields that the life cycle reads, a
-- pointer being `true` where it is set; and the log. The keys of the region, which are only shown in
-- sysfs, are left out.
pub record RdmaDriver : Type 0 where
  pub present : Bool
  pub ramdisk_addr : Option ℕ
  pub ramdisk_size : ℕ
  pub ramdisk_iova : ℕ
  pub ib_dev : Bool
  pub pd : Bool
  pub mr : Bool
  pub disk : Bool
  pub log : List (Event Resource)

abbrev pub note : RdmaDriver → List (Event Resource) → RdmaDriver
note d es = record d { log = d.log ++ es }

-- What looking for a device gives.
pub data Found : Type 0 where
  device : Found
  memory_only : Found
  fails : ℕ → Found

abbrev pub any_device : List Bool → Bool
any_device [] = false
any_device (found ∷ rest) = found || any_device rest

abbrev pub takes : Bool → Resource → List (Event Resource)
takes true r = acquire r ∷ []
takes false r = []

-- Nothing gives back the references of the first two calls, whose results are not kept as devices.
unfoldable pub find_device : RdmaKernel → RdmaDriver → Found × RdmaDriver
find_device k d = elim k.named [
  | some true ↦ (device, d)
  | some false ↦ (fails enodev, d)
  | none ↦ elim k.first [
    | none ↦ (memory_only, d)
    | some count ↦
        let d1 = note d (acquire first_reference ∷ []) in
        if count == 0 then (memory_only, d1) else if not k.kmalloc_ok then (fails enomem, d1) else (
          if any_device (take count k.netdevs) then device else memory_only,
          note d1 (acquire dev_list ∷ (takes k.second second_reference ++ release dev_list ∷ [])),
        )
  ]
]

-- From the found device on; the error exits in their order.
unfoldable pub setup_region : RdmaKernel → RdmaDriver → Status × RdmaDriver
setup_region k d =
    let with_pd = record (note d (acquire protection ∷ [])) { pd = true } in
    let with_mr = record (note with_pd (acquire region ∷ [])) {
      mr = true;
      ramdisk_iova = k.mapped;
    } in
    if not (k.pd_rc == 0)
    then (err k.pd_rc, record (note d (release ib_device ∷ [])) { pd = false; ib_dev = false })
    else if not (k.mr_rc == 0)
    then (
      err k.mr_rc,
      record (note with_pd (release protection ∷ release ib_device ∷ [])) {
        mr = false;
        pd = false;
        ib_dev = false;
      },
    )
    else if k.mapping_error
    then (
      err eio,
      record (note with_mr (release region ∷ release protection ∷ release ib_device ∷ [])) {
        mr = false;
        pd = false;
        ib_dev = false;
      },
    )
    else (ok, note with_mr (acquire mapping ∷ []))

unfoldable pub rdma_blkdev_setup_rdma : RdmaKernel → RdmaDriver → Status × RdmaDriver
rdma_blkdev_setup_rdma k d =
    let (found, d') = find_device k d in
    elim found [
      | fails e ↦ (err e, d')
      | memory_only ↦ (ok, record d' { ramdisk_iova = k.phys })
      | device ↦ setup_region k (record (note d' (acquire ib_device ∷ [])) { ib_dev = true })
    ]

unfoldable pub rdma_blkdev_cleanup_rdma : RdmaDriver → RdmaDriver
rdma_blkdev_cleanup_rdma d =
    let maps = d.ib_dev && not (d.ramdisk_iova == 0) in
    record (note d (
      gives_back maps mapping
      ++ gives_back d.mr region
      ++ gives_back d.pd protection
      ++ gives_back d.ib_dev ib_device)) {
        ramdisk_iova = if maps then 0 else d.ramdisk_iova;
        mr = false;
        pd = false;
        ib_dev = false;
      }

-- The pointer keeps its value where the disk is given back, also if it is no pointer but an error.
unfoldable pub rdma_blkdev_alloc_disk : RdmaKernel → RdmaDriver → Status × RdmaDriver
rdma_blkdev_alloc_disk k d =
    if not (k.tag_set_rc == 0)
    then (err k.tag_set_rc, d)
    else let tagged = record (note d (acquire tag_set ∷ [])) { disk = true } in
      if not (k.disk_rc == 0)
      then (err k.disk_rc, note tagged (release tag_set ∷ []))
      else if not (k.add_rc == 0)
      then (err k.add_rc, note tagged (acquire gendisk ∷ release gendisk ∷ release tag_set ∷ []))
      else (ok, note tagged (acquire gendisk ∷ acquire added_disk ∷ []))

unfoldable pub rdma_blkdev_free_disk : RdmaDriver → RdmaDriver
rdma_blkdev_free_disk d =
    record (note d (
      (if d.disk then release added_disk ∷ release gendisk ∷ [] else []) ++ release tag_set ∷ [])) {
        disk = false;
      }

unfoldable pub rdma_blkdev_alloc_ramdisk : RdmaKernel → RdmaDriver → Status × RdmaDriver
rdma_blkdev_alloc_ramdisk k d =
    let sized = record d { ramdisk_size = k.device_size_mb * 2 ^ 20 % 2 ^ 64 } in
    elim k.vmalloc [
      | none ↦ (err enomem, sized)
      | some addr ↦ (ok, record (note sized (acquire ramdisk ∷ [])) { ramdisk_addr = some addr })
    ]

unfoldable pub rdma_blkdev_free_ramdisk : RdmaDriver → RdmaDriver
rdma_blkdev_free_ramdisk d =
    if is_none d.ramdisk_addr
    then d
    else record (note d (release ramdisk ∷ [])) { ramdisk_addr = none; ramdisk_size = 0 }

abbrev pub rdma_free_dev : RdmaDriver → RdmaDriver
rdma_free_dev d = record (note d (release dev_memory ∷ [])) { present = false }

abbrev pub rdma_unregister : RdmaDriver → RdmaDriver
rdma_unregister d = note d (release blkdev ∷ [])

abbrev pub unloaded : RdmaDriver
unloaded = record {
  present = false;
  ramdisk_addr = none;
  ramdisk_size = 0;
  ramdisk_iova = 0;
  ib_dev = false;
  pd = false;
  mr = false;
  disk = false;
  log = [];
}

-- From the allocated memory on. That RDMA cannot be set up is only a warning.
unfoldable pub rdma_init_disk : RdmaKernel → RdmaDriver → Status × RdmaDriver
rdma_init_disk k d =
    let set_up = (rdma_blkdev_setup_rdma k d).1 in
    let (rc, d') = rdma_blkdev_alloc_disk k set_up in
    elim rc [
      | ok ↦ (ok, d')
      | err e ↦ (
        err e,
        rdma_unregister (rdma_free_dev (rdma_blkdev_free_ramdisk (rdma_blkdev_cleanup_rdma d'))),
      )
    ]

-- From the allocated structure on.
unfoldable pub rdma_init_dev : RdmaKernel → RdmaDriver → Status × RdmaDriver
rdma_init_dev k d =
    let (rc, d') = rdma_blkdev_alloc_ramdisk k d in
    elim rc [ err e ↦ (err e, rdma_unregister (rdma_free_dev d')) | ok ↦ rdma_init_disk k d' ]

unfoldable pub rdma_blkdev_init : RdmaKernel → Status × RdmaDriver
rdma_blkdev_init k =
    let registered = note unloaded (acquire blkdev ∷ []) in
    if not (k.register_rc == 0)
    then (err k.register_rc, unloaded)
    else if not k.kzalloc_ok
    then (err enomem, rdma_unregister registered)
    else rdma_init_dev k (record (note registered (acquire dev_memory ∷ [])) { present = true })

unfoldable pub rdma_blkdev_exit : RdmaDriver → RdmaDriver
rdma_blkdev_exit d = rdma_unregister (
    if d.present
    then rdma_free_dev
        (rdma_blkdev_free_ramdisk (rdma_blkdev_cleanup_rdma (rdma_blkdev_free_disk d)))
    else d)

-- The module from loading to unloading; what could not be loaded is not unloaded.
abbrev pub ended : Status × RdmaDriver → RdmaDriver
ended (ok, d) = rdma_blkdev_exit d
ended (err e, d) = d

unfoldable pub module_life : RdmaKernel → RdmaDriver
module_life k = ended (rdma_blkdev_init k)
