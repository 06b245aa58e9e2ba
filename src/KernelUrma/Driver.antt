-- ===== src/KernelUrma/Driver.antt =====
-- The driver of kernel-urma/urma_blkdev.c and the steps of loading and unloading it. What the kernel
-- and ubcore answer is the record `Kernel`; every resource taken or given back is an event of the
-- driver's log.
pub use ddr_direct_storage.Ledger.{acquire, release}
use ddr_direct_storage.Ledger.{Event as LedgerEvent}
use ddr_direct_storage.Base.{
  ℕ, ◌*◌, ◌%◌, ◌^◌, Bool, true, false, not, Option, none, some, List, [], ◌∷◌, ◌++◌, ◌==◌,
  if◌then◌else◌, Status, ok, err, is_none,
}
use ddr_direct_storage.Base.Errno.{einval, enomem}
use ddr_direct_storage.KernelUrma.Device.{Device}
use ddr_direct_storage.KernelUrma.DirectIo.{urma_blkdev_init_io_queue, urma_blkdev_cleanup_io_queue}

pub data Resource : Type 0 where
  blkdev : Resource
  dev_memory : Resource
  workqueue : Resource
  ramdisk : Resource
  ub_device : Resource
  token : Resource
  segment : Resource
  tag_set : Resource
  gendisk : Resource
  added_disk : Resource

abbrev pub Event : Type 0
Event = LedgerEvent Resource

-- The module's parameters and what the calls out of the module answer. An error code is 0 on
-- success; `named` is the answer for the parameter `ub_dev_name`, if it is set, and `netdevs` are
-- those for the network devices in turn.
pub record Kernel : Type 0 where
  pub device_size_mb : ℕ
  pub queue_depth : ℕ
  pub register_rc : ℕ
  pub kzalloc_ok : Bool
  pub wq_ok : Bool
  pub vmalloc : Option ℕ
  pub named : Option Bool
  pub netdevs : List Bool
  pub virt_to_phys : Option ℕ → ℕ
  pub token_id : Option ℕ
  pub ubva : Option ℕ
  pub tag_set_rc : ℕ
  pub disk_rc : ℕ
  pub add_rc : ℕ

-- The global `urma_blkdev_dev`, if it is set (`present`), with the fields that the life cycle uses,
-- and the log.
pub record Driver : Type 0 where
  pub present : Bool
  pub dev : Device
  pub ramdisk_addr : Option ℕ
  pub token_id : Option ℕ
  pub token_id_val : ℕ
  pub disk : Bool
  pub log : List Event

abbrev pub note : Driver → Event → Driver
note d e = record d { log = d.log ++ e ∷ [] }

abbrev pub with_dev : Driver → Device → Driver
with_dev d dev = record d { dev = dev }

unfoldable pub init_io_queue : Kernel → Driver → Status × Driver
unfolding urma_blkdev_init_io_queue
init_io_queue k d =
    let (s, dev) = urma_blkdev_init_io_queue k.queue_depth k.wq_ok d.dev in
    elim s [
      | ok ↦ (ok, note (with_dev d dev) (acquire workqueue))
      | err e ↦ (err e, with_dev d dev)
    ]

-- `flush` is what queued work does to the device.
unfoldable pub cleanup_io_queue : (Device → Device) → Driver → Driver
cleanup_io_queue flush d =
    let stopped = with_dev d (urma_blkdev_cleanup_io_queue flush d.dev) in
    if d.dev.io_wq then note stopped (release workqueue) else stopped

unfoldable pub urma_blkdev_alloc_ramdisk : Kernel → Driver → Status × Driver
urma_blkdev_alloc_ramdisk k d =
    let sized =
      record (with_dev d (record d.dev { ramdisk_size = k.device_size_mb * 2 ^ 20 % 2 ^ 64 })) {
        ramdisk_addr = k.vmalloc;
      } in
    if is_none k.vmalloc then (err enomem, sized) else (ok, note sized (acquire ramdisk))

unfoldable pub urma_blkdev_free_ramdisk : Driver → Driver
urma_blkdev_free_ramdisk d =
    if is_none d.ramdisk_addr
    then d
    else record (note (with_dev d (record d.dev { ramdisk_size = 0 })) (release ramdisk)) {
      ramdisk_addr = none;
    }

-- The loop over the network devices, up to the first with a UB device.
abbrev pub any_netdev : List Bool → Bool
any_netdev [] = false
any_netdev (true ∷ answers) = true
any_netdev (false ∷ answers) = any_netdev answers

unfoldable pub urma_blkdev_find_device : Kernel → Bool
urma_blkdev_find_device k = elim k.named [ some found ↦ found | none ↦ any_netdev k.netdevs ]

-- The reference that `urma_blkdev_find_device` returns is kept in the device.
unfoldable pub take_device : Kernel → Driver → Driver
unfolding urma_blkdev_find_device
take_device k d =
    if urma_blkdev_find_device k
    then note (with_dev d (record d.dev { ub_dev = true })) (acquire ub_device)
    else with_dev d (record d.dev { ub_dev = false })

unfoldable pub urma_blkdev_setup_urma : Kernel → Driver → Status × Driver
urma_blkdev_setup_urma k d =
    if not d.dev.ub_dev
    then (
      ok,
      record (with_dev d (record d.dev { ubva_addr = k.virt_to_phys d.ramdisk_addr })) {
        token_id_val = 0;
      },
    )
    else elim k.token_id [
      | none ↦ (err enomem, record d { token_id = none })
      | some t ↦
          let d' = note (record d { token_id = some t; token_id_val = t }) (acquire token) in
          elim k.ubva [
            | none ↦ (
              err einval,
              note (record (with_dev d' (record d.dev { seg = false })) { token_id = none })
                  (release token),
            )
            | some va ↦ (
              ok,
              note (with_dev d' (record d.dev { seg = true; ubva_addr = va })) (acquire segment),
            )
          ]
    ]

abbrev pub unregister_seg : Driver → Driver
unregister_seg d =
    if d.dev.seg then note (with_dev d (record d.dev { seg = false })) (release segment) else d

abbrev pub free_token_id : Driver → Driver
free_token_id d =
    if is_none d.token_id then d else note (record d { token_id = none }) (release token)

abbrev pub put_device : Driver → Driver
put_device d =
    if d.dev.ub_dev
    then note (with_dev d (record d.dev { ub_dev = false })) (release ub_device)
    else d

unfoldable pub urma_blkdev_cleanup_urma : Driver → Driver
urma_blkdev_cleanup_urma d = put_device (free_token_id (unregister_seg d))

unfoldable pub urma_blkdev_alloc_disk : Kernel → Driver → Status × Driver
urma_blkdev_alloc_disk k d =
    if not (k.tag_set_rc == 0)
    then (err k.tag_set_rc, d)
    else let tagged = note d (acquire tag_set) in
      if not (k.disk_rc == 0)
      then (err k.disk_rc, note (record tagged { disk = true }) (release tag_set))
      else let made = note (record tagged { disk = true }) (acquire gendisk) in
        if not (k.add_rc == 0)
        then (err k.add_rc, note (note made (release gendisk)) (release tag_set))
        else (ok, note made (acquire added_disk))

unfoldable pub urma_blkdev_free_disk : Driver → Driver
urma_blkdev_free_disk d =
    note
      (if d.disk
        then record (note (note d (release added_disk)) (release gendisk)) { disk = false }
        else d)
      (release tag_set)
