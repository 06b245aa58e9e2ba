-- ===== src/KernelUrma/Lifecycle.antt =====
-- Loading and unloading the module of kernel-urma/urma_blkdev.c.
pub mod Ledger
pub mod Stages
pub mod Failure
pub mod Load
pub mod Unload
pub mod Session
use ddr_direct_storage.Base.{
  ℕ, ◌*◌, ◌%◌, ◌^◌, Bool, true, false, not, Option, none, some, List, [], ◌∷◌, ◌++◌, ◌==◌,
  if◌then◌else◌, Status, ok, err, is_none,
}
use ddr_direct_storage.Base.Errno.{einval, enomem}
use ddr_direct_storage.KernelUrma.Device.{Device}
use ddr_direct_storage.KernelUrma.DirectIo.{urma_blkdev_init_io_queue, urma_blkdev_cleanup_io_queue}
use ddr_direct_storage.KernelUrma.Driver.{
  Driver, Event, Kernel, Resource, acquire, added_disk, any_netdev, blkdev, cleanup_io_queue,
  dev_memory, free_token_id, gendisk, init_io_queue, note, put_device, ramdisk, release, segment,
  tag_set, take_device, token, ub_device, unregister_seg, urma_blkdev_alloc_disk,
  urma_blkdev_alloc_ramdisk, urma_blkdev_cleanup_urma, urma_blkdev_find_device,
  urma_blkdev_free_disk, urma_blkdev_free_ramdisk, urma_blkdev_setup_urma, with_dev, workqueue,
}

-- `kfree(urma_blkdev_dev); urma_blkdev_dev = NULL;` and `unregister_blkdev`.
abbrev pub free_dev : Driver → Driver
free_dev d = record (note d (release dev_memory)) { present = false }

abbrev pub unregister : Driver → Driver
unregister d = note d (release blkdev)

-- From the found device on: URMA, where a failure is only a warning, and the disk.
unfoldable pub init_disk : (Device → Device) → Kernel → Driver → Status × Driver
unfolding urma_blkdev_setup_urma urma_blkdev_alloc_disk
init_disk flush k d =
    let (ignored, d') = urma_blkdev_setup_urma k (take_device k d) in
    let (s, ended) = urma_blkdev_alloc_disk k d' in
    elim s [
      | ok ↦ (ok, ended)
      | err e ↦ (
        err e,
        unregister (
            free_dev
              (cleanup_io_queue flush (urma_blkdev_free_ramdisk (urma_blkdev_cleanup_urma ended)))),
      )
    ]

-- From the allocated structure on.
unfoldable pub init_dev : (Device → Device) → Kernel → Driver → Status × Driver
unfolding init_io_queue urma_blkdev_alloc_ramdisk init_disk
init_dev flush k d =
    let (s, queued) = init_io_queue k d in
    let (t, backed) = urma_blkdev_alloc_ramdisk k queued in
    elim s [
      | err e ↦ (err e, unregister (free_dev queued))
      | ok ↦ elim t [
        | err e ↦ (err e, unregister (free_dev (cleanup_io_queue flush backed)))
        | ok ↦ init_disk flush k backed
      ]
    ]

-- After `kzalloc`.
abbrev pub zeroed : Device
zeroed = record {
  ramdisk_size = 0;
  ubva_addr = 0;
  ub_dev = false;
  seg = false;
  io_wq = false;
  pending_list = [];
  inflight_reqs = [];
  pending = 0;
  inflight = 0;
  next_wr_id = 0;
  queue_depth = 0;
  stopping = false;
  completions = [];
  module_refs = 0;
}

abbrev pub unloaded : Driver
unloaded = record {
  present = false;
  dev = zeroed;
  ramdisk_addr = none;
  token_id = none;
  token_id_val = 0;
  disk = false;
  log = [];
}

unfoldable pub urma_blkdev_init : (Device → Device) → Kernel → Status × Driver
unfolding init_dev
urma_blkdev_init flush k =
    if not (k.register_rc == 0)
    then (err k.register_rc, unloaded)
    else if not k.kzalloc_ok
    then (err enomem, unregister (note unloaded (acquire blkdev)))
    else init_dev flush k
        (note (record (note unloaded (acquire blkdev)) { present = true }) (acquire dev_memory))

unfoldable pub urma_blkdev_exit : (Device → Device) → Driver → Driver
unfolding cleanup_io_queue urma_blkdev_free_disk urma_blkdev_cleanup_urma urma_blkdev_free_ramdisk
urma_blkdev_exit flush d = unregister (
    if d.present
    then free_dev (
        urma_blkdev_free_ramdisk
          (urma_blkdev_cleanup_urma (urma_blkdev_free_disk (cleanup_io_queue flush d))))
    else d)
