-- ===== src/KernelUrma/Lifecycle/Unload.antt =====
-- Unloading the driver after it has been loaded and used.
use ddr_direct_storage.Base.{
  ◌≡◌, ap, ◌∙◌, not, some, List, [], ◌∷◌, ◌++◌, arith, is_none, append_assoc,
}
use ddr_direct_storage.KernelUrma.Device.{Device}
use ddr_direct_storage.KernelUrma.DirectIo.{urma_blkdev_cleanup_io_queue}
use ddr_direct_storage.KernelUrma.Driver.{
  blkdev, dev_memory, workqueue, ramdisk, ub_device, token, segment, tag_set, gendisk, added_disk,
  Event, release, Driver, urma_blkdev_cleanup_urma, urma_blkdev_free_disk, urma_blkdev_free_ramdisk,
  cleanup_io_queue,
}
use ddr_direct_storage.KernelUrma.Lifecycle.{urma_blkdev_exit}
use ddr_direct_storage.KernelUrma.Lifecycle.Ledger.{replay, replay-append, gives_back, Clean}
use ddr_direct_storage.KernelUrma.Lifecycle.Load.{Loaded, holding}

-- What unloading gives back, in its order.
abbrev exit_events : Driver → List Event
exit_events d =
    release workqueue
      ∷ release added_disk
      ∷ release gendisk
      ∷ release tag_set
      ∷ gives_back d.dev.seg segment
    ++ gives_back (not (is_none d.token_id)) token
    ++ gives_back d.dev.ub_dev ub_device
    ++ release ramdisk ∷ release dev_memory ∷ release blkdev ∷ []

exit-log :
    (flush : Device → Device) (d : Driver)
    → let ended = urma_blkdev_cleanup_io_queue flush d.dev in
      Loaded d
      → ended.seg ≡ d.dev.seg
      → ended.ub_dev ≡ d.dev.ub_dev
      → (urma_blkdev_exit flush d).log ≡ d.log ++ exit_events d
unfolding urma_blkdev_exit cleanup_io_queue urma_blkdev_free_disk urma_blkdev_cleanup_urma
    urma_blkdev_free_ramdisk
exit-log flush d o s u =
    grind (arith, o.is_present, o.has_disk, o.has_queue, o.has_memory, append_assoc)

exit_events_balance : (d : Driver) → replay (holding d) (exit_events d) ≡ some []
exit_events_balance d = ground arith

pub exit-Clean :
    (flush : Device → Device) (d : Driver)
    → let ended = urma_blkdev_cleanup_io_queue flush d.dev in
      Loaded d
      → ended.seg ≡ d.dev.seg
      → ended.ub_dev ≡ d.dev.ub_dev
      → Clean (urma_blkdev_exit flush d)
unfolding urma_blkdev_exit
exit-Clean flush d o s u = (
  ground (arith, o.is_present),
  ap (replay []) (exit-log flush d o s u)
      ∙ replay-append [] (holding d) d.log (exit_events d) o.holds
      ∙ exit_events_balance d,
)

pub exit-completions :
    (flush : Device → Device) (d : Driver)
    → Loaded d
    → (urma_blkdev_exit flush d).dev.completions
      ≡ (urma_blkdev_cleanup_io_queue flush d.dev).completions
unfolding urma_blkdev_exit cleanup_io_queue urma_blkdev_free_disk urma_blkdev_cleanup_urma
    urma_blkdev_free_ramdisk
exit-completions flush d o = ground (arith, o.is_present, o.has_queue)
