-- ===== src/KernelUrma/Lifecycle/Ledger.antt =====
-- What the driver holds, from the log of what it has taken and given back.
use ddr_direct_storage.Base.{
  ℕ, ◌≡◌, Bool, true, false, not, Option, some, List, [], ◌∷◌, ◌++◌, is_none,
}
use ddr_direct_storage.Ledger
pub use ddr_direct_storage.Ledger.{gives_back}
use ddr_direct_storage.KernelUrma.Driver.{
  Resource, blkdev, dev_memory, workqueue, ramdisk, ub_device, token, segment, tag_set, gendisk,
  added_disk, Event, Driver,
}

abbrev resource_no : Resource → ℕ
resource_no blkdev = 0
resource_no dev_memory = 1
resource_no workqueue = 2
resource_no ramdisk = 3
resource_no ub_device = 4
resource_no token = 5
resource_no segment = 6
resource_no tag_set = 7
resource_no gendisk = 8
resource_no added_disk = 9

abbrev pub is_held : List Resource → Resource → Bool
is_held held r = Ledger.is_held resource_no held r

abbrev pub after_event : List Resource → Event → Option (List Resource)
after_event held e = Ledger.after_event resource_no held e

abbrev pub replay : List Resource → List Event → Option (List Resource)
replay held es = Ledger.replay resource_no held es

abbrev pub Clean : Driver → Type 0
Clean d = (d.present ≡ false) × (replay [] d.log ≡ some [])

abbrev pub only_if : Bool → Resource → List Resource
only_if true r = r ∷ []
only_if false r = []

-- What the driver holds of URMA, and below it, from the newest on.
abbrev pub urma_holding : Driver → List Resource
urma_holding d =
    only_if d.dev.seg segment
    ++ only_if (not (is_none d.token_id)) token
    ++ only_if d.dev.ub_dev ub_device
    ++ ramdisk ∷ workqueue ∷ dev_memory ∷ blkdev ∷ []

pub replay-append :
    (h h' : List Resource) (l es : List Event)
    → replay h l ≡ some h'
    → replay h (l ++ es) ≡ replay h' es
replay-append h h' l es q = Ledger.replay-append resource_no h h' l es q
