-- ===== src/Ctrl/Tool/Running.antt =====
-- What a run of ramdiskctl has the daemon do.
use ddr_direct_storage.Base.{ℕ, Option, none, some, Bytes}
use ddr_direct_storage.Urma.System.{System}
use ddr_direct_storage.Ctrl.Command.{Command, CommandFits}

module _ (strtoull : Bytes → ℕ) where
  abbrev Fitting : Option Command → Type 0
  Fitting none = Unit {0}
  Fitting (some c) = CommandFits c
