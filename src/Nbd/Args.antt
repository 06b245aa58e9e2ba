-- ===== src/Nbd/Args.antt =====
-- The command line of userspace-nbd/src/nbd_ramdisk.c. A text is the list of its characters, without
-- the zero that ends it. `strtoull`, `strtoul` and `getopt_long` are libc's: the first two are
-- parameters, and what the last one finds is a list of options.
pub mod Size
pub mod Bounds
use ddr_direct_storage.Base.{
  strcmp_equal, ℕ, ◌*◌, ◌/◌, ◌%◌, ◌^◌, ◌≤◌, ◌<◌, ◌≡◌, refl, sym, ap, ◌∙◌, inl, inr, ◌⊎◌, Bool, true,
  false, ◌||◌, ◌&&◌, Option, none, some, List, [], ◌∷◌, arith, ltb, ◌==◌, if◌then◌else◌, is_none,
  Bool-cases, Status, ok, err, Bytes, u64_max, u32_max, fits_word,
}
use ddr_direct_storage.Base.Errno.{einval}

-- The factor for what follows the digits: `K`, `M` and `G`, or the small letters; `none` for another.
unfoldable pub size_unit : Bytes → Option ℕ
size_unit [] = some 1
size_unit (ch ∷ end) =
    if strcmp_equal (ch ∷ end) (75 ∷ []) || strcmp_equal (ch ∷ end) (107 ∷ [])
    then some 1024
    else if strcmp_equal (ch ∷ end) (77 ∷ []) || strcmp_equal (ch ∷ end) (109 ∷ [])
    then some (1024 * 1024)
    else if strcmp_equal (ch ∷ end) (71 ∷ []) || strcmp_equal (ch ∷ end) (103 ∷ [])
    then some (1024 * 1024 * 1024)
    else none

-- `strtoull` gives a value and the text behind the number.
unfoldable pub parse_size : (Bytes → ℕ × Bytes) → Bytes → ℕ
unfolding size_unit
parse_size strtoull text =
    let (value, end) = strtoull text in
    elim (size_unit end) [
      | none ↦ 0
      | some mul ↦ if ltb (u64_max / mul) value then 0 else value * mul
    ]

-- `none` is the -1 of the code.
unfoldable pub parse_trans_mode : Bytes → Option ℕ
parse_trans_mode s =
    if strcmp_equal s (114 ∷ 109 ∷ [])
    then some 0
    else if strcmp_equal s (114 ∷ 99 ∷ [])
    then some 1
    else if strcmp_equal s (117 ∷ 109 ∷ [])
    then some 2
    else none

unfoldable pub parse_tp_type : Bytes → Option ℕ
parse_tp_type s =
    if strcmp_equal s (114 ∷ 116 ∷ 112 ∷ [])
    then some 0
    else if strcmp_equal s (99 ∷ 116 ∷ 112 ∷ [])
    then some 1
    else if strcmp_equal s (117 ∷ 116 ∷ 112 ∷ [])
    then some 2
    else none

-- What `getopt_long` returns: an option of the table with its argument, or another character.
pub data Opt : Type 0 where
  device : Bytes → Opt
  size : Bytes → Opt
  block_size : Bytes → Opt
  control_sock : Bytes → Opt
  enable_urma : Opt
  real_urma : Opt
  queue_depth : Bytes → Opt
  urma_eid : Bytes → Opt
  eid_index : Bytes → Opt
  urma_trans_mode : Bytes → Opt
  urma_tp_type : Bytes → Opt
  urma_token : Bytes → Opt
  help : Opt

-- The part of `struct daemon_ctx` that the command line sets.
pub record Args : Type 0 where
  pub device_ : Option Bytes
  pub control_sock_ : Bytes
  pub size_ : ℕ
  pub block_size_ : ℕ
  pub enable_urma_ : Bool
  pub use_mock_urma : Bool
  pub urma_eid_ : Option Bytes
  pub eid_index_ : ℕ
  pub urma_trans_mode_ : ℕ
  pub urma_tp_type_ : ℕ
  pub urma_token_ : ℕ
  pub queue_depth_ : ℕ

-- `/run/nbd-ramdisk/control.sock`.
abbrev pub default_sock : Bytes
default_sock =
    47 ∷ 114 ∷ 117 ∷ 110 ∷ 47 ∷ 110 ∷ 98 ∷ 100 ∷ 45 ∷ 114 ∷ 97 ∷ 109 ∷ 100 ∷ 105 ∷ 115 ∷ 107 ∷ 47
    ∷ 99 ∷ 111 ∷ 110 ∷ 116 ∷ 114 ∷ 111 ∷ 108 ∷ 46 ∷ 115 ∷ 111 ∷ 99 ∷ 107 ∷ []

abbrev pub defaults : Args
defaults = record {
  device_ = none;
  control_sock_ = default_sock;
  size_ = 0;
  block_size_ = 4096;
  enable_urma_ = false;
  use_mock_urma = false;
  urma_eid_ = none;
  eid_index_ = u32_max;
  urma_trans_mode_ = 0;
  urma_tp_type_ = 1;
  urma_token_ = 0xACFE;
  queue_depth_ = 32;
}

module _ (strtoull : Bytes → ℕ × Bytes) (strtoul : ℕ → Bytes → ℕ) where
  -- One turn of the loop; `none` is `return -EINVAL`. A `(uint32_t)` keeps the low 32 bits.
  unfoldable pub parse_opt : Args → Opt → Option Args
  unfolding parse_size parse_trans_mode parse_tp_type
  parse_opt a (device arg) = some (record a { device_ = some arg })
  parse_opt a (size arg) = some (record a { size_ = parse_size strtoull arg })
  parse_opt a (block_size arg) = some (record a { block_size_ = strtoul 10 arg % 2 ^ 32 })
  parse_opt a (control_sock arg) = some (record a { control_sock_ = arg })
  parse_opt a enable_urma = some (record a { enable_urma_ = true })
  parse_opt a real_urma = some (record a { use_mock_urma = false })
  parse_opt a (queue_depth arg) = some (record a { queue_depth_ = strtoul 10 arg % 2 ^ 32 })
  parse_opt a (urma_eid arg) = some (record a { urma_eid_ = some arg })
  parse_opt a (eid_index arg) = some (record a { eid_index_ = strtoul 0 arg % 2 ^ 32 })
  parse_opt a (urma_trans_mode arg) = elim (parse_trans_mode arg) [
    | none ↦ none
    | some mode ↦ some (record a { urma_trans_mode_ = mode })
  ]
  parse_opt a (urma_tp_type arg) = elim (parse_tp_type arg) [
    | none ↦ none
    | some type ↦ some (record a { urma_tp_type_ = type })
  ]
  parse_opt a (urma_token arg) = some (record a { urma_token_ = strtoul 0 arg % 2 ^ 32 })
  parse_opt a help = none

  unfoldable pub parse_opts : Args → List Opt → Option Args
  unfolding parse_opt
  parse_opts a [] = some a
  parse_opts a (opt ∷ opts) = elim (parse_opt a opt) [ none ↦ none | some a' ↦ parse_opts a' opts ]

  unfoldable pub parse_args : List Opt → Option Args
  unfolding parse_opts
  parse_args opts = elim (parse_opts defaults opts) [
    | none ↦ none
    | some a ↦ if is_none a.device_ || a.size_ == 0 then none else some a
  ]
