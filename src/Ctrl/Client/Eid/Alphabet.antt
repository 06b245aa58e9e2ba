-- ===== src/Ctrl/Client/Eid/Alphabet.antt =====
-- The characters of a text that spells an EID, by where they stand in the alphabet of hexadecimal
-- digits, and `hex_value` of userspace-nbd/src/ramdisk_ctrl_client.c.
use ddr_direct_storage.Base.{
  ℕ, suc, ◌≡◌, Bool, true, false, Option, none, some, List, [], ◌∷◌, ◌==◌, if◌then◌else◌, arith,
  codes,
}
use ddr_direct_storage.Ctrl.Client.Eid.{hex_value, is_separator}

-- Where a character stands in a list.
abbrev position : ℕ → List ℕ → Option ℕ
position ch [] = none
position ch (x ∷ xs) =
    if ch == x then some 0 else elim (position ch xs) [ none ↦ none | some n ↦ some (suc n) ]

-- The value of a hexadecimal digit, in small or in capital letters.
abbrev pub digit_value : ℕ → Option ℕ
digit_value ch = elim (position ch (codes "0123456789abcdef")) [
  | some v ↦ some v
  | none ↦ position ch (codes "0123456789ABCDEF")
]

abbrev pub separates : ℕ → Bool
separates ch = elim (position ch (codes ":-.")) [ some n ↦ true | none ↦ false ]

pub hex_value_lem : (ch : ℕ) → hex_value ch ≡ digit_value ch
unfolding hex_value
hex_value_lem ch = ground arith

pub is_separator_lem : (ch : ℕ) → is_separator ch ≡ separates ch
is_separator_lem ch = ground arith
