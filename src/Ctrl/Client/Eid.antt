-- ===== src/Ctrl/Client/Eid.antt =====
-- `ramdisk_ctrl_parse_eid` of userspace-nbd/src/ramdisk_ctrl_client.c. A text is the list of its
-- characters, without the zero that ends it.
pub mod Alphabet
pub mod Decoding
use ddr_direct_storage.Base.{
  ℕ, suc, ◌+◌, ◌-◌, ◌*◌, ◌≤◌, ◌<◌, ◌≡◌, ◌≢◌, refl, sym, ap, ◌∙◌, subst, ◌⊎◌, inl, inr, Bool, true,
  false, ◌&&◌, ◌||◌, ◌==◌, leb, Option, none, some, List, [], ◌∷◌, ◌++◌, arith, if◌then◌else◌,
  Status, ok, err, Bytes, length, set, is_none, zeros, append_assoc, length-append, Bool-cases,
  Option-cases,
}
use ddr_direct_storage.Base.Errno.{einval}

-- `none` is the -1 of the code.
unfoldable pub hex_value : ℕ → Option ℕ
hex_value ch =
    if leb 48 ch && leb ch 57
    then some (ch - 48)
    else if leb 97 ch && leb ch 102
    then some (ch - 97 + 10)
    else if leb 65 ch && leb ch 70
    then some (ch - 65 + 10)
    else none

abbrev pub is_separator : ℕ → Bool
is_separator ch = ch == 58 || ch == 45 || ch == 46

-- The loop and the test behind it; `high` is `none` where the code has -1.
unfoldable pub parse_loop : Bytes → Option ℕ → ℕ → Bytes → Status × Bytes
unfolding hex_value
parse_loop [] high out eid = (if is_none high && out == 16 then ok else err einval, eid)
parse_loop (ch ∷ text) high out eid = elim (is_separator ch) [
  | true ↦ parse_loop text high out eid
  | false ↦ elim (hex_value ch) [
    | none ↦ (err einval, eid)
    | some v ↦ elim high [
      | none ↦ parse_loop text (some v) out eid
      | some h ↦ elim (leb 16 out) [
        | true ↦ (err einval, eid)
        | false ↦ parse_loop text none (suc out) (set eid out (h * 16 + v))
      ]
    ]
  ]
]

-- With `none` for `text`, the pointer is null; the caller's array is not.
unfoldable pub ramdisk_ctrl_parse_eid : Option Bytes → Bytes → Status × Bytes
unfolding parse_loop
ramdisk_ctrl_parse_eid none eid = (err einval, eid)
ramdisk_ctrl_parse_eid (some text) eid = parse_loop text none 0 (zeros 16)
