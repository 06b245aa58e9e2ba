-- ===== src/Nbd/Args/Size.antt =====
-- `parse_size` of userspace-nbd/src/nbd_ramdisk.c: the number times its unit, within 64 bits.
use ddr_direct_storage.Base.{
  ℕ, ◌*◌, ◌/◌, ◌≤◌, ◌<◌, ◌≡◌, refl, inl, inr, true, false, none, some, [], ◌∷◌, arith, ltb, leb,
  if◌then◌else◌, Bool-cases, Option-cases, Bytes, u64_max, fits_word,
}
use ddr_direct_storage.Nbd.Args.{size_unit, parse_size}

size_unit_pos : (end : Bytes) (mul : ℕ) → size_unit end ≡ some mul → 0 < mul
unfolding size_unit
size_unit_pos [] mul e = ground arith
size_unit_pos (ch ∷ end) mul e = ground arith

-- A size is the number times its unit where that fits in 64 bits, and else 0, as for an unknown unit.
pub parse_size_lem :
    (strtoull : Bytes → ℕ × Bytes) (text : Bytes)
    → let (value, end) = strtoull text in
      (size_unit end ≡ none → parse_size strtoull text ≡ 0)
      × ((mul : ℕ)
          → size_unit end ≡ some mul
          → parse_size strtoull text ≡ (if leb (value * mul) u64_max then value * mul else 0))
unfolding parse_size
parse_size_lem strtoull text = (
  λ unknown. rw (parse_size, unknown) refl,
  λ mul known.
      let (value, end) = strtoull text in
      elim (fits_word value mul (size_unit_pos end mul known)) [
        | inl (small, fits) ↦
            let kept : ltb (u64_max / mul) value ≡ false = ground (arith, small) in
            let whole : leb (value * mul) u64_max ≡ true = ground (arith, fits) in
            rw (parse_size, known, kept, whole) refl
        | inr (large, over) ↦
            let lost : ltb (u64_max / mul) value ≡ true = ground (arith, large) in
            let above : leb (value * mul) u64_max ≡ false = ground (arith, over) in
            rw (parse_size, known, lost, above) refl
      ],
)

pub parse_size_bound :
    (strtoull : Bytes → ℕ × Bytes) (text : Bytes) → parse_size strtoull text ≤ u64_max
parse_size_bound strtoull text = elim (Option-cases (size_unit (strtoull text).1)) [
  | inl unknown ↦ omega (arith, (parse_size_lem strtoull text).0 unknown)
  | inr (mul, known) ↦
      let e = (parse_size_lem strtoull text).1 mul known in
      let value = (strtoull text).0 in
      elim (Bool-cases (leb (value * mul) u64_max)) [
        | inl fits ↦ rw (e, fits) (ground (arith, fits))
        | inr over ↦ rw (e, over) (omega arith)
      ]
]
