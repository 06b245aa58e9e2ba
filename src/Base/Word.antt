-- ===== src/Base/Word.antt =====
-- The greatest values of the machine words, and products within them.
use Prim.Native.Nat.{ℕ, ◌-◌, ◌^◌, ◌*◌, ◌/◌, ◌<◌, ◌≤◌}
use mathlib.Core.Logic.{◌⊎◌, inl, inr}
use native.Mathlib.Omega.{arith}
use native.Mathlib.Nat.{le-div_iff_mul-le}
use native.Mathlib.Decide.{dec_le}

abbrev pub u64_max : ℕ
u64_max = 2 ^ 64 - 1

abbrev pub u32_max : ℕ
u32_max = 2 ^ 32 - 1

-- The overflow test by division, `x > U64_MAX / bs`, is exact.
pub fits_word :
    (x bs : ℕ)
    → 0 < bs
    → ((x ≤ u64_max / bs) × (x * bs ≤ u64_max)) ⊎ ((u64_max / bs < x) × (u64_max < x * bs))
fits_word x bs pos = elim (dec_le x (u64_max / bs)) [
  | yes p ↦ inl (p, (le-div_iff_mul-le pos).0 p)
  | no p ↦
      let above : ¬ (x * bs ≤ u64_max) = λ q. p ((le-div_iff_mul-le pos).1 q) in
      inr (omega arith, omega arith)
]
