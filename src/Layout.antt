-- ===== src/Layout.antt =====
-- The bytes of an unsigned integer in memory and on the wire, lowest byte first, as the compilers for
-- the machines that this code runs on lay it out, and highest byte first.
pub mod BigEndian
use ddr_direct_storage.Base.{
  ℕ, zero, suc, ◌+◌, ◌*◌, ◌/◌, ◌%◌, ◌^◌, ◌≤◌, ◌<◌, ◌≡◌, refl, sym, ap, ◌∙◌, List, [], ◌∷◌, ◌++◌,
  arith, Bytes, length, take, drop, slice, append_assoc, append-nil, length-append, subst,
  take-append,
}

-- The `w` bytes of `v`.
abbrev pub put_le : ℕ → ℕ → Bytes
put_le zero v = []
put_le (suc w) v = v % 256 ∷ put_le w (v / 256)

abbrev pub get_le : Bytes → ℕ
get_le [] = 0
get_le (b ∷ bs) = b + 256 * get_le bs

-- The unsigned integer of `w` bytes at `off`.
abbrev pub field_at : Bytes → ℕ → ℕ → ℕ
field_at bs off w = get_le (slice bs off w)

-- `v` has at most `w` bytes.
abbrev pub HasBytes : ℕ → ℕ → Type 0
HasBytes zero v = v ≡ 0
HasBytes (suc w) v = HasBytes w (v / 256)

pub get_le-put_le : (w v : ℕ) → HasBytes w v → get_le (put_le w v) ≡ v
get_le-put_le zero v h = omega (arith, h)
get_le-put_le (suc w) v h = omega (arith, get_le-put_le w (v / 256) h)

pub length-put_le : (w v : ℕ) → length (put_le w v) ≡ w
length-put_le zero v = refl
length-put_le (suc w) v = ap suc (length-put_le w (v / 256))

pub two_bytes : (v : ℕ) → v < 2 ^ 16 → HasBytes 2 v
two_bytes v h = omega arith

pub four_bytes : (v : ℕ) → v < 2 ^ 32 → HasBytes 4 v
four_bytes v h = omega arith

pub eight_bytes : (v : ℕ) → v < 2 ^ 64 → HasBytes 8 v
eight_bytes v h = omega arith

-- What lies `k` bytes behind a part `a`.
pub slice_behind : (a b : Bytes) (n k w : ℕ) → length a + k ≡ n → slice (a ++ b) n w ≡ slice b k w
slice_behind [] b n k w e = let same : n ≡ k = omega (arith, e) in ap (λ j. slice b j w) same
slice_behind (x ∷ a) b zero k w e = absurd (omega (arith, e))
slice_behind (x ∷ a) b (suc n) k w e = slice_behind a b n k w (omega (arith, e))

pub slice_front : (a b : Bytes) (n : ℕ) → length a ≡ n → slice (a ++ b) 0 n ≡ a
slice_front a b n e = subst (λ k. slice (a ++ b) 0 k ≡ a) e (take-append a b)
