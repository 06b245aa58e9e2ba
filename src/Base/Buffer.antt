-- ===== src/Base/Buffer.antt =====
-- Objects of bytes, and the `memcpy` and `memset` that the C code does on them. A copy that would
-- leave the object is `none`: it is undefined behaviour of the program.
use Prim.Native.Nat.{ℕ, zero, suc, ◌+◌, ◌≤◌}
use mathlib.Core.Path.{◌≡◌, refl, ap, subst}
use mathlib.Core.Logic.{◌⊎◌, inl, inr}
use mathlib.Core.List.{List, [], ◌∷◌}
use mathlib.Core.Option.{Option, none, some}
use native.Mathlib.Omega.{arith}
use mathlib.Core.Bool.{Bool, true, false, ◌&&◌}
use ddr_direct_storage.Base.Tests.{leb, if◌then◌else◌, ◌==◌}
use ddr_direct_storage.Base.Lists.{
  length, take, drop, replicate, length-take, length-drop, length-replicate, take_all,
}

abbrev pub Bytes : Type 0
Bytes = List ℕ

abbrev pub slice : Bytes → ℕ → ℕ → Bytes
slice m off len = take len (drop off m)

-- `bs` written over `m` from `off` on; what would leave `m` is cut off.
abbrev pub splice : Bytes → ℕ → Bytes → Bytes
splice [] off bs = []
splice (b ∷ m) zero [] = b ∷ m
splice (b ∷ m) zero (x ∷ bs) = x ∷ splice m zero bs
splice (b ∷ m) (suc off) bs = b ∷ splice m off bs

-- Reading `len` bytes at `off`.
unfoldable pub load : Bytes → ℕ → ℕ → Option Bytes
load m off len = if leb (off + len) (length m) then some (slice m off len) else none

-- Writing `bs` at `off`.
unfoldable pub store : Bytes → ℕ → Bytes → Option Bytes
store m off bs = if leb (off + length bs) (length m) then some (splice m off bs) else none

pub length-splice : (m : Bytes) (off : ℕ) (bs : Bytes) → length (splice m off bs) ≡ length m
length-splice [] off bs = refl
length-splice (b ∷ m) zero [] = refl
length-splice (b ∷ m) zero (x ∷ bs) = ap suc (length-splice m zero bs)
length-splice (b ∷ m) (suc off) bs = ap suc (length-splice m off bs)

pub length-slice : (m : Bytes) (off len : ℕ) → off + len ≤ length m → length (slice m off len) ≡ len
length-slice m off len h = omega (arith, length-take len (drop off m), length-drop off m)

-- What was written is read back.
pub slice-splice_self :
    (m : Bytes) (off : ℕ) (bs : Bytes)
    → off + length bs ≤ length m
    → slice (splice m off bs) off (length bs) ≡ bs
slice-splice_self [] zero [] h = refl
slice-splice_self [] zero (x ∷ bs) h = absurd (omega arith)
slice-splice_self [] (suc off) bs h = absurd (omega arith)
slice-splice_self (b ∷ m) zero [] h = refl
slice-splice_self (b ∷ m) zero (x ∷ bs) h = ap (◌∷◌ x) (slice-splice_self m zero bs (omega arith))
slice-splice_self (b ∷ m) (suc off) bs h = slice-splice_self m off bs (omega arith)

-- A range before the written one is as before.
slice-splice_before :
    (m : Bytes) (off : ℕ) (bs : Bytes) (o n : ℕ)
    → o + n ≤ off
    → slice (splice m off bs) o n ≡ slice m o n
slice-splice_before [] off bs o n h = refl
slice-splice_before (b ∷ m) zero bs zero zero h = refl
slice-splice_before (b ∷ m) zero bs zero (suc n) h = absurd (omega arith)
slice-splice_before (b ∷ m) zero bs (suc o) n h = absurd (omega arith)
slice-splice_before (b ∷ m) (suc off) bs zero zero h = refl
slice-splice_before (b ∷ m) (suc off) bs zero (suc n) h =
    ap (◌∷◌ b) (slice-splice_before m off bs zero n (omega arith))
slice-splice_before (b ∷ m) (suc off) bs (suc o) n h =
    slice-splice_before m off bs o n (omega arith)

-- So is a range behind it.
slice-splice_after :
    (m : Bytes) (off : ℕ) (bs : Bytes) (o n : ℕ)
    → off + length bs ≤ o
    → slice (splice m off bs) o n ≡ slice m o n
slice-splice_after [] off bs o n h = refl
slice-splice_after (b ∷ m) zero [] o n h = refl
slice-splice_after (b ∷ m) zero (x ∷ bs) zero n h = absurd (omega arith)
slice-splice_after (b ∷ m) zero (x ∷ bs) (suc o) n h =
    slice-splice_after m zero bs o n (omega arith)
slice-splice_after (b ∷ m) (suc off) bs zero n h = absurd (omega arith)
slice-splice_after (b ∷ m) (suc off) bs (suc o) n h = slice-splice_after m off bs o n (omega arith)

-- A write leaves alone every range that it does not meet.
pub slice-splice_disjoint :
    (m : Bytes) (off : ℕ) (bs : Bytes) (o n : ℕ)
    → (o + n ≤ off) ⊎ (off + length bs ≤ o)
    → slice (splice m off bs) o n ≡ slice m o n
slice-splice_disjoint m off bs o n (inl h) = slice-splice_before m off bs o n h
slice-splice_disjoint m off bs o n (inr h) = slice-splice_after m off bs o n h

pub slice_all : (m : Bytes) → slice m 0 (length m) ≡ m
slice_all m = take_all m

pub load-some :
    (m : Bytes) (off len : ℕ) → off + len ≤ length m → load m off len ≡ some (slice m off len)
unfolding load
load-some m off len h = ground arith

pub store-some :
    (m : Bytes) (off : ℕ) (bs : Bytes)
    → off + length bs ≤ length m
    → store m off bs ≡ some (splice m off bs)
unfolding store
store-some m off bs h = ground arith

-- What `memset(p, 0, n)` writes.
abbrev pub zeros : ℕ → Bytes
zeros n = replicate n 0

pub length-zeros : (n : ℕ) → length (zeros n) ≡ n
length-zeros n = length-replicate {A = ℕ} n 0

pub splice_all : (m bs : Bytes) → length bs ≡ length m → splice m 0 bs ≡ bs
splice_all [] [] h = refl
splice_all [] (x ∷ bs) h = absurd (omega arith)
splice_all (b ∷ m) [] h = absurd (omega arith)
splice_all (b ∷ m) (x ∷ bs) h = ap (◌∷◌ x) (splice_all m bs (omega arith))

pub slice-splice_eq :
    (m : Bytes) (off len : ℕ) (bs : Bytes)
    → length bs ≡ len
    → off + len ≤ length m
    → slice (splice m off bs) off len ≡ bs
slice-splice_eq m off len bs e h =
    subst (λ k. slice (splice m off bs) off k ≡ bs) e (slice-splice_self m off bs (omega arith))

-- Whether `strcmp` is 0, for texts without the zero that ends them.
abbrev pub strcmp_equal : Bytes → Bytes → Bool
strcmp_equal [] [] = true
strcmp_equal [] (b ∷ bs) = false
strcmp_equal (a ∷ as_) [] = false
strcmp_equal (a ∷ as_) (b ∷ bs) = a == b && strcmp_equal as_ bs
