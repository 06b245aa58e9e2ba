-- ===== src/Layout/BigEndian.antt =====
-- Integers with the highest byte first, and the functions that turn the bytes of an integer around:
-- `ntohl` and `htonl` on a machine whose memory has the lowest byte first.
use ddr_direct_storage.Base.{
  ℕ, zero, suc, ◌+◌, ◌*◌, ◌/◌, ◌%◌, ◌<◌, ◌≡◌, refl, sym, ap, ◌∙◌, [], ◌∷◌, ◌++◌, arith, Bytes,
  length,
}
use ddr_direct_storage.Layout.{put_le, get_le, HasBytes}

abbrev pub put_be : ℕ → ℕ → Bytes
put_be zero v = []
put_be (suc w) v = put_be w (v / 256) ++ v % 256 ∷ []

-- With the number that the bytes before spell.
abbrev pub get_be_from : ℕ → Bytes → ℕ
get_be_from acc [] = acc
get_be_from acc (b ∷ bs) = get_be_from (acc * 256 + b) bs

abbrev pub get_be : Bytes → ℕ
get_be bs = get_be_from 0 bs

unfoldable pub swap_bytes : ℕ → ℕ → ℕ
swap_bytes w v = get_be (put_le w v)

abbrev pub AllBytes : Bytes → Type 0
AllBytes [] = Unit {0}
AllBytes (b ∷ bs) = (b < 256) × AllBytes bs

pub put_le-get_le : (bs : Bytes) → AllBytes bs → put_le (length bs) (get_le bs) ≡ bs
put_le-get_le [] a = refl
put_le-get_le (b ∷ bs) (h, a) =
    let low : (b + 256 * get_le bs) % 256 ≡ b = omega (arith, h) in
    let high : (b + 256 * get_le bs) / 256 ≡ get_le bs = omega (arith, h) in
    rw (low, high) (ap (◌∷◌ b) (put_le-get_le bs a))

-- An integer that lies in memory is turned into the one that its bytes spell from the front.
pub swap-get_le :
    (bs : Bytes) (w : ℕ) → length bs ≡ w → AllBytes bs → swap_bytes w (get_le bs) ≡ get_be bs
unfolding swap_bytes
swap-get_le bs w e a = ap get_be (ap (λ k. put_le k (get_le bs)) (sym e) ∙ put_le-get_le bs a)

get_be_from-append :
    (acc : ℕ) (xs bs : Bytes) → get_be_from acc (xs ++ bs) ≡ get_be_from (get_be_from acc xs) bs
get_be_from-append acc [] bs = refl
get_be_from-append acc (a ∷ xs) bs = get_be_from-append (acc * 256 + a) xs bs

pub get_be-put_be : (w v : ℕ) → HasBytes w v → get_be (put_be w v) ≡ v
get_be-put_be zero v h = sym h
get_be-put_be (suc w) v h =
    get_be_from-append 0 (put_be w (v / 256)) (v % 256 ∷ [])
    ∙ omega (arith, get_be-put_be w (v / 256) h)

append-AllBytes : (xs bs : Bytes) → AllBytes xs → AllBytes bs → AllBytes (xs ++ bs)
append-AllBytes [] bs p q = q
append-AllBytes (a ∷ xs) bs (h, p) q = (h, append-AllBytes xs bs p q)

pub put_be-AllBytes : (w v : ℕ) → AllBytes (put_be w v)
put_be-AllBytes zero v = tt
put_be-AllBytes (suc w) v =
    append-AllBytes (put_be w (v / 256)) (v % 256 ∷ []) (put_be-AllBytes w (v / 256))
      (omega arith, tt)
