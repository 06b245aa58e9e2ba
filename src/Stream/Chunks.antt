-- ===== src/Stream/Chunks.antt =====
-- How the bytes that arrive are cut into pieces does not matter to `read_full`.
use ddr_direct_storage.Base.{
  ℕ, zero, suc, ◌-◌, ◌≤◌, ◌<◌, ◌≡◌, refl, sym, ap, ◌∙◌, subst, inl, inr, false, List, [], ◌∷◌, ◌++◌,
  arith, leb, Bytes, length, take, drop, length-append, append_assoc, append-nil, take-append,
  drop-append, Bool-cases,
}
use ddr_direct_storage.Stream.{
  Arrival, got, intr, failed, Received, complete, at_end, leftover, read_loop, read_full, Conn,
  recv_full,
}

-- The bytes of a stream without errors, and that it has none: only bytes and signals.
abbrev pub content : List Arrival → Bytes
content [] = []
content (got bs ∷ es) = bs ++ content es
content (intr ∷ es) = content es
content (failed e ∷ es) = content es

abbrev pub Calm : List Arrival → Type 0
Calm [] = Unit {0}
Calm (got bs ∷ es) = (0 < length bs) × Calm es
Calm (intr ∷ es) = Calm es
Calm (failed e ∷ es) = ⊥

leftover-Calm : (bs : Bytes) (es : List Arrival) → Calm es → Calm (leftover bs es)
leftover-Calm [] es c = c
leftover-Calm (b ∷ bs) es c = (omega arith, c)

content-leftover : (bs : Bytes) (es : List Arrival) → content (leftover bs es) ≡ bs ++ content es
content-leftover [] es = refl
content-leftover (b ∷ bs) es = refl

take-of-append : (n : ℕ) (xs ys : Bytes) → n ≤ length xs → take n (xs ++ ys) ≡ take n xs
take-of-append zero xs ys h = refl
take-of-append (suc n) [] ys h = absurd (omega arith)
take-of-append (suc n) (x ∷ xs) ys h = ap (◌∷◌ x) (take-of-append n xs ys (omega arith))

drop-of-append : (n : ℕ) (xs ys : Bytes) → n ≤ length xs → drop n (xs ++ ys) ≡ drop n xs ++ ys
drop-of-append zero xs ys h = refl
drop-of-append (suc n) [] ys h = absurd (omega arith)
drop-of-append (suc n) (x ∷ xs) ys h = drop-of-append n xs ys (omega arith)

take-past :
    (n : ℕ) (xs ys : Bytes) → length xs ≤ n → take n (xs ++ ys) ≡ xs ++ take (n - length xs) ys
take-past n [] ys h = let e : n ≡ n - 0 = omega arith in ap (λ k. take k ys) e
take-past zero (x ∷ xs) ys h = absurd (omega arith)
take-past (suc n) (x ∷ xs) ys h =
    let e : n - length xs ≡ suc n - suc (length xs) = omega arith in
    ap (◌∷◌ x) (take-past n xs ys (omega arith) ∙ ap (λ k. xs ++ take k ys) e)

drop-past : (n : ℕ) (xs ys : Bytes) → length xs ≤ n → drop n (xs ++ ys) ≡ drop (n - length xs) ys
drop-past n [] ys h = let e : n ≡ n - 0 = omega arith in ap (λ k. drop k ys) e
drop-past zero (x ∷ xs) ys h = absurd (omega arith)
drop-past (suc n) (x ∷ xs) ys h =
    let e : n - length xs ≡ suc n - suc (length xs) = omega arith in
    drop-past n xs ys (omega arith) ∙ ap (λ k. drop k ys) e

-- What a calm stream gives to a loop that wants `n` bytes more.
abbrev Reads : Received × List Arrival → Bytes → Bytes → Type 0
Reads (r, rest) bytes left = (r ≡ complete bytes) × Calm rest × (content rest ≡ left)

read_loop-Calm :
    (es : List Arrival) (n : ℕ) (acc : Bytes)
    → Calm es
    → n ≤ length (content es)
    → Reads (read_loop es n acc) (acc ++ take n (content es)) (drop n (content es))
unfolding read_loop
read_loop-Calm es zero acc c h = (ap complete (sym (append-nil acc)), c, refl)
read_loop-Calm [] (suc n) acc c h = absurd (omega arith)
read_loop-Calm (intr ∷ es) (suc n) acc c h = read_loop-Calm es (suc n) acc c h
read_loop-Calm (failed e ∷ es) (suc n) acc c h = absurd c
read_loop-Calm (got [] ∷ es) (suc n) acc c h = absurd (omega (arith, c.0))
read_loop-Calm (got (b ∷ bs) ∷ es) (suc n) acc c h =
    elim (Bool-cases (leb (suc n) (length (b ∷ bs)))) [
      | inl enough ↦
          let fits : n ≤ length bs = ground arith in
          rw enough (
            ap (λ t. complete (acc ++ b ∷ t)) (sym (take-of-append n bs (content es) fits)),
            leftover-Calm (drop n bs) es c.1,
            content-leftover (drop n bs) es ∙ sym (drop-of-append n bs (content es) fits),
          )
      | inr short ↦
          let more : length bs ≤ n = ground arith in
          let rest =
            read_loop-Calm es (n - length bs) (acc ++ b ∷ bs) c.1
              (omega (arith, h, length-append bs (content es))) in
          rw short (
            rest.0
                ∙ ap complete (
                    append_assoc acc (b ∷ bs) (take (n - length bs) (content es))
                    ∙ ap (λ t. acc ++ b ∷ t) (sym (take-past n bs (content es) more))),
            rest.1,
            rest.2 ∙ sym (drop-past n bs (content es) more),
          )
    ]

-- A loop that wants more than a calm stream has.
read_loop_short :
    (es : List Arrival) (n : ℕ) (acc : Bytes)
    → Calm es
    → length (content es) < n
    → (read_loop es n acc).0 ≡ at_end (acc ++ content es)
unfolding read_loop
read_loop_short es zero acc c h = absurd (omega arith)
read_loop_short [] (suc n) acc c h = ap at_end (sym (append-nil acc))
read_loop_short (intr ∷ es) (suc n) acc c h = read_loop_short es (suc n) acc c h
read_loop_short (failed e ∷ es) (suc n) acc c h = absurd c
read_loop_short (got [] ∷ es) (suc n) acc c h = absurd (omega (arith, c.0))
read_loop_short (got (b ∷ bs) ∷ es) (suc n) acc c h =
    let size = length-append bs (content es) in
    let short : leb (suc n) (length (b ∷ bs)) ≡ false = ground (arith, h, size) in
    rw short (
      read_loop_short es (n - length bs) (acc ++ b ∷ bs) c.1 (omega (arith, h, size))
      ∙ ap at_end (append_assoc acc (b ∷ bs) (content es)))

-- However the bytes of a stream without errors arrive, and however often a signal interrupts,
-- `read_full` gives exactly the next `n` bytes and leaves exactly the others, if there are `n`; if
-- not, it reports the end of the input where nothing was left, and `EPIPE` where something was.
pub read_full_lem :
    (es : List Arrival) (n : ℕ)
    → Calm es
    → let (r, rest) = read_full es n in
      (n ≤ length (content es)
        → (r ≡ complete (take n (content es))) × Calm rest × (content rest ≡ drop n (content es)))
      × (length (content es) < n → r ≡ at_end (content es))
unfolding read_full
read_full_lem es n c = (λ h. read_loop-Calm es n [] c h, λ h. read_loop_short es n [] c h)

-- What stands for the bytes of a message and of what follows it.
abbrev pub Carries : List Arrival → Bytes → Type 0
Carries es bs = Calm es × (content es ≡ bs)

-- `message` has been read, `rest` is left, and nothing else has changed.
pub record Gets (r : Received) (conn' conn : Conn) (message rest : Bytes) : Type 0 where
  pub done : r ≡ complete message
  pub Left : Carries conn'.input rest
  pub sent : conn'.sent ≡ conn.sent
  pub room : conn'.room ≡ conn.room

-- Reading a message that is followed by `rest`.
pub recv_message :
    (conn : Conn) (n : ℕ) (message rest : Bytes)
    → length message ≡ n
    → Carries conn.input (message ++ rest)
    → let (r, conn') = recv_full conn n in Gets r conn' conn message rest
unfolding recv_full
recv_message conn n message rest size (c, e) =
    let enough : n ≤ length (content conn.input) =
      omega (arith, size, ap length e, length-append message rest) in
    let (r, calm, left) = (read_full_lem conn.input n c).0 enough in
    let front : take n (message ++ rest) ≡ message =
      subst (λ k. take k (message ++ rest) ≡ message) size (take-append message rest) in
    let back : drop n (message ++ rest) ≡ rest =
      subst (λ k. drop k (message ++ rest) ≡ rest) size (drop-append message rest) in
    record {
      done = r ∙ ap complete (ap (take n) e ∙ front);
      Left = (calm, left ∙ ap (drop n) e ∙ back);
      sent = refl;
      room = refl;
    }
