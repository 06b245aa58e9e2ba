-- ===== src/Stream/Sending.antt =====
-- How the bytes that are sent are cut into pieces does not matter.
use ddr_direct_storage.Base.{
  ℕ, zero, suc, ◌+◌, ◌≤◌, ◌≡◌, refl, sym, ap, ◌∙◌, false, List, [], ◌∷◌, ◌++◌, arith, ◌==◌, ok,
  Bytes, length, take, drop, length-append, append_assoc, append-nil, take-append-drop, length-drop,
}
use ddr_direct_storage.Stream.{
  Room, accepts, signal, refuses, Written, finished, write_full, Conn, send_full, send_both,
}

-- How often a socket accepts a byte or more.
abbrev pub turns : List Room → ℕ
turns [] = 0
turns (accepts zero ∷ rs) = turns rs
turns (accepts (suc n) ∷ rs) = suc (turns rs)
turns (signal ∷ rs) = turns rs
turns (refuses e ∷ rs) = turns rs

abbrev pub Open : List Room → Type 0
Open [] = Unit {0}
Open (accepts n ∷ rs) = Open rs
Open (signal ∷ rs) = Open rs
Open (refuses e ∷ rs) = ⊥

length-drop-suc : (n : ℕ) (b : ℕ) (bs : Bytes) → length (drop (suc n) (b ∷ bs)) ≤ length bs
length-drop-suc n b bs = omega (arith, length-drop n bs)

-- Where a socket without errors accepts a byte or more at least as often as there are bytes,
-- `write_full` sends all of them, however they are cut up, and takes no more than that many turns.
pub write_full_lem :
    (rs : List Room) (bs out : Bytes)
    → Open rs
    → length bs ≤ turns rs
    → (rs' : List Room) × (write_full rs bs out ≡ (finished ok, out ++ bs, rs'))
      × Open rs'
      × (turns rs ≤ turns rs' + length bs)
unfolding write_full
write_full_lem rs [] out o h =
    (rs, ap (λ t. (finished ok, t, rs)) (sym (append-nil out)), o, omega arith)
write_full_lem [] (b ∷ bs) out o h = absurd (omega arith)
write_full_lem (signal ∷ rs) (b ∷ bs) out o h = write_full_lem rs (b ∷ bs) out o h
write_full_lem (refuses e ∷ rs) (b ∷ bs) out o h = absurd o
write_full_lem (accepts zero ∷ rs) (b ∷ bs) out o h =
    let (rs', e, o', t) = write_full_lem rs (b ∷ bs) out o h in
    let same : out ++ [] ≡ out = append-nil out in (rs', rw same e, o', t)
write_full_lem (accepts (suc n) ∷ rs) (b ∷ bs) out o h =
    let fewer = length-drop-suc n b bs in
    let (rs', e, o', t) =
      write_full_lem rs (drop n bs) (out ++ b ∷ take n bs) o (omega (arith, h, fewer)) in
    (
      rs',
      e
          ∙ ap (λ l. (finished ok, l, rs'))
              (append_assoc out (b ∷ take n bs) (drop n bs)
                ∙ ap (λ l. out ++ b ∷ l) (take-append-drop n bs)),
      o',
      omega (arith, t, fewer),
    )

-- All of `bytes` have been sent, and nothing else has changed.
pub record Sends (w : Written) (conn' conn : Conn) (bytes : Bytes) : Type 0 where
  pub done : w ≡ finished ok
  pub sent : conn'.sent ≡ conn.sent ++ bytes
  pub input : conn'.input ≡ conn.input
  pub Still : Open conn'.room
  pub left : turns conn.room ≤ turns conn'.room + length bytes

-- Sending a message on such a socket.
pub send_message :
    (conn : Conn) (message : Bytes)
    → Open conn.room
    → length message ≤ turns conn.room
    → let (w, conn') = send_full conn message in Sends w conn' conn message
unfolding send_full
send_message conn message o h =
    let (rs', e, o', t) = write_full_lem conn.room message conn.sent o h in
    rw e (record { done = refl; sent = refl; input = refl; Still = o'; left = t })

-- One after the other.
pub Sends-trans :
    {w w' : Written} (c c' c'' : Conn) (first second : Bytes)
    → Sends w c' c first
    → Sends w' c'' c' second
    → Sends w' c'' c (first ++ second)
Sends-trans c c' c'' first second f g = record {
  done = g.done;
  sent = g.sent ∙ ap (λ l. l ++ second) f.sent ∙ append_assoc c.sent first second;
  input = g.input ∙ f.input;
  Still = g.Still;
  left = omega (arith, f.left, g.left, length-append first second);
}

-- Sending two of them.
pub send_both_lem :
    (conn : Conn) (first second : Bytes)
    → Open conn.room
    → length first + length second ≤ turns conn.room
    → let (w, conn') = send_both conn first second in Sends w conn' conn (first ++ second)
unfolding send_both
send_both_lem conn first [] o h =
    let f = send_message conn first o (omega (arith, h)) in
    rw (send_both, f.done, append-nil first)
      (record { done = refl; sent = f.sent; input = f.input; Still = f.Still; left = f.left })
send_both_lem conn first (b ∷ bs) o h =
    let f = send_message conn first o (omega (arith, h)) in
    let g = send_message (send_full conn first).1 (b ∷ bs) f.Still (omega (arith, h, f.left)) in
    let some_bytes : (length (b ∷ bs) == 0) ≡ false = ground arith in
    let both =
      Sends-trans conn (send_full conn first).1 (send_full (send_full conn first).1 (b ∷ bs)).1
        first (b ∷ bs) f g in
    rw (send_both, f.done, some_bytes) both
