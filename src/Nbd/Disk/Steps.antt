-- ===== src/Nbd/Disk/Steps.antt =====
-- The pieces of a turn of `serve_nbd` where nothing fails.
use ddr_direct_storage.Base.{
  Bool, not, ◌||◌, is_none, sym, ap, [], ◌∷◌, ℕ, ◌<◌, ◌≤◌, ◌≡◌, ◌^◌, refl, ◌∙◌, inl, inr, true,
  false, none, some, ◌++◌, arith, ltb, leb, ◌==◌, Bool-cases, Status, ok, Bytes, length, slice,
  splice, load, load-some, length-splice, slice-splice_self,
}
use ddr_direct_storage.Stream.{Conn, finished, complete, recv_full, send_full}
use ddr_direct_storage.Stream.Chunks.{Carries, recv_message}
use ddr_direct_storage.Stream.Sending.{Open, turns, Sends, send_message}
use ddr_direct_storage.Nbd.Wire.{NbdRequest, wire_reply, error_of, reply_bytes_lem}
use ddr_direct_storage.Nbd.Serve.{
  Daemon, Round, again, send_reply, reply_or_out, grow, send_data, read_into,
}

-- The buffer has `buf_cap` bytes; where there is none, that is 0.
pub data HasBuf (d : Daemon) : Type 0 where
  empty : d.buf ≡ none → d.buf_cap ≡ 0 → HasBuf d
  holds : (m : Bytes) → d.buf ≡ some m → length m ≡ d.buf_cap → HasBuf d

-- `realloc` gives an object of `len` bytes.
abbrev pub Gives : Round → ℕ → Type 0
Gives round len = (m : Bytes) × (round.new_buf ≡ some m) × (length m ≡ len)

-- A buffer of at least `len` bytes.
abbrev pub Roomy : Daemon → ℕ → Type 0
Roomy d len = (m : Bytes) × (d.buf ≡ some m) × (length m ≡ d.buf_cap) × (len ≤ length m)

abbrev pub has_buf : Daemon → Bool
has_buf d = not (is_none d.buf)

-- The buffer for a request of this length, where it has one or it is not needed.
pub data Ready (d : Daemon) (len : ℕ) (ready : Bool) : Type 0 where
  roomy : ready ≡ true → Roomy d len → Ready d len ready
  bare : ready ≡ false → d.buf ≡ none → d.buf_cap ≡ 0 → len ≡ 0 → Ready d len ready

pub Ready-HasBuf : (d : Daemon) (len : ℕ) (ready : Bool) → Ready d len ready → HasBuf d
Ready-HasBuf d len ready (roomy e (m, there, cap, fits)) = holds m there cap
Ready-HasBuf d len ready (bare e there cap none_) = empty there cap

pub Ready-has_buf : (d : Daemon) (len : ℕ) (ready : Bool) → Ready d len ready → has_buf d ≡ ready
Ready-has_buf d len ready (roomy e (m, there, cap, fits)) = ap (λ o. not (is_none o)) there ∙ sym e
Ready-has_buf d len ready (bare e there cap none_) = ap (λ o. not (is_none o)) there ∙ sym e

pub reply_lem :
    (d : Daemon) (req : NbdRequest) (rc : Status)
    → length req.handle ≡ 8
    → error_of rc < 2 ^ 32
    → Open d.conn.room
    → 16 ≤ turns d.conn.room
    → (conn : Conn) × (reply_or_out d req rc ≡ (again, record d { conn = conn }))
      × Sends (finished ok) conn d.conn (wire_reply req.handle (error_of rc))
unfolding reply_or_out send_reply
reply_lem d req rc size small o h =
    let message = wire_reply req.handle (error_of rc) in
    let out = send_message d.conn message o (omega (arith, h, size)) in
    let conn = (send_full d.conn message).1 in
    (
      conn,
      rw (reply_or_out, reply_bytes_lem req rc small, out.done) refl,
      record {
        done = refl;
        sent = out.sent;
        input = out.input;
        Still = out.Still;
        left = out.left;
      },
    )

pub send_data_lem :
    (d : Daemon) (len : ℕ) (m : Bytes)
    → d.buf ≡ some m
    → len ≤ length m
    → Open d.conn.room
    → length (slice m 0 len) ≤ turns d.conn.room
    → (conn : Conn) × (send_data d len ≡ some (again, record d { conn = conn }))
      × Sends (finished ok) conn d.conn (slice m 0 len)
unfolding send_data
send_data_lem d len m there fits o h =
    let out = send_message d.conn (slice m 0 len) o h in
    let loaded : load m 0 len ≡ some (slice m 0 len) = load-some m 0 len (omega (arith, fits)) in
    let sends : Sends (finished ok) (send_full d.conn (slice m 0 len)).1 d.conn (slice m 0 len) =
      record {
        done = refl;
        sent = out.sent;
        input = out.input;
        Still = out.Still;
        left = out.left;
      } in
    elim (Bool-cases (len == 0)) [
      | inr more ↦ (
        (send_full d.conn (slice m 0 len)).1,
        rw (send_data, more, there, loaded, out.done) refl,
        sends,
      )
      | inl nothing ↦
          let zero_ : len ≡ 0 = ground (arith, nothing) in
          let none_ : slice m 0 len ≡ [] = ap (λ n. slice m 0 n) zero_ in
          let done : (send_full d.conn []).0 ≡ finished ok =
            ap (λ l. (send_full d.conn l).0) (sym none_) ∙ out.done in
          let same : (send_full d.conn []).1 ≡ (send_full d.conn (slice m 0 len)).1 =
            ap (λ l. (send_full d.conn l).1) (sym none_) in
          (
            (send_full d.conn (slice m 0 len)).1,
            rw (send_data, nothing, done) (ap (λ x. some (again, record d { conn = x })) same),
            sends,
          )
    ]

-- Without growing, a buffer that is there is large enough.
enough-Ready :
    (d : Daemon) (len : ℕ)
    → HasBuf d
    → ltb d.buf_cap len ≡ false
    → Ready d len (has_buf d || ltb 0 len)
enough-Ready d len (empty nowhere cap) small =
    let none_ : len ≡ 0 = ground (arith, cap, small) in
    bare (rw (nowhere, none_) refl) nowhere cap none_
enough-Ready d len (holds m there cap) small =
    roomy (rw there refl) (m, there, cap, ground (arith, cap, small))

-- With memory the buffer is made large enough, and nothing else changes.
pub grow_lem :
    (round : Round) (d : Daemon) (len : ℕ)
    → HasBuf d
    → Gives round len
    → (d' : Daemon) × (grow round d len ≡ (ok, d'))
      × Ready d' len (has_buf d || ltb 0 len)
      × (d'.conn ≡ d.conn)
      × (d'.backend ≡ d.backend)
unfolding grow
grow_lem round d len b (g, given, size) = elim (Bool-cases (ltb d.buf_cap len)) [
  | inl small ↦
      let some_ : ltb 0 len ≡ true = ground (arith, small) in
      (
        record d { buf = some g; buf_cap = len },
        rw (grow, small, given) refl,
        roomy (or_true (has_buf d) (ltb 0 len) some_) (g, refl, size, omega (arith, size)),
        refl,
        refl,
      )
  | inr enough ↦ (d, rw (grow, enough) refl, enough-Ready d len b enough, refl, refl)
]
  where
    or_true : (x y : Bool) → y ≡ true → (x || y) ≡ true
    or_true true y e = refl
    or_true false y e = e

read_some :
    (d : Daemon) (m bytes rest : Bytes)
    → d.buf ≡ some m
    → length m ≡ d.buf_cap
    → length bytes ≤ length m
    → (length bytes == 0) ≡ false
    → Carries d.conn.input (bytes ++ rest)
    → (d' : Daemon) × (m : Bytes) × (read_into d (length bytes) ≡ some (complete bytes, d'))
      × (d'.buf ≡ some m)
      × (length m ≡ d'.buf_cap)
      × (length bytes ≤ length m)
      × (slice m 0 (length bytes) ≡ bytes)
      × (d'.backend ≡ d.backend)
      × Carries d'.conn.input rest
      × (d'.conn.sent ≡ d.conn.sent)
      × (d'.conn.room ≡ d.conn.room)
unfolding read_into
read_some d m bytes rest there cap fits some_bytes carries =
    let got = recv_message d.conn (length bytes) bytes rest refl carries in
    let room : leb (length bytes) (length m) ≡ true = ground (arith, fits) in
    let m' = splice m 0 bytes in
    let size = length-splice m 0 bytes in
    (
      record d { conn = (recv_full d.conn (length bytes)).1; buf = some m' },
      m',
      rw (read_into, some_bytes, there, room, got.done) refl,
      refl,
      size ∙ cap,
      omega (arith, size, fits),
      slice-splice_self m 0 bytes (omega (arith, fits)),
      refl,
      got.Left,
      got.sent,
      got.room,
    )

read_nothing :
    (d : Daemon) (m bytes rest : Bytes)
    → d.buf ≡ some m
    → length m ≡ d.buf_cap
    → length bytes ≤ length m
    → (length bytes == 0) ≡ true
    → Carries d.conn.input (bytes ++ rest)
    → (d' : Daemon) × (m : Bytes) × (read_into d (length bytes) ≡ some (complete bytes, d'))
      × (d'.buf ≡ some m)
      × (length m ≡ d'.buf_cap)
      × (length bytes ≤ length m)
      × (slice m 0 (length bytes) ≡ bytes)
      × (d'.backend ≡ d.backend)
      × Carries d'.conn.input rest
      × (d'.conn.sent ≡ d.conn.sent)
      × (d'.conn.room ≡ d.conn.room)
unfolding read_into
read_nothing d m [] rest there cap fits nothing carries =
    (d, m, refl, there, cap, fits, refl, refl, carries, refl, refl)
read_nothing d m (x ∷ bytes) rest there cap fits nothing carries = absurd (ground (arith, nothing))

-- The data of a write, read into a buffer that has room for them.
pub read_into_lem :
    (d : Daemon) (bytes rest : Bytes)
    → Roomy d (length bytes)
    → Carries d.conn.input (bytes ++ rest)
    → (d' : Daemon) × (m : Bytes) × (read_into d (length bytes) ≡ some (complete bytes, d'))
      × (d'.buf ≡ some m)
      × (length m ≡ d'.buf_cap)
      × (length bytes ≤ length m)
      × (slice m 0 (length bytes) ≡ bytes)
      × (d'.backend ≡ d.backend)
      × Carries d'.conn.input rest
      × (d'.conn.sent ≡ d.conn.sent)
      × (d'.conn.room ≡ d.conn.room)
read_into_lem d bytes rest (m, there, cap, fits) carries = elim (Bool-cases (length bytes == 0)) [
  | inl nothing ↦ read_nothing d m bytes rest there cap fits nothing carries
  | inr some_bytes ↦ read_some d m bytes rest there cap fits some_bytes carries
]
