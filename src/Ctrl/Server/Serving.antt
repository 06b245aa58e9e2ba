-- ===== src/Ctrl/Server/Serving.antt =====
-- One turn of the server's loop, for a request that arrives whole.
use ddr_direct_storage.Base.{
  ℕ, suc, ◌+◌, ◌≤◌, ◌<◌, ◌≡◌, refl, sym, ap, ◌∙◌, subst, true, false, ◌==◌, Option, some, [], ◌∷◌,
  ◌++◌, arith, Status, err, Bytes, length, drop, splice, append-nil,
}
use ddr_direct_storage.Base.Errno.{einval}
use ddr_direct_storage.Stream.{Conn, recv_full}
use ddr_direct_storage.Stream.Chunks.{Carries, read_full_lem, recv_message}
use ddr_direct_storage.Stream.Sending.{Open, turns, Sends, send_both_lem}
use ddr_direct_storage.Urma.System.{System}
use ddr_direct_storage.Ctrl.Messages.{CtrlHdr, hdr_bytes, parse_hdr, resp_bytes}
use ddr_direct_storage.Ctrl.Messages.RoundTrip.{
  HdrFits, parse_hdr-bytes, length-hdr_bytes, length-resp_bytes,
}
use ddr_direct_storage.Ctrl.Server.{
  response, send_response, Scene, perform, handle_request, bad_hdr, Turn, again, leave,
  read_payload, serve_request, serve_turn,
}

-- An array over whose start `bs` has been written.
pub splice_front : (m bs : Bytes) → length bs ≤ length m → splice m 0 bs ≡ bs ++ drop (length bs) m
splice_front [] [] h = refl
splice_front [] (x ∷ bs) h = absurd (omega arith)
splice_front (b ∷ m) [] h = refl
splice_front (b ∷ m) (x ∷ bs) h = ap (◌∷◌ x) (splice_front m bs (omega arith))

-- What is sent in answer.
abbrev pub reply : CtrlHdr → Status → Bytes → Bytes
unfolding response
reply hdr rc bytes = resp_bytes (response hdr rc bytes) ++ bytes

send_response_lem :
    (conn : Conn) (req : CtrlHdr) (rc : Status) (bytes : Bytes)
    → Open conn.room
    → 32 + length bytes ≤ turns conn.room
    → let (w, conn') = send_response conn req rc bytes in Sends w conn' conn (reply req rc bytes)
unfolding send_response
send_response_lem conn req rc bytes o h =
    send_both_lem conn (resp_bytes (response req rc bytes)) bytes o
      (omega (arith, h, length-resp_bytes (response req rc bytes)))

-- What holds of a turn that has answered.
pub record Served (t : Turn) (s' : System) (conn' : Conn) (next : Turn) (after : System)
    (conn : Conn) (answer rest : Bytes) : Type 0 where
  pub turn : t ≡ next
  pub state : s' ≡ after
  pub sent : conn'.sent ≡ conn.sent ++ answer
  pub Left : Carries conn'.input rest
  pub Still : Open conn'.room

parse_hdr_whole : (hdr : CtrlHdr) → HdrFits hdr → parse_hdr (hdr_bytes hdr) ≡ hdr
parse_hdr_whole hdr fits =
    ap parse_hdr (sym (append-nil (hdr_bytes hdr))) ∙ parse_hdr-bytes hdr [] fits

-- A header that the server does not take.
pub serve_turn_bad :
    (scene : Scene) (s : System) (conn : Conn) (hdr : CtrlHdr) (rest : Bytes)
    → HdrFits hdr
    → bad_hdr hdr ≡ true
    → Carries conn.input (hdr_bytes hdr ++ rest)
    → Open conn.room
    → 32 ≤ turns conn.room
    → (t : Turn) × (s' : System) × (conn' : Conn) × (serve_turn scene s conn ≡ some (t, s', conn'))
      × Served t s' conn' leave s conn (reply hdr (err einval) []) rest
unfolding serve_turn
serve_turn_bad scene s conn hdr rest fits bad carries o h =
    let got = recv_message conn 24 (hdr_bytes hdr) rest (length-hdr_bytes hdr) carries in
    let conn' = (recv_full conn 24).1 in
    let answer =
      send_response_lem conn' hdr (err einval) [] (subst Open (sym got.room) o)
        (omega (arith, h, ap turns got.room)) in
    (
      leave,
      s,
      (send_response conn' hdr (err einval) []).1,
      rw (serve_turn, got.done, parse_hdr_whole hdr fits, bad, answer.done) refl,
      record {
        turn = refl;
        state = refl;
        sent = answer.sent ∙ ap (λ l. l ++ reply hdr (err einval) []) got.sent;
        Left = subst (λ es. Carries es rest) (sym answer.input) got.Left;
        Still = answer.Still;
      },
    )

splice_nothing : (m : Bytes) → splice m 0 [] ≡ m
splice_nothing [] = refl
splice_nothing (b ∷ m) = refl

-- The payload has been read into the array, `rest` is left, and nothing else has changed.
record Loads (p : Option Bytes) (conn' conn : Conn) (array rest : Bytes) : Type 0 where
  done : p ≡ some array
  Left : Carries conn'.input rest
  sent : conn'.sent ≡ conn.sent
  room : conn'.room ≡ conn.room

read_payload_lem :
    (scene : Scene) (conn : Conn) (payload rest : Bytes)
    → Carries conn.input (payload ++ rest)
    → let (p, conn') = read_payload scene conn (length payload) in
      Loads p conn' conn (splice scene.garbage 0 payload) rest
unfolding read_payload
read_payload_lem scene conn [] rest carries = record {
  done = ap some (sym (splice_nothing scene.garbage));
  Left = carries;
  sent = refl;
  room = refl;
}
read_payload_lem scene conn (b ∷ bs) rest carries =
    let got = recv_message conn (suc (length bs)) (b ∷ bs) rest refl carries in
    let some_bytes : (suc (length bs) == 0) ≡ false = ground arith in
    rw (read_payload, some_bytes, got.done)
      (record { done = refl; Left = got.Left; sent = got.sent; room = got.room })

-- An end of the input where the payload should start is taken for the payload.
read_payload_closed :
    (scene : Scene) (conn : Conn) (len : ℕ)
    → 0 < len
    → Carries conn.input []
    → let (p, conn') = read_payload scene conn len in p ≡ some scene.garbage
unfolding read_payload recv_full
read_payload_closed scene conn len pos (c, e) =
    let ends = (read_full_lem conn.input len c).1 (omega (arith, pos, ap length e)) in
    let some_bytes : (len == 0) ≡ false = ground (arith, pos) in
    rw (read_payload, some_bytes, recv_full, ends, e) refl

-- A request that is performed is answered.
serve_request_lem :
    (scene : Scene) (s s' : System) (conn : Conn) (hdr : CtrlHdr) (payload rest : Bytes)
    (rc : Status) (bytes : Bytes)
    → hdr.payload_len ≡ length payload
    → Carries conn.input (payload ++ rest)
    → Open conn.room
    → 32 + length bytes ≤ turns conn.room
    → perform scene s hdr (splice scene.garbage 0 payload) ≡ some (some (rc, bytes), s')
    → (conn' : Conn) × (serve_request scene s conn hdr ≡ some (again, s', conn'))
      × (conn'.sent ≡ conn.sent ++ reply hdr rc bytes)
      × Carries conn'.input rest
      × Open conn'.room
unfolding serve_request handle_request
serve_request_lem scene s s' conn hdr payload rest rc bytes len carries o h performs =
    let p =
      subst
        (λ n.
          Loads (read_payload scene conn n).0 (read_payload scene conn n).1 conn
            (splice scene.garbage 0 payload) rest)
        (sym len) (read_payload_lem scene conn payload rest carries) in
    let read = (read_payload scene conn hdr.payload_len).1 in
    let answer =
      send_response_lem read hdr rc bytes (subst Open (sym p.room) o)
        (omega (arith, h, ap turns p.room)) in
    (
      (send_response read hdr rc bytes).1,
      rw (serve_request, p.done, handle_request, performs, answer.done) refl,
      answer.sent ∙ ap (λ l. l ++ reply hdr rc bytes) p.sent,
      subst (λ es. Carries es rest) (sym answer.input) p.Left,
      answer.Still,
    )

-- The same for a whole turn: the header and the payload.
pub serve_turn_lem :
    (scene : Scene) (s s' : System) (conn : Conn) (hdr : CtrlHdr) (payload rest : Bytes)
    (rc : Status) (bytes : Bytes)
    → HdrFits hdr
    → bad_hdr hdr ≡ false
    → hdr.payload_len ≡ length payload
    → Carries conn.input (hdr_bytes hdr ++ (payload ++ rest))
    → Open conn.room
    → 32 + length bytes ≤ turns conn.room
    → perform scene s hdr (splice scene.garbage 0 payload) ≡ some (some (rc, bytes), s')
    → (conn' : Conn) × (serve_turn scene s conn ≡ some (again, s', conn'))
      × (conn'.sent ≡ conn.sent ++ reply hdr rc bytes)
      × Carries conn'.input rest
      × Open conn'.room
unfolding serve_turn
serve_turn_lem scene s s' conn hdr payload rest rc bytes fits good len carries o h performs =
    let got =
      recv_message conn 24 (hdr_bytes hdr) (payload ++ rest) (length-hdr_bytes hdr) carries in
    let (conn', served, sent, left, still) =
      serve_request_lem scene s s' (recv_full conn 24).1 hdr payload rest rc bytes len got.Left
        (subst Open (sym got.room) o) (omega (arith, h, ap turns got.room)) performs in
    (
      conn',
      rw (serve_turn, got.done, parse_hdr_whole hdr fits, good) served,
      sent ∙ ap (λ l. l ++ reply hdr rc bytes) got.sent,
      left,
      still,
    )
