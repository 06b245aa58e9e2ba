-- ===== src/Ctrl/Client/Calls.antt =====
-- A call of the client whose answer arrives whole.
use ddr_direct_storage.Base.{
  ℕ, ◌+◌, ◌^◌, ◌≤◌, ◌<◌, ◌≡◌, refl, sym, ap, ◌∙◌, subst, true, false, ◌==◌, ltb, Option, some, [],
  ◌∷◌, ◌++◌, arith, Status, Bytes, length, append-nil, append_assoc, ◌⊎◌, inl, inr,
}
use ddr_direct_storage.Stream.{Conn, send_both}
use ddr_direct_storage.Stream.Chunks.{Carries, recv_message, Gets}
use ddr_direct_storage.Stream.Sending.{Open, turns, send_both_lem}
use ddr_direct_storage.Ctrl.Messages.{CtrlHdr, hdr_bytes, CtrlResp, resp_bytes, parse_resp, int_of}
use ddr_direct_storage.Ctrl.Messages.RoundTrip.{
  RespFits, parse_resp-bytes, length-hdr_bytes, length-resp_bytes,
}
use ddr_direct_storage.Ctrl.Server.{response}
use ddr_direct_storage.Ctrl.Server.Serving.{reply}
use ddr_direct_storage.Ctrl.Client.{
  read_full, replies, read_answer, receive, send_request, exchange,
}

read_full-Gets :
    (conn : Conn) (n : ℕ) (message rest : Bytes)
    → length message ≡ n
    → Carries conn.input (message ++ rest)
    → let (r, conn') = read_full conn n in Gets r conn' conn message rest
unfolding read_full
read_full-Gets conn n message rest size carries =
    let got = recv_message conn n message rest size carries in
    rw (read_full, got.done)
      (record { done = refl; Left = got.Left; sent = got.sent; room = got.room })

-- The fields of an answer fit their types.
pub record ReplyFits (hdr : CtrlHdr) (rc : Status) (bytes : Bytes) : Type 0 where
  pub opcode : hdr.opcode < 2 ^ 16
  pub request_id : hdr.request_id < 2 ^ 64
  pub status : int_of rc < 2 ^ 32
  pub length_ : length bytes < 2 ^ 32

response-RespFits :
    (hdr : CtrlHdr) (rc : Status) (bytes : Bytes)
    → ReplyFits hdr rc bytes
    → RespFits (response hdr rc bytes)
unfolding response
response-RespFits hdr rc bytes f = record {
  hdr = record {
    magic = omega arith;
    version = omega arith;
    opcode = f.opcode;
    payload_len = omega arith;
    flags = omega arith;
    request_id = f.request_id;
  };
  status = f.status;
  payload_len = f.length_;
}

-- The client accepts a payload of `n` bytes.
abbrev pub Accepts : Option ℕ → ℕ → Type 0
Accepts room n = (n ≡ 0) ⊎ ((k : ℕ) × (room ≡ some k) × (n ≤ k))

read_answer_lem :
    (room : Option ℕ) (resp : CtrlResp) (conn : Conn) (bytes rest : Bytes)
    → resp.payload_len ≡ length bytes
    → Accepts room (length bytes)
    → Carries conn.input (bytes ++ rest)
    → let (answer, conn') = read_answer room resp conn in
      (answer ≡ replies resp.status bytes) × Carries conn'.input rest × (conn'.sent ≡ conn.sent)
unfolding read_answer
read_answer_lem room resp conn [] rest len a carries =
    let none_left : (resp.payload_len == 0) ≡ true = ground (arith, len) in
    rw (read_answer, none_left) (refl, carries, refl)
read_answer_lem room resp conn (b ∷ bs) rest len (inl empty) carries = absurd (omega (arith, empty))
read_answer_lem room resp conn (b ∷ bs) rest len (inr (k, e, fits)) carries =
    let got = read_full-Gets conn resp.payload_len (b ∷ bs) rest (sym len) carries in
    let some_left : (resp.payload_len == 0) ≡ false = ground (arith, len) in
    let enough : ltb k resp.payload_len ≡ false = ground (arith, len, fits) in
    rw (read_answer, some_left, e, enough, got.done) (refl, got.Left, got.sent)

receive_lem :
    (room : Option ℕ) (conn : Conn) (hdr : CtrlHdr) (rc : Status) (bytes rest : Bytes)
    → ReplyFits hdr rc bytes
    → Accepts room (length bytes)
    → Carries conn.input (reply hdr rc bytes ++ rest)
    → let (answer, conn') = receive room conn in
      (answer ≡ replies (int_of rc) bytes) × Carries conn'.input rest × (conn'.sent ≡ conn.sent)
unfolding receive response
receive_lem room conn hdr rc bytes rest fits a (calm, e) =
    let resp = response hdr rc bytes in
    let got =
      read_full-Gets conn 32 (resp_bytes resp) (bytes ++ rest) (length-resp_bytes resp)
        (calm, e ∙ append_assoc (resp_bytes resp) bytes rest) in
    let parsed : parse_resp (resp_bytes resp) ≡ resp =
      ap parse_resp (sym (append-nil (resp_bytes resp)))
      ∙ parse_resp-bytes resp [] (response-RespFits hdr rc bytes fits) in
    let (answer, left, sent) =
      read_answer_lem room resp (read_full conn 32).1 bytes rest refl a got.Left in
    rw (receive, got.done, parsed) (answer, left, sent ∙ got.sent)

-- A request that is sent, and the answer to it.
pub exchange_lem :
    (conn : Conn) (hdr req : CtrlHdr) (payload : Bytes) (room : Option ℕ) (rc : Status)
    (bytes rest : Bytes)
    → ReplyFits req rc bytes
    → Accepts room (length bytes)
    → Open conn.room
    → 24 + length payload ≤ turns conn.room
    → Carries conn.input (reply req rc bytes ++ rest)
    → let (answer, conn') = exchange conn hdr payload room in
      (answer ≡ replies (int_of rc) bytes)
      × Carries conn'.input rest
      × (conn'.sent ≡ conn.sent ++ (hdr_bytes hdr ++ payload))
unfolding exchange send_request
exchange_lem conn hdr req payload room rc bytes rest fits a o h carries =
    let out =
      send_both_lem conn (hdr_bytes hdr) payload o (omega (arith, h, length-hdr_bytes hdr)) in
    let conn' = (send_both conn (hdr_bytes hdr) payload).1 in
    let (answer, left, sent) =
      receive_lem room conn' req rc bytes rest fits a
        (subst (λ es. Carries es (reply req rc bytes ++ rest)) (sym out.input) carries) in
    rw (exchange, send_request, out.done) (answer, left, sent ∙ out.sent)
