-- ===== src/Nbd/Disk/Turn.antt =====
-- A turn of `serve_nbd` that finds a whole request.
use ddr_direct_storage.Base.{
  ℕ, ok, [], length, append-nil, ◌<◌, ◌≤◌, ◌≡◌, ◌^◌, refl, sym, ap, ◌∙◌, subst, false, some, ◌++◌,
  arith, if◌then◌else◌, Bytes, append_assoc,
}
use ddr_direct_storage.Stream.{recv_full, send_full}
use ddr_direct_storage.Stream.Chunks.{Carries, recv_message}
use ddr_direct_storage.Stream.Sending.{Open, turns, send_message}
use ddr_direct_storage.Backend.Range.{Holds}
use ddr_direct_storage.Nbd.Wire.{
  nbd_cmd_disc, wire_reply, reply_bytes_lem, ntohl, nbd_request_magic, wire_request, raw_request,
  parse_request-wire, length-wire_request, ntohl-get_le, ntohll-get_le,
}
use ddr_direct_storage.Nbd.Serve.{
  cmd_disc, send_reply, Daemon, Round, again, out, serve_request, serve_open, serve_turn,
}
use ddr_direct_storage.Nbd.Disk.{
  Command, read, write, flush, trim, unknown, type_of, from_of, len_of, data_of, ready_for, apply,
  wire, wire_answer, Sensible, CommandFits,
}
use ddr_direct_storage.Nbd.Disk.Steps.{grow_lem, HasBuf, has_buf, empty, holds, Gives}
use ddr_direct_storage.Nbd.Disk.Serving.{After}
use ddr_direct_storage.Nbd.Disk.Requests.{cost, moved-After, Decodes, serve_request_lem}

small_type : (c : Command) → Sensible c → type_of c < 2 ^ 32
small_type (read from len) s = omega arith
small_type (write from bytes) s = omega arith
small_type flush s = omega arith
small_type (trim from len) s = omega arith
small_type (unknown type from len) s = s.1

raw-Decodes :
    (handle : Bytes) (c : Command)
    → CommandFits handle c
    → Decodes (raw_request (type_of c) handle (from_of c) (len_of c)) c
raw-Decodes handle c f = record {
  type = ntohl-get_le (type_of c) (small_type c f.Sane);
  from = ntohll-get_le (from_of c) f.from;
  len = ntohl-get_le (len_of c) f.len;
}

-- A turn that finds a whole request serves it as the disk of bytes does.
pub serve_turn_lem :
    (round : Round) (d : Daemon) (m : Bytes) (handle : Bytes) (c : Command) (rest : Bytes)
    → CommandFits handle c
    → round.g_stop ≡ false
    → round.lock_rc ≡ 0
    → Gives round (len_of c)
    → Holds d.backend m
    → HasBuf d
    → Open d.conn.room
    → Carries d.conn.input (wire handle c ++ rest)
    → cost c ≤ turns d.conn.room
    → let ready = ready_for (has_buf d) c in
      let (rc, bytes, m') = apply ready m c in
      (d' : Daemon) × (serve_turn round d ≡ some (again, d'))
      × After d' d ready m' (wire_answer handle rc bytes) rest
unfolding serve_turn serve_open
serve_turn_lem round d m handle c rest f goes lock memory backs buf o (calm, e) enough =
    let ready = ready_for (has_buf d) c in
    let (rc, bytes, m') = apply ready m c in
    let header = wire_request (type_of c) handle (from_of c) (len_of c) in
    let req = raw_request (type_of c) handle (from_of c) (len_of c) in
    let got =
      recv_message d.conn 28 header (data_of c ++ rest)
        (length-wire_request (type_of c) handle (from_of c) (len_of c) f.handle_)
        (calm, e ∙ append_assoc header (data_of c) rest) in
    let d1 : Daemon = record d { conn = (recv_full d.conn 28).1 } in
    let same : HasBuf d1 = elim buf [ empty a b ↦ empty a b | holds x a b ↦ holds x a b ] in
    let parsed = parse_request-wire (type_of c) handle (from_of c) (len_of c) f.handle_ in
    let magic : ntohl req.magic ≡ nbd_request_magic =
      ntohl-get_le nbd_request_magic (omega arith) in
    let (d', served, after) =
      serve_request_lem round d1 m c req rest f.Sane (raw-Decodes handle c f) lock memory f.handle_
        backs same (subst Open (sym got.room) o) got.Left
        (omega (arith, enough, ap turns got.room)) in
    let runs : serve_turn round d ≡ serve_open round d =
      ap (λ b. if b then some (out, d) else serve_open round d) goes in
    let reaches : serve_open round d ≡ serve_request round d1 req =
      rw (serve_open, got.done, parsed, magic) refl in
    (
      d',
      runs ∙ reaches ∙ served,
      moved-After d' d1 d ready m' (wire_answer handle rc bytes) rest got.sent got.room after,
    )

-- A request to disconnect fits its fields, and there is memory for its length.
pub record DisconnectFits (handle : Bytes) (from len : ℕ) : Type 0 where
  pub handle_ : length handle ≡ 8
  pub from_fits : from < 2 ^ 64
  pub len_fits : len < 2 ^ 32

-- A turn that finds a request to disconnect replies and leaves the loop.
pub serve_turn_disc :
    (round : Round) (d : Daemon) (m handle : Bytes) (from len : ℕ) (rest : Bytes)
    → DisconnectFits handle from len
    → round.g_stop ≡ false
    → Gives round len
    → Holds d.backend m
    → HasBuf d
    → Open d.conn.room
    → Carries d.conn.input (wire_request nbd_cmd_disc handle from len ++ rest)
    → 16 ≤ turns d.conn.room
    → (d' : Daemon) × (serve_turn round d ≡ some (out, d'))
      × Holds d'.backend m
      × (d'.conn.sent ≡ d.conn.sent ++ wire_answer handle ok [])
unfolding serve_turn serve_open serve_request cmd_disc send_reply
serve_turn_disc round d m handle from len rest f goes memory backs buf o carries enough =
    let header = wire_request nbd_cmd_disc handle from len in
    let req = raw_request nbd_cmd_disc handle from len in
    let got =
      recv_message d.conn 28 header rest
        (length-wire_request nbd_cmd_disc handle from len f.handle_) carries in
    let d1 : Daemon = record d { conn = (recv_full d.conn 28).1 } in
    let same : HasBuf d1 = elim buf [ empty a b ↦ empty a b | holds x a b ↦ holds x a b ] in
    let parsed = parse_request-wire nbd_cmd_disc handle from len f.handle_ in
    let magic : ntohl req.magic ≡ nbd_request_magic =
      ntohl-get_le nbd_request_magic (omega arith) in
    let type_ : ntohl req.type ≡ 2 = ntohl-get_le nbd_cmd_disc (omega arith) in
    let length_ : ntohl req.len ≡ len = ntohl-get_le len f.len_fits in
    let (d2, grown, b, conn, backend) = grow_lem round d1 len same memory in
    let room : Open d2.conn.room =
      subst (λ x. Open x.room) (sym conn) (subst Open (sym got.room) o) in
    let message = wire_reply handle 0 in
    let sends =
      send_message d2.conn message room
        (omega (arith, enough, f.handle_, ap turns got.room, ap (λ x. turns x.room) conn)) in
    let d3 : Daemon = record d2 { conn = (send_full d2.conn message).1 } in
    let answers : cmd_disc d2 req ≡ (out, d3) =
      rw (cmd_disc, reply_bytes_lem req ok (omega arith), sends.done) refl in
    let runs : serve_turn round d ≡ serve_open round d =
      ap (λ b. if b then some (out, d) else serve_open round d) goes in
    let reaches : serve_open round d ≡ serve_request round d1 req =
      rw (serve_open, got.done, parsed, magic) refl in
    let switches : serve_request round d1 req ≡ some (cmd_disc d2 req) =
      rw (serve_request, type_, length_, grown) refl in
    (
      d3,
      runs ∙ reaches ∙ switches ∙ ap some answers,
      subst (λ x. Holds x m) (sym backend) backs,
      sends.sent
          ∙ ap (λ l. l ++ message) (ap (λ x. x.sent) conn ∙ got.sent)
          ∙ ap (λ l. d.conn.sent ++ l) (sym (append-nil message)),
    )
