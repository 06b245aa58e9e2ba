-- ===== src/Ctrl/Remote.antt =====
-- A call over the control socket from one end to the other: userspace-nbd/src/ramdisk_ctrl_client.c
-- and src/ramdisk_ctrl_server.c together.

use ddr_direct_storage.Base.{
  ℕ, ◌^◌, ◌≤◌, ◌<◌, ◌≡◌, refl, sym, ap, ◌∙◌, subst, false, Option, none, some, ◌++◌, arith, Status,
  ok, Bytes, length, load, load-some, slice_all, append_assoc, inl, inr,
}
use ddr_direct_storage.Layout.{put_le}
use ddr_direct_storage.Stream.{Conn}
use ddr_direct_storage.Stream.Chunks.{Carries}
use ddr_direct_storage.Stream.Sending.{Open, turns}
use ddr_direct_storage.Urma.System.{System}
use ddr_direct_storage.Ctrl.Messages.{CtrlHdr, hdr_bytes, connect_bytes, transfer_bytes, int_of}
use ddr_direct_storage.Ctrl.Messages.RoundTrip.{
  HdrFits, length-status_bytes, length-connect_bytes, length-transfer_bytes,
}
use ddr_direct_storage.Ctrl.Server.{Scene, again, bad_hdr, serve_turn, query_status}
use ddr_direct_storage.Ctrl.Server.Serving.{reply, serve_turn_lem}
use ddr_direct_storage.Ctrl.Client.{
  request_hdr, Answer, replies, exchange, ramdisk_ctrl_transact, ramdisk_ctrl_query_status,
  ramdisk_ctrl_enable_urma, ramdisk_ctrl_disable_urma, ramdisk_ctrl_peer_connect,
  ramdisk_ctrl_peer_disconnect, ramdisk_ctrl_urma_transfer,
}
use ddr_direct_storage.Ctrl.Client.Calls.{ReplyFits, Accepts, exchange_lem}
use ddr_direct_storage.Ctrl.Command.{
  Command, query, enable, disable, connect, disconnect, transfer, execute, opcode_of, payload_of,
  size_of, id_of, CommandFits, length-payload_of, perform_lem,
}

-- The function of the client for a command; `sock` is what `connect_sock` returns.
unfoldable pub call : Status → Conn → Command → Option (Answer × Conn)
call sock conn query = ramdisk_ctrl_query_status sock conn
call sock conn enable = ramdisk_ctrl_enable_urma sock conn
call sock conn disable = ramdisk_ctrl_disable_urma sock conn
call sock conn (connect info) = ramdisk_ctrl_peer_connect sock conn (some info)
call sock conn (disconnect peer_id) = ramdisk_ctrl_peer_disconnect sock conn peer_id
call sock conn (transfer xfer) = ramdisk_ctrl_urma_transfer sock conn (some xfer)

abbrev pub command_hdr : Command → CtrlHdr
command_hdr c = request_hdr (opcode_of c) (size_of c) (id_of c)

abbrev pub room_of : Command → Option ℕ
room_of query = some 48
room_of enable = none
room_of disable = none
room_of (connect info) = none
room_of (disconnect peer_id) = none
room_of (transfer xfer) = none

-- An object that is sent whole.
load_all : (bs : Bytes) (n : ℕ) → length bs ≡ n → load bs 0 n ≡ some bs
load_all bs n e =
    subst (λ k. load bs 0 k ≡ some bs) e
      (load-some bs 0 (length bs) (omega arith) ∙ ap some (slice_all bs))

call_lem :
    (conn : Conn) (c : Command)
    → CommandFits c
    → call ok conn c ≡ some (exchange conn (command_hdr c) (payload_of c) (room_of c))
unfolding call ramdisk_ctrl_transact ramdisk_ctrl_query_status ramdisk_ctrl_enable_urma
    ramdisk_ctrl_disable_urma ramdisk_ctrl_peer_connect ramdisk_ctrl_peer_disconnect
    ramdisk_ctrl_urma_transfer
call_lem conn query f = refl
call_lem conn enable f = refl
call_lem conn disable f = refl
call_lem conn (connect info) f =
    rw (load_all (connect_bytes info) 56 (length-connect_bytes info f.eid)) refl
call_lem conn (disconnect peer_id) f = rw (load_all (put_le 8 peer_id) 8 refl) refl
call_lem conn (transfer xfer) f =
    rw (load_all (transfer_bytes xfer) 40 (length-transfer_bytes xfer)) refl

small_fields :
    (c : Command) → CommandFits c → (opcode_of c < 7) × (size_of c ≤ 56) × (id_of c < 2 ^ 64)
small_fields query f = (omega arith, omega arith, omega arith)
small_fields enable f = (omega arith, omega arith, omega arith)
small_fields disable f = (omega arith, omega arith, omega arith)
small_fields (connect info) f = (omega arith, omega arith, omega arith)
small_fields (disconnect peer_id) f = (omega arith, omega arith, omega arith)
small_fields (transfer xfer) f = (omega arith, omega arith, f.request_id)

pub command_hdr-HdrFits : (c : Command) → CommandFits c → HdrFits (command_hdr c)
unfolding request_hdr
command_hdr-HdrFits c f =
    let (op, size, id) = small_fields c f in
    record {
      magic = omega arith;
      version = omega arith;
      opcode = omega (arith, op);
      payload_len = omega (arith, size);
      flags = omega arith;
      request_id = id;
    }

pub command_hdr_good : (c : Command) → bad_hdr (command_hdr c) ≡ false
unfolding request_hdr
command_hdr_good query = refl
command_hdr_good enable = refl
command_hdr_good disable = refl
command_hdr_good (connect info) = refl
command_hdr_good (disconnect peer_id) = refl
command_hdr_good (transfer xfer) = refl

-- Only a query is answered with more than a status.
pub execute-Accepts :
    (scene : Scene) (s s' : System) (c : Command) (rc : Status) (bytes : Bytes)
    → execute scene s c ≡ some (some (rc, bytes), s')
    → Accepts (room_of c) (length bytes) × (length bytes ≤ 48)
unfolding execute
execute-Accepts scene s s' query rc bytes e =
    let size : length bytes ≡ 48 = ground (arith, length-status_bytes (query_status s)) in
    (inr (48, refl, omega (arith, size)), omega (arith, size))
execute-Accepts scene s s' enable rc bytes e =
    let size : length bytes ≡ 0 = ground arith in (inl size, omega (arith, size))
execute-Accepts scene s s' disable rc bytes e =
    let size : length bytes ≡ 0 = ground arith in (inl size, omega (arith, size))
execute-Accepts scene s s' (connect info) rc bytes e =
    let size : length bytes ≡ 0 = ground arith in (inl size, omega (arith, size))
execute-Accepts scene s s' (disconnect peer_id) rc bytes e =
    let size : length bytes ≡ 0 = ground arith in (inl size, omega (arith, size))
execute-Accepts scene s s' (transfer xfer) rc bytes e =
    let size : length bytes ≡ 0 = ground arith in (inl size, omega (arith, size))

-- What one end sends, and what the other end gets.
abbrev pub request : Command → Bytes
request c = hdr_bytes (command_hdr c) ++ payload_of c

-- Where a connection has no errors, what the client sends reaches the server and what the server sends
-- reaches the client, cut up in any way, a call of the client returns the status that the daemon's own
-- call returns for the same command, with the bytes of its answer, and the daemon has made exactly that
-- call; both ends are then ready for what follows.
pub remote_call :
    (scene : Scene) (s s' : System) (c : Command) (client server : Conn) (rc : Status)
    (bytes to_client to_server : Bytes)
    → CommandFits c
    → length scene.garbage ≡ 4096
    → execute scene s c ≡ some (some (rc, bytes), s')
    → int_of rc < 2 ^ 32
    → Open client.room
    → 80 ≤ turns client.room
    → Open server.room
    → 80 ≤ turns server.room
    → Carries server.input (request c ++ to_server)
    → Carries client.input (reply (command_hdr c) rc bytes ++ to_client)
    → (client' : Conn) × (server' : Conn) × (call ok client c
        ≡ some (replies (int_of rc) bytes, client'))
      × (serve_turn scene s server ≡ some (again, s', server'))
      × (client'.sent ≡ client.sent ++ request c)
      × (server'.sent ≡ server.sent ++ reply (command_hdr c) rc bytes)
      × Carries client'.input to_client
      × Carries server'.input to_server
unfolding request_hdr
remote_call scene s s' c client server rc bytes to_client to_server f array run status co ch so sh
      up down =
    let hdr = command_hdr c in
    let (op, small, id) = small_fields c f in
    let size = length-payload_of c f in
    let (room, short) = execute-Accepts scene s s' c rc bytes run in
    let whole : Carries server.input (hdr_bytes hdr ++ (payload_of c ++ to_server)) =
      (up.0, up.1 ∙ append_assoc (hdr_bytes hdr) (payload_of c) to_server) in
    let (server', served, answered, left, still) =
      serve_turn_lem scene s s' server hdr (payload_of c) to_server rc bytes
        (command_hdr-HdrFits c f) (command_hdr_good c) (sym size) whole so
        (omega (arith, sh, short)) (perform_lem scene s c f (omega (arith, array)) ∙ run) in
    let fits : ReplyFits hdr rc bytes = record {
      opcode = omega (arith, op);
      request_id = id;
      status = status;
      length_ = omega (arith, short);
    } in
    let (answer, rest, sent) =
      exchange_lem client hdr hdr (payload_of c) (room_of c) rc bytes to_client fits room co
        (omega (arith, ch, size, small)) down in
    let done = exchange client hdr (payload_of c) (room_of c) in
    (
      done.1,
      server',
      call_lem client c f ∙ ap (λ a. some (a, done.1)) answer,
      served,
      sent,
      answered,
      rest,
      left,
    )
