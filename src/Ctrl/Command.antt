-- ===== src/Ctrl/Command.antt =====
-- What the requests of the control socket ask for, apart from how they are written: the calls that
-- userspace-nbd/src/ramdisk_ctrl_client.c offers, and the calls of the daemon's own modules that
-- `handle_request` of src/ramdisk_ctrl_server.c makes for them.
use ddr_direct_storage.Base.{
  ℕ, ◌^◌, ◌≤◌, ◌<◌, ◌≡◌, refl, ap, ◌∙◌, Option, none, some, [], arith, ◌>>=◌, Status, ok, Bytes,
  length, drop, splice,
}
use ddr_direct_storage.Layout.{put_le, field_at, get_le-put_le, eight_bytes}
use ddr_direct_storage.Urma.State.{PeerConnectInfo, Transfer}
use ddr_direct_storage.Urma.Peers.{
  ramdisk_urma_enable, ramdisk_urma_disable, ramdisk_urma_peer_connect,
  ramdisk_urma_peer_disconnect,
}
use ddr_direct_storage.Urma.System.{System}
use ddr_direct_storage.Urma.System.Sync.{returned, waiting, ramdisk_urma_transfer_sync}
use ddr_direct_storage.Ctrl.Messages.{
  query_status_opcode, urma_enable_opcode, urma_disable_opcode, peer_connect_opcode,
  peer_disconnect_opcode, urma_transfer_opcode, status_bytes, connect_bytes, parse_connect,
  transfer_bytes, parse_transfer,
}
use ddr_direct_storage.Ctrl.Messages.RoundTrip.{
  ConnectFits, TransferFits, parse_connect-bytes, parse_transfer-bytes, length-connect_bytes,
  length-transfer_bytes,
}
use ddr_direct_storage.Ctrl.Server.{Scene, query_status, perform}
use ddr_direct_storage.Ctrl.Server.Serving.{splice_front}
use ddr_direct_storage.Ctrl.Client.{request_hdr}

pub data Command : Type 0 where
  query : Command
  enable : Command
  disable : Command
  connect : PeerConnectInfo → Command
  disconnect : ℕ → Command
  transfer : Transfer → Command

-- What the daemon should do: the status and the payload of the answer, and the state after it; the
-- outer `none` is undefined behaviour, the inner one a transfer that still waits.
unfoldable pub execute : Scene → System → Command → Option (Option (Status × Bytes) × System)
execute scene s query = some (some (ok, status_bytes (query_status s)), s)
execute scene s enable =
    let (rc, m) = ramdisk_urma_enable s.mgr in some (some (rc, []), record s { mgr = m })
execute scene s disable =
    let (rc, m) = ramdisk_urma_disable s.mgr in some (some (rc, []), record s { mgr = m })
execute scene s (connect info) =
    let (rc, m) = ramdisk_urma_peer_connect scene.calloc_ok s.mgr (some info) in
    some (some (rc, []), record s { mgr = m })
execute scene s (disconnect peer_id) =
    let (rc, m) = ramdisk_urma_peer_disconnect s.mgr peer_id in
    some (some (rc, []), record s { mgr = m })
execute scene s (transfer xfer) = do
  (w, s') ← ramdisk_urma_transfer_sync scene.rounds s (some xfer)
  some (elim w [ returned rc ↦ (some (rc, []), s') | waiting ↦ (none, s') ])

abbrev pub opcode_of : Command → ℕ
opcode_of query = query_status_opcode
opcode_of enable = urma_enable_opcode
opcode_of disable = urma_disable_opcode
opcode_of (connect info) = peer_connect_opcode
opcode_of (disconnect peer_id) = peer_disconnect_opcode
opcode_of (transfer xfer) = urma_transfer_opcode

abbrev pub payload_of : Command → Bytes
payload_of query = []
payload_of enable = []
payload_of disable = []
payload_of (connect info) = connect_bytes info
payload_of (disconnect peer_id) = put_le 8 peer_id
payload_of (transfer xfer) = transfer_bytes xfer

abbrev pub size_of : Command → ℕ
size_of query = 0
size_of enable = 0
size_of disable = 0
size_of (connect info) = 56
size_of (disconnect peer_id) = 8
size_of (transfer xfer) = 40

abbrev pub id_of : Command → ℕ
id_of query = 1
id_of enable = 1
id_of disable = 1
id_of (connect info) = 1
id_of (disconnect peer_id) = 1
id_of (transfer xfer) = xfer.request_id

-- The fields fit their types.
abbrev pub CommandFits : Command → Type 0
CommandFits query = Unit {0}
CommandFits enable = Unit {0}
CommandFits disable = Unit {0}
CommandFits (connect info) = ConnectFits info
CommandFits (disconnect peer_id) = peer_id < 2 ^ 64
CommandFits (transfer xfer) = TransferFits xfer

pub length-payload_of : (c : Command) → CommandFits c → length (payload_of c) ≡ size_of c
length-payload_of query f = refl
length-payload_of enable f = refl
length-payload_of disable f = refl
length-payload_of (connect info) f = length-connect_bytes info f.eid
length-payload_of (disconnect peer_id) f = refl
length-payload_of (transfer xfer) f = length-transfer_bytes xfer

-- The header and the array for the payload tell the server what was asked for.
pub perform_lem :
    (scene : Scene) (s : System) (c : Command)
    → CommandFits c
    → 56 ≤ length scene.garbage
    → perform scene s
        (request_hdr (opcode_of c) (size_of c) (id_of c))
        (splice scene.garbage 0 (payload_of c))
      ≡ execute scene s c
unfolding perform execute request_hdr
perform_lem scene s query f big = refl
perform_lem scene s enable f big = refl
perform_lem scene s disable f big = refl
perform_lem scene s (connect info) f big =
    let bytes = connect_bytes info in
    let there : parse_connect (splice scene.garbage 0 bytes) ≡ info =
      ap parse_connect
        (splice_front scene.garbage bytes (omega (arith, big, length-connect_bytes info f.eid)))
      ∙ parse_connect-bytes info (drop (length bytes) scene.garbage) f in
    rw there refl
perform_lem scene s (disconnect peer_id) f big =
    let there : field_at (splice scene.garbage 0 (put_le 8 peer_id)) 0 8 ≡ peer_id =
      ap (λ l. field_at l 0 8) (splice_front scene.garbage (put_le 8 peer_id) (omega (arith, big)))
      ∙ get_le-put_le 8 peer_id (eight_bytes peer_id f) in
    rw there refl
perform_lem scene s (transfer xfer) f big =
    let bytes = transfer_bytes xfer in
    let there : parse_transfer (splice scene.garbage 0 bytes) ≡ xfer =
      ap parse_transfer
        (splice_front scene.garbage bytes (omega (arith, big, length-transfer_bytes xfer)))
      ∙ parse_transfer-bytes xfer (drop (length bytes) scene.garbage) f in
    rw there refl
