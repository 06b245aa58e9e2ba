-- ===== src/Ctrl/Server.antt =====
-- The requests that userspace-nbd/src/ramdisk_ctrl_server.c serves on one connection.
pub mod Serving
use ddr_direct_storage.Base.{
  ℕ, ◌+◌, ◌%◌, ◌^◌, Bool, true, false, not, ◌||◌, Option, none, some, List, [], ◌∷◌, ltb, ◌==◌,
  if◌then◌else◌, ◌>>=◌, Status, ok, err, Bytes, splice, length,
}
use ddr_direct_storage.Base.Errno.{einval, eopnotsupp}
use ddr_direct_storage.Layout.{field_at}
use ddr_direct_storage.Stream.{
  Received, complete, closed, broken, Written, finished, waits, Conn, recv_full, send_both,
}
use ddr_direct_storage.Backend.{ramdisk_backend_size, ramdisk_backend_block_size}
use ddr_direct_storage.Urma.Peers.{
  CtrlStatus, ramdisk_urma_fill_status, ramdisk_urma_enable, ramdisk_urma_disable,
  ramdisk_urma_peer_connect, ramdisk_urma_peer_disconnect,
}
use ddr_direct_storage.Urma.System.{System}
use ddr_direct_storage.Urma.System.Sync.{
  Round, Waited, returned, waiting, ramdisk_urma_transfer_sync,
}
use ddr_direct_storage.Ctrl.Messages.{
  ramdisk_ctrl_magic, ramdisk_ctrl_version, ramdisk_ctrl_max_payload, query_status_opcode,
  urma_enable_opcode, urma_disable_opcode, peer_connect_opcode, peer_disconnect_opcode,
  urma_transfer_opcode, CtrlHdr, hdr_size, parse_hdr, CtrlResp, resp_bytes, int_of, status_bytes,
  connect_size, parse_connect, disconnect_size, transfer_size, parse_transfer,
}

-- `resp`, filled for a request.
unfoldable pub response : CtrlHdr → Status → Bytes → CtrlResp
response req status payload = record {
  hdr = record {
    magic = ramdisk_ctrl_magic;
    version = ramdisk_ctrl_version;
    opcode = req.opcode;
    payload_len = (8 + length payload) % 2 ^ 32;
    flags = 0;
    request_id = req.request_id;
  };
  status = int_of status;
  payload_len = length payload;
}

unfoldable pub send_response : Conn → CtrlHdr → Status → Bytes → Written × Conn
unfolding response send_both
send_response conn req status payload =
    send_both conn (resp_bytes (response req status payload)) payload

-- What one request meets: whether `calloc` succeeds, what the other threads do while it waits, and
-- what the array for the payload held before.
pub record Scene : Type 0 where
  pub calloc_ok : Bool
  pub rounds : List Round
  pub garbage : Bytes

abbrev pub zeroed_status : CtrlStatus
zeroed_status = record {
  size = 0;
  block_size = 0;
  urma_enabled = 0;
  peer_count = 0;
  queue_depth = 0;
  inflight = 0;
  pending = 0;
  completed = 0;
  failed = 0;
}

unfoldable pub query_status : System → CtrlStatus
query_status s = ramdisk_urma_fill_status s.mgr (record zeroed_status {
  size = ramdisk_backend_size s.backend;
  block_size = ramdisk_backend_block_size s.backend;
})

-- The requests that answer with a status only.
unfoldable pub connect_request : Scene → System → CtrlHdr → Bytes → Status × System
connect_request scene s hdr payload =
    if not (hdr.payload_len == connect_size)
    then (err einval, s)
    else let (rc, m) =
        ramdisk_urma_peer_connect scene.calloc_ok s.mgr (some (parse_connect payload)) in
      (rc, record s { mgr = m })

unfoldable pub disconnect_request : System → CtrlHdr → Bytes → Status × System
disconnect_request s hdr payload =
    if not (hdr.payload_len == disconnect_size)
    then (err einval, s)
    else let (rc, m) = ramdisk_urma_peer_disconnect s.mgr (field_at payload 0 8) in
      (rc, record s { mgr = m })

unfoldable pub transfer_request : Scene → System → CtrlHdr → Bytes → Option (Waited × System)
transfer_request scene s hdr payload =
    if not (hdr.payload_len == transfer_size)
    then some (returned (err einval), s)
    else ramdisk_urma_transfer_sync scene.rounds s (some (parse_transfer payload))

-- What a request does, before it is answered: the status, the payload of the answer, and the state;
-- the outer `none` is undefined behaviour, the inner one a transfer that still waits.
unfoldable pub perform :
    Scene → System → CtrlHdr → Bytes → Option (Option (Status × Bytes) × System)
unfolding query_status connect_request disconnect_request transfer_request
perform scene s hdr payload =
    if hdr.opcode == query_status_opcode
    then some (some (ok, status_bytes (query_status s)), s)
    else if hdr.opcode == urma_enable_opcode
    then (let (rc, m) = ramdisk_urma_enable s.mgr in some (some (rc, []), record s { mgr = m }))
    else if hdr.opcode == urma_disable_opcode
    then (let (rc, m) = ramdisk_urma_disable s.mgr in some (some (rc, []), record s { mgr = m }))
    else if hdr.opcode == peer_connect_opcode
    then (let (rc, s') = connect_request scene s hdr payload in some (some (rc, []), s'))
    else if hdr.opcode == peer_disconnect_opcode
    then (let (rc, s') = disconnect_request s hdr payload in some (some (rc, []), s'))
    else if hdr.opcode == urma_transfer_opcode
    then (do
      (w, s') ← transfer_request scene s hdr payload
      some (elim w [ returned rc ↦ (some (rc, []), s') | waiting ↦ (none, s') ]))
    else some (some (err eopnotsupp, []), s)

unfoldable pub handle_request :
    Scene → System → Conn → CtrlHdr → Bytes → Option (Written × System × Conn)
unfolding perform send_response
handle_request scene s conn hdr payload = do
  (answer, s') ← perform scene s hdr payload
  some (elim answer [
    | none ↦ (waits, s', conn)
    | some (rc, bytes) ↦ let (w, conn') = send_response conn hdr rc bytes in (w, s', conn')
  ])

abbrev pub bad_hdr : CtrlHdr → Bool
bad_hdr hdr =
    not (hdr.magic == ramdisk_ctrl_magic)
    || not (hdr.version == ramdisk_ctrl_version)
    || ltb ramdisk_ctrl_max_payload hdr.payload_len

-- How one turn of the loop ends.
pub data Turn : Type 0 where
  again : Turn
  leave : Turn
  stuck : Turn

-- What the array holds after `read_full`, and whether it failed. An end of the input is no failure.
abbrev pub payload_read : Bytes → Received → Option Bytes
payload_read garbage (complete bs) = some (splice garbage 0 bs)
payload_read garbage closed = some garbage
payload_read garbage (broken e) = none

unfoldable pub read_payload : Scene → Conn → ℕ → Option Bytes × Conn
read_payload scene conn len =
    if len == 0
    then (some scene.garbage, conn)
    else let (r, conn') = recv_full conn len in (payload_read scene.garbage r, conn')

-- The part of the loop behind the checks of the header.
unfoldable pub serve_request : Scene → System → Conn → CtrlHdr → Option (Turn × System × Conn)
unfolding read_payload
serve_request scene s conn hdr =
    let (payload, conn') = read_payload scene conn hdr.payload_len in
    elim payload [
      | none ↦ some (leave, s, conn')
      | some bytes ↦ do
        (w, s', conn'') ← handle_request scene s conn' hdr bytes
        some (elim w [
          | waits ↦ (stuck, s', conn'')
          | finished (err e) ↦ (leave, s', conn'')
          | finished ok ↦ (again, s', conn'')
        ])
    ]

-- One turn of the loop.
unfoldable pub serve_turn : Scene → System → Conn → Option (Turn × System × Conn)
unfolding serve_request
serve_turn scene s conn =
    let (r, conn') = recv_full conn hdr_size in
    elim r [
      | closed ↦ some (leave, s, conn')
      | broken e ↦ some (leave, s, conn')
      | complete bytes ↦
          let hdr = parse_hdr bytes in
          if bad_hdr hdr
          then (let (w, conn'') = send_response conn' hdr (err einval) [] in
              some (elim w [ waits ↦ stuck | finished rc ↦ leave ], s, conn''))
          else serve_request scene s conn' hdr
    ]

-- The loop, for as many turns as there are scenes.
unfoldable pub serve_client : List Scene → System → Conn → Option (Turn × System × Conn)
serve_client [] s conn = some (again, s, conn)
serve_client (scene ∷ scenes) s conn = do
  (t, s', conn') ← serve_turn scene s conn
  elim t [
    | again ↦ serve_client scenes s' conn'
    | leave ↦ some (leave, s', conn')
    | stuck ↦ some (stuck, s', conn')
  ]
