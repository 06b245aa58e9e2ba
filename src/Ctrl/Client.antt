-- ===== src/Ctrl/Client.antt =====
-- The calls of userspace-nbd/src/ramdisk_ctrl_client.c, each over a connection of its own.
pub mod Calls
pub mod Eid
use ddr_direct_storage.Base.{
  ℕ, ◌%◌, ◌^◌, Bool, true, false, not, ◌&&◌, ◌||◌, Option, none, some, List, [], ◌∷◌, ltb, ◌==◌,
  if◌then◌else◌, is_none, ◌>>=◌, Status, ok, err, Bytes, length, take, load, splice, zeros,
}
use ddr_direct_storage.Base.Errno.{einval, epipe, eproto, enospc}
use ddr_direct_storage.Layout.{put_le}
use ddr_direct_storage.Stream.{
  Received, complete, closed, broken, Written, finished, waits, Conn, recv_full, send_both,
}
use ddr_direct_storage.Urma.State.{PeerConnectInfo, Transfer}
use ddr_direct_storage.Urma.Peers.{CtrlStatus}
use ddr_direct_storage.Ctrl.Messages.{
  ramdisk_ctrl_magic, ramdisk_ctrl_version, query_status_opcode, urma_enable_opcode,
  urma_disable_opcode, peer_connect_opcode, peer_disconnect_opcode, urma_transfer_opcode, CtrlHdr,
  hdr_bytes, CtrlResp, resp_size, parse_resp, int_of, status_size, parse_status, connect_size,
  connect_bytes, disconnect_size, transfer_size, transfer_bytes,
}

-- The `read_full` of this file: every end of the input within a message is `EPIPE`.
unfoldable pub read_full : Conn → ℕ → Received × Conn
read_full conn len =
    let (r, conn') = recv_full conn len in
    (
      elim r [ complete bytes ↦ complete bytes | closed ↦ broken epipe | broken e ↦ broken e ],
      conn',
    )

-- `connect_sock`; `socket_rc` and `connect` are what the system calls answer. The path is cut off at
-- the 108 bytes of `sun_path`.
unfoldable pub connect_sock : Option Bytes → Status → (Bytes → Status) → Status
connect_sock none socket_rc connect = err einval
connect_sock (some path) socket_rc connect = elim socket_rc [
  | err e ↦ err e
  | ok ↦ connect (take 107 path)
]

unfoldable pub request_hdr : ℕ → ℕ → ℕ → CtrlHdr
request_hdr opcode payload_len request_id = record {
  magic = ramdisk_ctrl_magic;
  version = ramdisk_ctrl_version;
  opcode = opcode;
  payload_len = payload_len;
  flags = 0;
  request_id = request_id;
}

-- What a call returns, an `int` as its bit pattern, with the bytes stored through `resp_payload`; or
-- it waits for ever.
pub data Answer : Type 0 where
  replies : ℕ → Bytes → Answer
  hangs : Answer

-- From the payload of the response on. `room` is `*resp_payload_len`, if both pointers are set.
unfoldable pub read_answer : Option ℕ → CtrlResp → Conn → Answer × Conn
unfolding read_full
read_answer room resp conn =
    if resp.payload_len == 0 then (replies resp.status [], conn) else elim room [
      | none ↦ (replies (int_of (err enospc)) [], conn)
      | some n ↦
          if ltb n resp.payload_len
          then (replies (int_of (err enospc)) [], conn)
          else let (r, conn') = read_full conn resp.payload_len in
            (
              elim r [
                | complete bytes ↦ replies resp.status bytes
                | closed ↦ hangs
                | broken e ↦ replies (int_of (err e)) []
              ],
              conn',
            )
    ]

-- The response.
unfoldable pub receive : Option ℕ → Conn → Answer × Conn
receive room conn =
    let (r, conn') = read_full conn resp_size in
    elim r [
      | closed ↦ (hangs, conn')
      | broken e ↦ (replies (int_of (err e)) [], conn')
      | complete bytes ↦
          let resp = parse_resp bytes in
          if not (resp.hdr.magic == ramdisk_ctrl_magic)
            || not (resp.hdr.version == ramdisk_ctrl_version)
          then (replies (int_of (err eproto)) [], conn')
          else read_answer room resp conn'
    ]

-- The two writes of a request.
unfoldable pub send_request : Conn → CtrlHdr → Bytes → Written × Conn
unfolding send_both
send_request conn hdr payload = send_both conn (hdr_bytes hdr) payload

-- With a connection.
unfoldable pub exchange : Conn → CtrlHdr → Bytes → Option ℕ → Answer × Conn
unfolding send_request receive
exchange conn hdr payload room =
    let (w, conn') = send_request conn hdr payload in
    elim w [
      | waits ↦ (hangs, conn')
      | finished (err e) ↦ (replies (int_of (err e)) [], conn')
      | finished ok ↦ receive room conn'
    ]

-- `payload` is the object that the pointer points to; `sock` is what `connect_sock` returns, and
-- `conn` the connection.
unfoldable pub ramdisk_ctrl_transact :
    Status → Conn → ℕ → Option Bytes → ℕ → Option ℕ → ℕ → Option (Answer × Conn)
unfolding exchange request_hdr
ramdisk_ctrl_transact sock conn opcode payload payload_len room request_id =
    if not (payload_len == 0) && is_none payload
    then some (replies (int_of (err einval)) [], conn)
    else elim sock [
      | err e ↦ some (replies (int_of (err e)) [], conn)
      | ok ↦ do
        bytes ← (if payload_len == 0 then some [] else payload >>= (λ p. load p 0 payload_len))
        some (exchange conn (request_hdr opcode payload_len request_id) bytes room)
    ]

-- The answer to a query carries the bytes of the status; what a read that fails has stored before is
-- left out.
unfoldable pub ramdisk_ctrl_query_status : Status → Conn → Option (Answer × Conn)
unfolding ramdisk_ctrl_transact
ramdisk_ctrl_query_status sock conn =
    ramdisk_ctrl_transact sock conn query_status_opcode none 0 (some status_size) 1

unfoldable pub ramdisk_ctrl_enable_urma : Status → Conn → Option (Answer × Conn)
unfolding ramdisk_ctrl_transact
ramdisk_ctrl_enable_urma sock conn =
    ramdisk_ctrl_transact sock conn urma_enable_opcode none 0 none 1

unfoldable pub ramdisk_ctrl_disable_urma : Status → Conn → Option (Answer × Conn)
unfolding ramdisk_ctrl_transact
ramdisk_ctrl_disable_urma sock conn =
    ramdisk_ctrl_transact sock conn urma_disable_opcode none 0 none 1

unfoldable pub ramdisk_ctrl_peer_connect :
    Status → Conn → Option PeerConnectInfo → Option (Answer × Conn)
unfolding ramdisk_ctrl_transact
ramdisk_ctrl_peer_connect sock conn none = some (replies (int_of (err einval)) [], conn)
ramdisk_ctrl_peer_connect sock conn (some peer) =
    ramdisk_ctrl_transact sock conn peer_connect_opcode (some (connect_bytes peer)) connect_size
      none 1

unfoldable pub ramdisk_ctrl_peer_disconnect : Status → Conn → ℕ → Option (Answer × Conn)
unfolding ramdisk_ctrl_transact
ramdisk_ctrl_peer_disconnect sock conn peer_id =
    ramdisk_ctrl_transact sock conn peer_disconnect_opcode (some (put_le 8 peer_id)) disconnect_size
      none 1

unfoldable pub ramdisk_ctrl_urma_transfer : Status → Conn → Option Transfer → Option (Answer × Conn)
unfolding ramdisk_ctrl_transact
ramdisk_ctrl_urma_transfer sock conn none = some (replies (int_of (err einval)) [], conn)
ramdisk_ctrl_urma_transfer sock conn (some xfer) =
    ramdisk_ctrl_transact sock conn urma_transfer_opcode (some (transfer_bytes xfer)) transfer_size
      none xfer.request_id
