-- ===== src/Ctrl/Messages/RoundTrip.antt =====
-- A message that is sent is the message that is received.
use ddr_direct_storage.Base.{
  ℕ, append_assoc, ◌+◌, ◌<◌, ◌^◌, ◌≡◌, refl, ap, ◌∙◌, [], ◌++◌, arith, Bytes, length, slice,
  length-append,
}
use ddr_direct_storage.Layout.{
  put_le, get_le, HasBytes, get_le-put_le, two_bytes, four_bytes, eight_bytes, slice_behind,
  slice_front,
}
use ddr_direct_storage.Urma.State.{PeerConnectInfo, Transfer}
use ddr_direct_storage.Urma.Peers.{CtrlStatus}
use ddr_direct_storage.Ctrl.Messages.{
  CtrlHdr, hdr_bytes, parse_hdr, CtrlResp, resp_bytes, parse_resp, status_bytes, parse_status,
  connect_bytes, parse_connect, transfer_bytes, parse_transfer,
}

-- The fields fit their types.
pub record HdrFits (hdr : CtrlHdr) : Type 0 where
  pub magic : hdr.magic < 2 ^ 32
  pub version : hdr.version < 2 ^ 16
  pub opcode : hdr.opcode < 2 ^ 16
  pub payload_len : hdr.payload_len < 2 ^ 32
  pub flags : hdr.flags < 2 ^ 32
  pub request_id : hdr.request_id < 2 ^ 64

pub parse_hdr-bytes :
    (hdr : CtrlHdr) (rest : Bytes) → HdrFits hdr → parse_hdr (hdr_bytes hdr ++ rest) ≡ hdr
unfolding parse_hdr hdr_bytes
parse_hdr-bytes hdr rest f = λ i. record {
  magic = get_le-put_le 4 hdr.magic (four_bytes hdr.magic f.magic) i;
  version = get_le-put_le 2 hdr.version (two_bytes hdr.version f.version) i;
  opcode = get_le-put_le 2 hdr.opcode (two_bytes hdr.opcode f.opcode) i;
  payload_len = get_le-put_le 4 hdr.payload_len (four_bytes hdr.payload_len f.payload_len) i;
  flags = get_le-put_le 4 hdr.flags (four_bytes hdr.flags f.flags) i;
  request_id = get_le-put_le 8 hdr.request_id (eight_bytes hdr.request_id f.request_id) i;
}

pub record RespFits (resp : CtrlResp) : Type 0 where
  pub hdr : HdrFits resp.hdr
  pub status : resp.status < 2 ^ 32
  pub payload_len : resp.payload_len < 2 ^ 32

pub parse_resp-bytes :
    (resp : CtrlResp) (rest : Bytes) → RespFits resp → parse_resp (resp_bytes resp ++ rest) ≡ resp
unfolding parse_resp resp_bytes hdr_bytes parse_hdr
parse_resp-bytes resp rest f = λ i. record {
  hdr = parse_hdr-bytes resp.hdr [] f.hdr i;
  status = get_le-put_le 4 resp.status (four_bytes resp.status f.status) i;
  payload_len = get_le-put_le 4 resp.payload_len (four_bytes resp.payload_len f.payload_len) i;
}

pub record StatusFits (s : CtrlStatus) : Type 0 where
  pub size : s.size < 2 ^ 64
  pub block_size : s.block_size < 2 ^ 32
  pub urma_enabled : s.urma_enabled < 2 ^ 32
  pub peer_count : s.peer_count < 2 ^ 32
  pub queue_depth : s.queue_depth < 2 ^ 32
  pub inflight : s.inflight < 2 ^ 32
  pub pending : s.pending < 2 ^ 32
  pub completed : s.completed < 2 ^ 64
  pub failed : s.failed < 2 ^ 64

pub parse_status-bytes :
    (s : CtrlStatus) (rest : Bytes) → StatusFits s → parse_status (status_bytes s ++ rest) ≡ s
unfolding parse_status status_bytes
parse_status-bytes s rest f = λ i. record {
  size = get_le-put_le 8 s.size (eight_bytes s.size f.size) i;
  block_size = get_le-put_le 4 s.block_size (four_bytes s.block_size f.block_size) i;
  urma_enabled = get_le-put_le 4 s.urma_enabled (four_bytes s.urma_enabled f.urma_enabled) i;
  peer_count = get_le-put_le 4 s.peer_count (four_bytes s.peer_count f.peer_count) i;
  queue_depth = get_le-put_le 4 s.queue_depth (four_bytes s.queue_depth f.queue_depth) i;
  inflight = get_le-put_le 4 s.inflight (four_bytes s.inflight f.inflight) i;
  pending = get_le-put_le 4 s.pending (four_bytes s.pending f.pending) i;
  completed = get_le-put_le 8 s.completed (eight_bytes s.completed f.completed) i;
  failed = get_le-put_le 8 s.failed (eight_bytes s.failed f.failed) i;
}

pub record TransferFits (x : Transfer) : Type 0 where
  pub peer_id : x.peer_id < 2 ^ 64
  pub request_id : x.request_id < 2 ^ 64
  pub local_offset : x.local_offset < 2 ^ 64
  pub remote_hbm_addr : x.remote_hbm_addr < 2 ^ 64
  pub len : x.len < 2 ^ 32
  pub direction : x.direction < 2 ^ 32

pub parse_transfer-bytes :
    (x : Transfer) (rest : Bytes) → TransferFits x → parse_transfer (transfer_bytes x ++ rest) ≡ x
unfolding parse_transfer transfer_bytes
parse_transfer-bytes x rest f = λ i. record {
  peer_id = get_le-put_le 8 x.peer_id (eight_bytes x.peer_id f.peer_id) i;
  request_id = get_le-put_le 8 x.request_id (eight_bytes x.request_id f.request_id) i;
  local_offset = get_le-put_le 8 x.local_offset (eight_bytes x.local_offset f.local_offset) i;
  remote_hbm_addr =
      get_le-put_le 8 x.remote_hbm_addr (eight_bytes x.remote_hbm_addr f.remote_hbm_addr) i;
  len = get_le-put_le 4 x.len (four_bytes x.len f.len) i;
  direction = get_le-put_le 4 x.direction (four_bytes x.direction f.direction) i;
}

pub record ConnectFits (info : PeerConnectInfo) : Type 0 where
  pub peer_id : info.peer_id < 2 ^ 64
  pub eid : length info.eid ≡ 16
  pub uasid : info.uasid < 2 ^ 32
  pub seg_va : info.seg_va < 2 ^ 64
  pub seg_len : info.seg_len < 2 ^ 64
  pub seg_token_id : info.seg_token_id < 2 ^ 32
  pub jetty_id : info.jetty_id < 2 ^ 32

-- The fields behind the EID.
abbrev behind_eid : PeerConnectInfo → Bytes → Bytes
behind_eid info rest =
    put_le 4 info.uasid
    ++ put_le 4 0
    ++ put_le 8 info.seg_va
    ++ put_le 8 info.seg_len
    ++ put_le 4 info.seg_token_id
    ++ put_le 4 info.jetty_id
    ++ rest

pub parse_connect-bytes :
    (info : PeerConnectInfo) (rest : Bytes)
    → ConnectFits info
    → parse_connect (connect_bytes info ++ rest) ≡ info
unfolding parse_connect connect_bytes
parse_connect-bytes info rest f =
    let tail = behind_eid info rest in
    let at : (n k w : ℕ) → 16 + k ≡ n → slice (info.eid ++ tail) n w ≡ slice tail k w =
      λ n k w e. slice_behind info.eid tail n k w (omega (arith, e, f.eid)) in
    let word : (n k w v : ℕ)
        → 16 + k ≡ n
        → slice tail k w ≡ put_le w v
        → HasBytes w v
        → get_le (slice (info.eid ++ tail) n w) ≡ v =
      λ n k w v e found h. ap get_le (at n k w e ∙ found) ∙ get_le-put_le w v h in
    ap (λ l. parse_connect (put_le 8 info.peer_id ++ l))
      (append_assoc info.eid (behind_eid info []) rest)
    ∙ λ i. record {
      peer_id = get_le-put_le 8 info.peer_id (eight_bytes info.peer_id f.peer_id) i;
      eid = slice_front info.eid tail 16 f.eid i;
      uasid = word 16 0 4 info.uasid refl refl (four_bytes info.uasid f.uasid) i;
      seg_va = word 24 8 8 info.seg_va refl refl (eight_bytes info.seg_va f.seg_va) i;
      seg_len = word 32 16 8 info.seg_len refl refl (eight_bytes info.seg_len f.seg_len) i;
      seg_token_id =
          word 40 24 4 info.seg_token_id refl refl (four_bytes info.seg_token_id f.seg_token_id) i;
      jetty_id = word 44 28 4 info.jetty_id refl refl (four_bytes info.jetty_id f.jetty_id) i;
    }

pub length-hdr_bytes : (hdr : CtrlHdr) → length (hdr_bytes hdr) ≡ 24
unfolding hdr_bytes
length-hdr_bytes hdr = refl

pub length-resp_bytes : (resp : CtrlResp) → length (resp_bytes resp) ≡ 32
unfolding resp_bytes hdr_bytes
length-resp_bytes resp = refl

pub length-status_bytes : (s : CtrlStatus) → length (status_bytes s) ≡ 48
unfolding status_bytes
length-status_bytes s = refl

pub length-transfer_bytes : (x : Transfer) → length (transfer_bytes x) ≡ 40
unfolding transfer_bytes
length-transfer_bytes x = refl

pub length-connect_bytes :
    (info : PeerConnectInfo) → length info.eid ≡ 16 → length (connect_bytes info) ≡ 56
unfolding connect_bytes
length-connect_bytes info e = omega (arith, e, length-append info.eid (behind_eid info []))
