-- ===== src/Urma/Transfer.antt =====
-- Validating and executing a transfer of userspace-nbd/src/ramdisk_urma.c, and the two functions by
-- which tests reach a mock peer's memory.
pub mod Checks
pub mod Effect
use ddr_direct_storage.Base.{
  ℕ, ◌+◌, ◌-◌, ◌%◌, ◌^◌, Bool, true, false, not, ◌&&◌, ◌||◌, Option, none, some, List, ltb, ◌==◌,
  if◌then◌else◌, ◌>>=◌, Status, ok, err, Bytes, get_or, set, load, store,
}
use ddr_direct_storage.Base.Errno.{einval, eopnotsupp, erange, enodev, enosys}
use ddr_direct_storage.Backend.{
  Backend, copy_in, copy_out, ramdisk_backend_validate_range, ramdisk_backend_lock,
  ramdisk_backend_unlock, ramdisk_backend_base, ramdisk_backend_block_size,
}
use ddr_direct_storage.Urma.State.{
  Peer, no_peer, Transfer, Request, ramdisk_to_hbm, hbm_to_ramdisk, Mgr,
}
use ddr_direct_storage.Urma.Peers.{find_peer_locked}

-- `a - b` in `uint64_t`.
abbrev pub sub_u64 : ℕ → ℕ → ℕ
sub_u64 a b = (a + 2 ^ 64 - b) % 2 ^ 64

unfoldable pub validate_alignment : Backend → Transfer → Status
unfolding ramdisk_backend_block_size
validate_alignment b xfer =
    let bs = ramdisk_backend_block_size b in
    if bs == 0
    then err einval
    else if not (xfer.local_offset % bs == 0)
        || not (xfer.remote_hbm_addr % bs == 0)
        || not (xfer.len % bs == 0)
    then err einval
    else ok

abbrev pub is_ok : Status → Bool
is_ok ok = true
is_ok (err e) = false

-- The peer's segment contains the remote range.
unfoldable pub validate_segment : Peer → Transfer → Status
validate_segment peer xfer =
    if ltb xfer.remote_hbm_addr peer.seg_va
    then err erange
    else let remote_off = xfer.remote_hbm_addr - peer.seg_va in
      if ltb peer.seg_len remote_off || ltb (peer.seg_len - remote_off) xfer.len
      then err erange
      else ok

-- The option is what is stored through `peer_out`: the peer's slot, or nothing on an error.
unfoldable pub validate_xfer_locked : Mgr → Backend → Transfer → Status × Option ℕ
validate_xfer_locked mgr b xfer =
    if not mgr.enabled
    then (err eopnotsupp, none)
    else if xfer.len == 0
    then (err einval, none)
    else if not (xfer.direction == ramdisk_to_hbm) && not (xfer.direction == hbm_to_ramdisk)
    then (err einval, none)
    else if not (is_ok (ramdisk_backend_validate_range b xfer.local_offset xfer.len))
    then (err erange, none)
    else if not (is_ok (validate_alignment b xfer))
    then (err einval, none)
    else elim (find_peer_locked mgr.peers xfer.peer_id) [
      | none ↦ (err enodev, none)
      | some i ↦ elim (validate_segment (get_or mgr.peers i no_peer) xfer) [
        | err e ↦ (err e, none)
        | ok ↦ (ok, some i)
      ]
    ]

-- The two `memcpy`s, by direction.
unfoldable pub mock_copy : Backend → Bytes → Transfer → ℕ → Option (Backend × Bytes)
mock_copy b hbm xfer remote_off =
    if xfer.direction == ramdisk_to_hbm
    then (do
      base ← ramdisk_backend_base b
      bytes ← load base xfer.local_offset xfer.len
      hbm' ← store hbm remote_off bytes
      some (b, hbm'))
    else (do
      bytes ← load hbm remote_off xfer.len
      base' ← copy_in (ramdisk_backend_base b) xfer.local_offset bytes
      some (record b { base = base' }, hbm))

-- `rc` is what `pthread_mutex_lock` returns, `slot` the peer's place in the table.
unfoldable pub execute_mock_xfer :
    ℕ → Backend → List Peer → Transfer → ℕ → Option (Status × Backend × List Peer)
execute_mock_xfer rc b peers xfer slot =
    let peer = get_or peers slot no_peer in
    let remote_off = sub_u64 xfer.remote_hbm_addr peer.seg_va in
    elim peer.mock_hbm [
      | none ↦ some (err enodev, b, peers)
      | some hbm ↦
          let (s, b') = ramdisk_backend_lock rc b in
          elim s [
            | err e ↦ some (err e, b', peers)
            | ok ↦ do
              (b'', hbm') ← mock_copy b' hbm xfer remote_off
              some (
                ok,
                ramdisk_backend_unlock b'',
                set peers slot (record peer { mock_hbm = some hbm' }),
              )
          ]
    ]

-- Without HAVE_URMA.
unfoldable pub execute_real_xfer : Backend → List Peer → Option (Status × Backend × List Peer)
execute_real_xfer b peers = some (err enosys, b, peers)

-- The guards that `ramdisk_urma_mock_write_peer` and `ramdisk_urma_mock_read_peer` share.
unfoldable pub mock_peer_range : Peer → ℕ → ℕ → Status
mock_peer_range peer remote_addr len =
    if ltb remote_addr peer.seg_va
      || ltb peer.seg_len len
      || ltb (peer.seg_len - len) (remote_addr - peer.seg_va)
    then err erange
    else ok

unfoldable pub ramdisk_urma_mock_write_peer : Mgr → ℕ → ℕ → Option Bytes → ℕ → Option (Status × Mgr)
ramdisk_urma_mock_write_peer mgr peer_id remote_addr none len = some (err einval, mgr)
ramdisk_urma_mock_write_peer mgr peer_id remote_addr (some buf) len =
    elim (find_peer_locked mgr.peers peer_id) [
      | none ↦ some (err enodev, mgr)
      | some i ↦
          let peer = get_or mgr.peers i no_peer in
          elim peer.mock_hbm [
            | none ↦ some (err enodev, mgr)
            | some hbm ↦ elim (mock_peer_range peer remote_addr len) [
              | err e ↦ some (err e, mgr)
              | ok ↦ do
                bytes ← load buf 0 len
                hbm' ← store hbm (remote_addr - peer.seg_va) bytes
                some (
                  ok,
                  record mgr { peers = set mgr.peers i (record peer { mock_hbm = some hbm' }) },
                )
            ]
          ]
    ]

unfoldable pub ramdisk_urma_mock_read_peer :
    Mgr → ℕ → ℕ → Option Bytes → ℕ → Option (Status × Option Bytes)
ramdisk_urma_mock_read_peer mgr peer_id remote_addr none len = some (err einval, none)
ramdisk_urma_mock_read_peer mgr peer_id remote_addr (some buf) len =
    elim (find_peer_locked mgr.peers peer_id) [
      | none ↦ some (err enodev, some buf)
      | some i ↦
          let peer = get_or mgr.peers i no_peer in
          elim peer.mock_hbm [
            | none ↦ some (err enodev, some buf)
            | some hbm ↦ elim (mock_peer_range peer remote_addr len) [
              | err e ↦ some (err e, some buf)
              | ok ↦ do
                buf' ← copy_out (some hbm) (remote_addr - peer.seg_va) len buf
                some (ok, some buf')
            ]
          ]
    ]
