-- ===== src/Urma/Transfer/Checks.antt =====
-- What `validate_xfer_locked` admits.
use ddr_direct_storage.Base.{
  ℕ, ◌+◌, ◌≤◌, ◌<◌, ◌≡◌, ◌⊎◌, inl, inr, true, not, some, arith, ok, Bytes, get_elem?, length,
  is_none, get_or-of-get_elem?,
}
use ddr_direct_storage.Backend.{Backend}
use ddr_direct_storage.Backend.Range.{Holds, validate_range_lem}
use ddr_direct_storage.Urma.State.{Peer, no_peer, Transfer, Mgr, ramdisk_to_hbm, hbm_to_ramdisk}
use ddr_direct_storage.Urma.Peers.Table.{peer_of, find_peer_lem}
use ddr_direct_storage.Urma.Transfer.{is_ok, validate_segment, validate_xfer_locked}

-- `*peer_out` is written exactly when the result is 0.
pub validate_xfer_written :
    (m : Mgr) (b : Backend) (x : Transfer)
    → is_none (validate_xfer_locked m b x).1 ≡ not (is_ok (validate_xfer_locked m b x).0)
unfolding validate_xfer_locked
validate_xfer_written m b x = ground arith

-- What a transfer needs to be admitted: everything that the copies rely on.
pub record Admitted (m : Mgr) (b : Backend) (mem : Bytes) (x : Transfer) (i : ℕ) : Type 0 where
  pub enabled : m.enabled ≡ true
  pub some_bytes : 0 < x.len
  pub directed : (x.direction ≡ ramdisk_to_hbm) ⊎ (x.direction ≡ hbm_to_ramdisk)
  pub inside : x.local_offset + x.len ≤ length mem
  pub peer : Peer
  pub connected : peer_of m.peers x.peer_id ≡ some peer
  pub slot : get_elem? m.peers i ≡ some peer
  pub from_start : peer.seg_va ≤ x.remote_hbm_addr
  pub to_end : x.remote_hbm_addr + x.len ≤ peer.seg_va + peer.seg_len

-- A transfer that is admitted has its local range within the RAM disk and its remote range within
-- the segment of the connected peer whose slot is returned.
pub validate_xfer_sound :
    (m : Mgr) (b : Backend) (mem : Bytes) (x : Transfer) (i : ℕ)
    → Holds b mem
    → validate_xfer_locked m b x ≡ (ok, some i)
    → Admitted m b mem x i
unfolding validate_xfer_locked validate_segment
validate_xfer_sound m b mem x i holds e = elim (find_peer_lem m.peers x.peer_id) [
  | inl (missing, _) ↦ absurd (ground arith)
  | inr (j, p, found, there, mapped, _, _) ↦
      let at = get_or-of-get_elem? m.peers j no_peer there in
      let range = validate_range_lem b mem x.local_offset x.len holds in
      let same : j ≡ i = ground arith in
      record {
        enabled = ground arith;
        some_bytes = ground arith;
        directed = ground arith;
        inside = ground arith;
        peer = p;
        connected = mapped;
        slot = ground arith;
        from_start = ground arith;
        to_end = ground arith;
      }
]
