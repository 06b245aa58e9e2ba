-- ===== src/Urma/Transfer/Effect.antt =====
-- What `execute_mock_xfer` copies.
use ddr_direct_storage.Base.{
  ℕ, ◌+◌, ◌-◌, ◌^◌, ◌≤◌, ◌<◌, ◌≡◌, true, false, some, List, arith, ◌==◌, if◌then◌else◌, ok, Bytes,
  get_elem?, set, length, get_or-of-get_elem?, slice, splice, load-some, store-some, length-slice,
}
use ddr_direct_storage.Backend.{
  Backend, ramdisk_backend_base, ramdisk_backend_lock, ramdisk_backend_unlock,
}
use ddr_direct_storage.Backend.Range.{Holds}
use ddr_direct_storage.Backend.Access.{copy_in_lem}
use ddr_direct_storage.Urma.State.{Peer, no_peer, Transfer, ramdisk_to_hbm}
use ddr_direct_storage.Urma.Transfer.{sub_u64, mock_copy, execute_mock_xfer}

-- A mock peer's memory has the length of its segment.
abbrev pub Backed : Peer → Bytes → Type 0
Backed p hbm = (p.mock_hbm ≡ some hbm) × (length hbm ≡ p.seg_len)

-- The RAM disk and the peer's memory after copying at the offset `ro` of the segment.
abbrev pub mem_after : Transfer → ℕ → Bytes → Bytes → Bytes
mem_after x ro mem hbm =
    if x.direction == ramdisk_to_hbm then mem else splice mem x.local_offset (slice hbm ro x.len)

abbrev pub hbm_after : Transfer → ℕ → Bytes → Bytes → Bytes
hbm_after x ro mem hbm =
    if x.direction == ramdisk_to_hbm then splice hbm ro (slice mem x.local_offset x.len) else hbm

pub mock_copy_lem :
    (b : Backend) (mem hbm : Bytes) (x : Transfer) (ro : ℕ)
    → Holds b mem
    → x.local_offset + x.len ≤ length mem
    → ro + x.len ≤ length hbm
    → mock_copy b hbm x ro
      ≡ some (record b { base = some (mem_after x ro mem hbm) }, hbm_after x ro mem hbm)
unfolding mock_copy ramdisk_backend_base
mock_copy_lem b mem hbm x ro holds inside room = ground (
  arith,
  load-some mem x.local_offset x.len,
  load-some hbm ro x.len,
  length-slice mem x.local_offset x.len,
  length-slice hbm ro x.len,
  store-some hbm ro (slice mem x.local_offset x.len),
  copy_in_lem mem (slice hbm ro x.len) x.local_offset,
)

-- A transfer whose ranges fit is carried out: exactly its range is copied, in its direction, at the
-- offset of its remote address in the segment; the backend's lock is free afterwards.
pub execute_mock_xfer_lem :
    (b : Backend) (mem hbm : Bytes) (ps : List Peer) (p : Peer) (x : Transfer) (i : ℕ)
    → Holds b mem
    → get_elem? ps i ≡ some p
    → Backed p hbm
    → x.remote_hbm_addr < 2 ^ 64
    → p.seg_va ≤ x.remote_hbm_addr
    → x.remote_hbm_addr + x.len ≤ p.seg_va + p.seg_len
    → x.local_offset + x.len ≤ length mem
    → let ro = x.remote_hbm_addr - p.seg_va in
      execute_mock_xfer 0 b ps x i
      ≡ some (
        ok,
        record b { base = some (mem_after x ro mem hbm); locked = false },
        set ps i (record p { mock_hbm = some (hbm_after x ro mem hbm) }),
      )
unfolding execute_mock_xfer ramdisk_backend_lock ramdisk_backend_unlock
execute_mock_xfer_lem b mem hbm ps p x i holds at backed word start end inside =
    let here = get_or-of-get_elem? ps i no_peer at in
    let off : sub_u64 x.remote_hbm_addr p.seg_va ≡ x.remote_hbm_addr - p.seg_va = omega arith in
    ground
      (arith, mock_copy_lem (record b { locked = true }) mem hbm x (x.remote_hbm_addr - p.seg_va))
