-- ===== src/Urma/Peers/Map.antt =====
-- Connecting and disconnecting, as operations on the map of peers.
use ddr_direct_storage.Base.{
  ℕ, ◌≡◌, ◌≢◌, refl, inl, inr, Bool, true, Option, none, some, arith, ◌==◌, if◌then◌else◌, ok, err,
  zeros, length, length-set, Option-cases, is_none,
}
use ddr_direct_storage.Urma.State.{Peer, no_peer, PeerConnectInfo, Mgr}
use ddr_direct_storage.Urma.Peers.{
  find_free_slot, new_peer, add_peer_locked, ramdisk_urma_peer_connect,
  ramdisk_urma_peer_disconnect,
}
use ddr_direct_storage.Urma.Peers.Table.{
  peer_of, Distinct, find_peer_lem, peer_of-add, peer_of-clear, Distinct-add, Distinct-clear,
}

-- The peer that a connection makes: its mock memory is zero throughout its segment.
abbrev pub fresh_peer : PeerConnectInfo → Peer
fresh_peer info = new_peer info (some (zeros info.seg_len))

add_peer_lem :
    (m : Mgr) (p : Peer)
    → p.active ≡ true
    → Distinct m.peers
    → (add_peer_locked m p).0 ≡ ok
    → (m.enabled ≡ true)
      × (peer_of m.peers p.peer_id ≡ none)
      × Distinct (add_peer_locked m p).1.peers
      × (length (add_peer_locked m p).1.peers ≡ length m.peers)
      × ((id : ℕ)
          → peer_of (add_peer_locked m p).1.peers id
            ≡ (if p.peer_id == id then some p else peer_of m.peers id))
unfolding add_peer_locked
add_peer_lem m p active d done = elim (Option-cases (find_free_slot m.peers)) [
  | inl full ↦ absurd (ground arith)
  | inr (i, free) ↦
      let old = find_peer_lem m.peers p.peer_id in
      let new : peer_of m.peers p.peer_id ≡ none = ground arith in
      (
        ground arith,
        new,
        ground (arith, Distinct-add m.peers p i active free new d),
        ground (arith, length-set m.peers i p),
        λ id. ground (arith, peer_of-add m.peers p i id active free new),
      )
]

-- A connection that succeeds was asked for while the path was enabled, with an id that was not
-- connected. It adds that peer, with its memory zeroed, changes no other peer, and keeps the
-- ids distinct and the size of the table.
pub connect_ok :
    (got : Bool) (m : Mgr) (info : PeerConnectInfo)
    → Distinct m.peers
    → (ramdisk_urma_peer_connect got m (some info)).0 ≡ ok
    → let m' = (ramdisk_urma_peer_connect got m (some info)).1 in
      (m.enabled ≡ true)
      × (peer_of m.peers info.peer_id ≡ none)
      × Distinct m'.peers
      × (length m'.peers ≡ length m.peers)
      × ((id : ℕ)
          → peer_of m'.peers id
            ≡ (if info.peer_id == id then some (fresh_peer info) else peer_of m.peers id))
unfolding ramdisk_urma_peer_connect
connect_ok got m info d done =
    let reached : ramdisk_urma_peer_connect got m (some info)
        ≡ add_peer_locked m (fresh_peer info) =
      ground arith in
    rw reached (add_peer_lem m (fresh_peer info) refl d (rw reached at done))

-- One that fails changes nothing.
pub connect_err :
    (got : Bool) (m : Mgr) (info : Option PeerConnectInfo) {e : ℕ}
    → (ramdisk_urma_peer_connect got m info).0 ≡ err e
    → (ramdisk_urma_peer_connect got m info).1 ≡ m
unfolding ramdisk_urma_peer_connect add_peer_locked
connect_err got m info h = ground arith

-- Disconnecting a connected peer of an initialised manager succeeds, and removes its entry only.
-- Otherwise nothing changes.
pub disconnect_lem :
    (m : Mgr) (id : ℕ)
    → m.initialized ≡ true
    → id ≢ 0
    → Distinct m.peers
    → let (s, m') = ramdisk_urma_peer_disconnect m id in
      (s ≡ (if is_none (peer_of m.peers id) then err 2 else ok))
      × Distinct m'.peers
      × (length m'.peers ≡ length m.peers)
      × ((id' : ℕ) → peer_of m'.peers id' ≡ (if id == id' then none else peer_of m.peers id'))
unfolding ramdisk_urma_peer_disconnect
disconnect_lem m id live nz d = elim (find_peer_lem m.peers id) [
  | inl (f, p) ↦ (ground arith, ground arith, ground arith, λ id'. ground arith)
  | inr (i, p, f, g, h, a, b) ↦ (
    ground arith,
    ground (arith, Distinct-clear m.peers i id f d),
    ground (arith, length-set m.peers i no_peer),
    λ id'. ground (arith, peer_of-clear m.peers i id id' d f),
  )
]
