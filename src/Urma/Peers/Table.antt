-- ===== src/Urma/Peers/Table.antt =====
-- The peer table is a finite map from peer ids to peers, of at most 32 entries.
use ddr_direct_storage.Base.{
  ℕ, zero, suc, ◌≡◌, refl, ◌⊎◌, inl, inr, true, ◌&&◌, Option, none, some, List, [], ◌∷◌, arith,
  ◌==◌, if◌then◌else◌, get_elem?, set, Bool-cases,
}
use ddr_direct_storage.Urma.State.{Peer, no_peer}
use ddr_direct_storage.Urma.Peers.{find_peer_locked, find_free_slot}

-- The table as a map.
abbrev pub peer_of : List Peer → ℕ → Option Peer
peer_of [] id = none
peer_of (p ∷ ps) id = if p.active && p.peer_id == id then some p else peer_of ps id

-- No two active peers have the same id.
abbrev pub Distinct : List Peer → Type 0
Distinct [] = Unit {0}
Distinct (p ∷ ps) = (p.active ≡ true → peer_of ps p.peer_id ≡ none) × Distinct ps

-- The search agrees with the map.
pub find_peer_lem :
    (ps : List Peer) (id : ℕ)
    → ((find_peer_locked ps id ≡ none) × (peer_of ps id ≡ none))
      ⊎ ((i : ℕ) × (p : Peer) × (find_peer_locked ps id ≡ some i)
          × (get_elem? ps i ≡ some p)
          × (peer_of ps id ≡ some p)
          × (p.active ≡ true)
          × (p.peer_id ≡ id))
unfolding find_peer_locked
find_peer_lem [] id = inl (refl, refl)
find_peer_lem (p ∷ ps) id = elim (Bool-cases (p.active && p.peer_id == id)) [
  | inl hit ↦ inr (0, p, ground arith, refl, ground arith, ground arith, ground arith)
  | inr miss ↦ elim (find_peer_lem ps id) [
    | inl q ↦ inl (ground arith, ground arith)
    | inr (i, q, f, g, h, a, b) ↦ inr (suc i, q, ground arith, g, ground arith, a, b)
  ]
]

-- Filling a free slot adds one entry to the map.
pub peer_of-add :
    (ps : List Peer) (p : Peer) (i id : ℕ)
    → p.active ≡ true
    → find_free_slot ps ≡ some i
    → peer_of ps p.peer_id ≡ none
    → peer_of (set ps i p) id ≡ (if p.peer_id == id then some p else peer_of ps id)
unfolding find_free_slot
peer_of-add [] p i id active free new = cc
peer_of-add (q ∷ qs) p zero id active free new = ground arith
peer_of-add (q ∷ qs) p (suc i) id active free new = ground (arith, peer_of-add qs p i id active)

-- Clearing the slot of an id removes its entry, and no other.
pub peer_of-clear :
    (ps : List Peer) (i id id' : ℕ)
    → Distinct ps
    → find_peer_locked ps id ≡ some i
    → peer_of (set ps i no_peer) id' ≡ (if id == id' then none else peer_of ps id')
unfolding find_peer_locked
peer_of-clear [] i id id' d found = cc
peer_of-clear (p ∷ ps) zero id id' d found = ground (arith, d.0)
peer_of-clear (p ∷ ps) (suc i) id id' d found = ground (arith, peer_of-clear ps i id id' d.1)

pub Distinct-add :
    (ps : List Peer) (p : Peer) (i : ℕ)
    → p.active ≡ true
    → find_free_slot ps ≡ some i
    → peer_of ps p.peer_id ≡ none
    → Distinct ps
    → Distinct (set ps i p)
unfolding find_free_slot
Distinct-add [] p i active free new d = cc
Distinct-add (q ∷ qs) p zero active free new d = ground arith
Distinct-add (q ∷ qs) p (suc i) active free new d =
    ground (arith, Distinct-add qs p i active, peer_of-add qs p i q.peer_id active)

pub Distinct-clear :
    (ps : List Peer) (i id : ℕ)
    → find_peer_locked ps id ≡ some i
    → Distinct ps
    → Distinct (set ps i no_peer)
unfolding find_peer_locked
Distinct-clear [] i id found d = cc
Distinct-clear (p ∷ ps) zero id found d = ground arith
Distinct-clear (p ∷ ps) (suc i) id found d =
    ground (arith, Distinct-clear ps i id, peer_of-clear ps i id p.peer_id d.1)
