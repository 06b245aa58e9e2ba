-- ===== src/Urma/Queue/Ring.antt =====
-- The ring of request pointers is a FIFO queue of bounded length.
use native.Mathlib.Nat.{add-zero, mod-add-mod, mod-eq_of_lt, mod-eq-sub-mod, mod-lt}
use native.Mathlib.Decide.{dec_lt}
use ddr_direct_storage.Base.{
  ℕ, suc, ◌+◌, ◌-◌, ◌%◌, ◌≤◌, ◌<◌, ◌≡◌, ◌≢◌, sym, ap, ◌∙◌, ◌⊎◌, inl, inr, none, some, arith,
  get_elem?, set, length, length-set, get_elem?-set_self, get_elem?-set_ne,
}
use ddr_direct_storage.Urma.State.{Mgr, ramdisk_urma_max_queue_depth}
use ddr_direct_storage.Urma.Queue.{enqueue, dequeue}

-- The queue holds the requests `k`, `k + 1`, … up to `n`, in this order and without gaps, and every
-- index is in range.
pub record Ring (m : Mgr) (k n : ℕ) : Type 0 where
  pub some_room : 0 < m.queue_depth
  pub limited : m.queue_depth ≤ ramdisk_urma_max_queue_depth
  pub sized : length m.queue ≡ m.queue_depth
  pub head_in : m.head < m.queue_depth
  pub bounded : m.pending ≤ m.queue_depth
  pub tail_at : m.tail ≡ (m.head + m.pending) % m.queue_depth
  pub counted : k + m.pending ≡ n
  pub entries :
      (i : ℕ)
      → i < m.pending
      → get_elem? m.queue ((m.head + i) % m.queue_depth) ≡ some (some (k + i))

-- Once round at most.
mod_cases : (x d : ℕ) → x < d + d → ((x < d) × (x % d ≡ x)) ⊎ ((d ≤ x) × (x % d ≡ x - d))
mod_cases x d h = elim (dec_lt x d) [
  | yes p ↦ inl (p, mod-eq_of_lt p)
  | no p ↦ let ge : d ≤ x = omega arith in inr (ge, mod-eq-sub-mod ge ∙ mod-eq_of_lt (omega arith))
]

-- Fewer than `d` steps round the ring do not come back.
pub mod_ne : (h i p d : ℕ) → h < d → i < p → p ≤ d → p < d + i → (h + i) % d ≢ (h + p) % d
mod_ne h i p d hh ip small pd e = elim (dec_lt (h + p) (d + d)) [
  | yes q ↦ ground (arith, mod_cases (h + i) d (omega arith), mod_cases (h + p) d q)
  | no q ↦ absurd (omega arith)
]

mod_shift : (h i d : ℕ) → ((h + 1) % d + i) % d ≡ (h + suc i) % d
mod_shift h i d = rw mod-add-mod (ap (λ k. k % d) (omega arith))

module _ (m : Mgr) (k n : ℕ) (ring : Ring m k n) where
  tail_in : m.tail < m.queue_depth
  tail_in = rw (ring.tail_at) (mod-lt _ ring.some_room)

  head_at : (m.head + 0) % m.queue_depth ≡ m.head
  head_at = ap (λ (t : ℕ). t % m.queue_depth) (add-zero m.head) ∙ mod-eq_of_lt ring.head_in

  -- A request accepted while there is room goes behind all others.
  pub enqueue-Ring : m.pending < m.queue_depth → Ring (enqueue m n) k (suc n)
  unfolding enqueue
  enqueue-Ring room = record {
    some_room = ring.some_room;
    limited = ring.limited;
    sized = length-set m.queue m.tail (some n) ∙ ring.sized;
    head_in = ring.head_in;
    bounded = omega arith;
    tail_at = rw (ring.tail_at, mod-add-mod) (ap (λ (t : ℕ). t % m.queue_depth) (omega arith));
    counted = omega (arith, ring.counted);
    entries = λ i h. elim (dec_lt i m.pending) [
      | yes p ↦ get_elem?-set_ne m.queue (some n) (old_ne i p) ∙ ring.entries i p
      | no p ↦ new_entry i (omega arith)
    ];
  }
    where
      old_ne : (i : ℕ) → i < m.pending → m.tail ≢ (m.head + i) % m.queue_depth
      old_ne i p e =
          mod_ne m.head i m.pending m.queue_depth ring.head_in p ring.bounded (omega arith)
            (sym e ∙ ring.tail_at)

      new_entry :
          (i : ℕ)
          → i ≡ m.pending
          → get_elem? (set m.queue m.tail (some n)) ((m.head + i) % m.queue_depth)
            ≡ some (some (k + i))
      new_entry i e =
          let at : (m.head + i) % m.queue_depth ≡ m.tail =
            ap (λ j. (m.head + j) % m.queue_depth) e ∙ sym ring.tail_at in
          let number : n ≡ k + i = omega (arith, ring.counted) in
          rw at (
            get_elem?-set_self m.queue m.tail (some n) (omega (arith, tail_in, ring.sized))
            ∙ ap (λ j. some (some j)) number)

  -- The next request for the worker is the oldest.
  pub queue-head : 0 < m.pending → get_elem? m.queue m.head ≡ some (some k)
  queue-head h =
      let e : (m.head + 0) % m.queue_depth ≡ m.head = head_at in
      let z : k + 0 ≡ k = omega arith in rw (e, z) at (ring.entries 0 h)

  -- Taking it leaves the others in order.
  pub dequeue-Ring : 0 < m.pending → Ring (dequeue m) (suc k) n
  unfolding dequeue
  dequeue-Ring h = record {
    some_room = ring.some_room;
    limited = ring.limited;
    sized = length-set m.queue m.head none ∙ ring.sized;
    head_in = mod-lt _ ring.some_room;
    bounded = omega (arith, ring.bounded);
    tail_at = rw (mod-add-mod, ring.tail_at) (ap (λ (t : ℕ). t % m.queue_depth) (omega arith));
    counted = omega (arith, ring.counted);
    entries = λ i hi. next_entry i (omega arith);
  }
    where
      cleared_ne : (i : ℕ) → suc i < m.pending → m.head ≢ (m.head + suc i) % m.queue_depth
      cleared_ne i hi e =
          mod_ne m.head 0 (suc i) m.queue_depth ring.head_in (omega arith)
            (omega (arith, ring.bounded)) (omega (arith, ring.bounded)) (head_at ∙ e)

      next_entry :
          (i : ℕ)
          → suc i < m.pending
          → get_elem? (set m.queue m.head none) (((m.head + 1) % m.queue_depth + i) % m.queue_depth)
            ≡ some (some (suc k + i))
      next_entry i hi =
          let number : k + suc i ≡ suc k + i = omega arith in
          rw (mod_shift m.head i m.queue_depth) (
            get_elem?-set_ne m.queue none (cleared_ne i hi)
            ∙ ring.entries (suc i) hi
            ∙ ap (λ j. some (some j)) number)
