-- ===== src/Ledger.antt =====
-- Books of what a program holds: the log of what it has taken and given back.
use ddr_direct_storage.Base.{
  ℕ, ◌≡◌, Bool, true, false, Option, none, some, List, [], ◌∷◌, ◌++◌, ◌==◌, if◌then◌else◌, arith,
  inl, inr, Option-cases,
}

pub data Event (R : Type 0) : Type 0 where
  acquire : R → Event R
  release : R → Event R

abbrev pub gives_back : {R : Type 0} → Bool → R → List (Event R)
gives_back true r = release r ∷ []
gives_back false r = []

-- `number` tells the resources apart.
module _ {R : Type 0} (number : R → ℕ) where
  abbrev pub is_held : List R → R → Bool
  is_held [] r = false
  is_held (x ∷ held) r = if number x == number r then true else is_held held r

  abbrev pub removed : List R → R → List R
  removed [] r = []
  removed (x ∷ held) r = if number x == number r then held else x ∷ removed held r

  -- What is held after an event; `none` if something held is taken again, or something is given back
  -- that is not held.
  abbrev pub after_event : List R → Event R → Option (List R)
  after_event held (acquire r) = if is_held held r then none else some (r ∷ held)
  after_event held (release r) = if is_held held r then some (removed held r) else none

  abbrev pub replay : List R → List (Event R) → Option (List R)
  replay held [] = some held
  replay held (e ∷ es) = elim (after_event held e) [ none ↦ none | some held' ↦ replay held' es ]

  pub replay-append :
      (h h' : List R) (l es : List (Event R))
      → replay h l ≡ some h'
      → replay h (l ++ es) ≡ replay h' es
  replay-append h h' [] es q = ground (arith, q)
  replay-append h h' (e ∷ l) es q = elim (Option-cases (after_event h e)) [
    | inl n ↦ absurd (ground (arith, q, n))
    | inr (m, n) ↦ ground (arith, n, replay-append m h' l es (ground (arith, q, n)))
  ]
