-- ===== src/Prefetcher/Tracking.antt =====
-- What the prefetchers' tables of trackers (`deque<Tracker*>`) are searched and edited with: the
-- standard library's `find_if`, `erase`, `push_back`, `push_front`, `pop_front` and `pop_back`.
pub mod Table
use arishem.Base.{ℕ, suc, ◌==◌, if◌then◌else◌, Bool, List, [], ◌∷◌, ◌++◌, Option, none, some}

module _ {ℓ} {A : Type ℓ} (key : A → ℕ) where
  -- `find_if`: the first element with the key.
  unfoldable pub find_key : ℕ → List A → Option A
  find_key k [] = none
  find_key k (x ∷ xs) = if key x == k then some x else find_key k xs

  -- `erase` of the element that `find_key` finds.
  unfoldable pub erase_key : ℕ → List A → List A
  erase_key k [] = []
  erase_key k (x ∷ xs) = let rest = erase_key k xs in if key x == k then xs else x ∷ rest

module _ {ℓ} {A : Type ℓ} where
  abbrev pub push_back : List A → A → List A
  push_back xs x = xs ++ x ∷ []

  abbrev pub pop_front : List A → List A
  pop_front [] = []
  pop_front (x ∷ xs) = xs

  abbrev pub pop_back : List A → List A
  pop_back [] = []
  pop_back (x ∷ []) = []
  pop_back (x ∷ y ∷ ys) = x ∷ pop_back (y ∷ ys)
