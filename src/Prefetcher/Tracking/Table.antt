-- ===== src/Prefetcher/Tracking/Table.antt =====
-- A table of trackers as a prefetcher keeps it: bounded, with one tracker for a key.
use mathlib.Core.List.{map-append}
use arishem.Base.{
  ℕ, suc, ◌≤◌, ◌<◌, ◌≡◌, ◌≢◌, refl, ap, ◌∙◌, sym, arith, leb, ◌==◌, if◌then◌else◌, true, false, inl,
  inr, Bool-cases, List, [], ◌∷◌, map, length, length-append, All, IsDistinct, IsDistinct-snoc,
  none, some,
}
use arishem.Prefetcher.Tracking.{find_key, erase_key, push_back, pop_front, pop_back}

module _ {ℓ} {A : Type ℓ} (key : A → ℕ) where
  pub record IsTable (n : ℕ) (xs : List A) : Type 0 where
    pub bounded : length xs ≤ n
    pub distinct : IsDistinct (map key xs)

  pub find_key-none :
      (k : ℕ) (xs : List A) → find_key key k xs ≡ none → All (λ y. y ≢ k) (map key xs)
  unfolding find_key
  find_key-none k [] h = tt
  find_key-none k (x ∷ xs) h = elim (Bool-cases (key x == k)) [
    | inl y ↦ absurd (cc (rw y at h))
    | inr z ↦ (ground arith, find_key-none k xs (rw z at h))
  ]

  pub find_key-some : (k : ℕ) (xs : List A) (t : A) → find_key key k xs ≡ some t → key t ≡ k
  unfolding find_key
  find_key-some k [] t h = absurd (cc)
  find_key-some k (x ∷ xs) t h = elim (Bool-cases (key x == k)) [
    | inl y ↦ let e : x ≡ t = cc (rw y at h) in ap key (sym e) ∙ ground arith
    | inr z ↦ find_key-some k xs t (rw z at h)
  ]

  length-erase_key :
      (k : ℕ) (xs : List A) (t : A)
      → find_key key k xs ≡ some t
      → suc (length (erase_key key k xs)) ≡ length xs
  unfolding find_key erase_key
  length-erase_key k [] t h = absurd (cc)
  length-erase_key k (x ∷ xs) t h = elim (Bool-cases (key x == k)) [
    | inl y ↦ rw y refl
    | inr z ↦ rw z (ap suc (length-erase_key k xs t (rw z at h)))
  ]

  All-erase_key {κ} :
      (P : ℕ → Type κ) (k : ℕ) (xs : List A)
      → All P (map key xs)
      → All P (map key (erase_key key k xs))
  unfolding erase_key
  All-erase_key P k [] h = tt
  All-erase_key P k (x ∷ xs) h = elim (Bool-cases (key x == k)) [
    | inl y ↦ rw y (h.1)
    | inr z ↦ rw z (h.0, All-erase_key P k xs h.1)
  ]

  IsDistinct-erase_key :
      (k : ℕ) (xs : List A) → IsDistinct (map key xs) → IsDistinct (map key (erase_key key k xs))
  unfolding erase_key
  IsDistinct-erase_key k [] d = tt
  IsDistinct-erase_key k (x ∷ xs) d = elim (Bool-cases (key x == k)) [
    | inl y ↦ rw y (d.1)
    | inr z ↦ rw z (All-erase_key (λ y. y ≢ key x) k xs d.0, IsDistinct-erase_key k xs d.1)
  ]

  erase_key-absent :
      (k : ℕ) (xs : List A)
      → IsDistinct (map key xs)
      → All (λ y. y ≢ k) (map key (erase_key key k xs))
  unfolding erase_key
  erase_key-absent k [] d = tt
  erase_key-absent k (x ∷ xs) d = elim (Bool-cases (key x == k)) [
    | inl y ↦ let e : key x ≡ k = ground arith in rw (y, ← e) (d.0)
    | inr z ↦ rw z (ground arith, erase_key-absent k xs d.1)
  ]

  All-pop_back {κ} :
      (P : ℕ → Type κ) (xs : List A) → All P (map key xs) → All P (map key (pop_back xs))
  All-pop_back P [] h = tt
  All-pop_back P (x ∷ []) h = tt
  All-pop_back P (x ∷ y ∷ ys) h = (h.0, All-pop_back P (y ∷ ys) h.1)

  IsDistinct-pop_back : (xs : List A) → IsDistinct (map key xs) → IsDistinct (map key (pop_back xs))
  IsDistinct-pop_back [] d = tt
  IsDistinct-pop_back (x ∷ []) d = tt
  IsDistinct-pop_back (x ∷ y ∷ ys) d =
      (All-pop_back (λ z. z ≢ key x) (y ∷ ys) d.0, IsDistinct-pop_back (y ∷ ys) d.1)

  length-pop_back : (x : A) (xs : List A) → length (pop_back (x ∷ xs)) ≡ length xs
  length-pop_back x [] = refl
  length-pop_back x (y ∷ ys) = ap suc (length-pop_back y ys)

  -- The oldest tracker leaves a full table; one without the key `k` stays without it.
  pub evict_front :
      (n k : ℕ) (xs : List A)
      → 0 < n
      → IsTable n xs
      → All (λ y. y ≢ k) (map key xs)
      → let rest = if leb n (length xs) then pop_front xs else xs in
        (length rest < n) × IsDistinct (map key rest) × All (λ y. y ≢ k) (map key rest)
  evict_front n k [] pos t a = let e : leb n 0 ≡ false = ground arith in rw e (pos, tt, tt)
  evict_front n k (x ∷ xs) pos t a = elim (Bool-cases (leb n (length (x ∷ xs)))) [
    | inl y ↦ rw y (omega (arith, t.bounded), t.distinct.1, a.1)
    | inr z ↦ rw z (ground arith, t.distinct, a)
  ]

  pub evict_back :
      (n k : ℕ) (xs : List A)
      → 0 < n
      → IsTable n xs
      → All (λ y. y ≢ k) (map key xs)
      → let rest = if leb n (length xs) then pop_back xs else xs in
        (length rest < n) × IsDistinct (map key rest) × All (λ y. y ≢ k) (map key rest)
  evict_back n k [] pos t a = let e : leb n 0 ≡ false = ground arith in rw e (pos, tt, tt)
  evict_back n k (x ∷ xs) pos t a = elim (Bool-cases (leb n (length (x ∷ xs)))) [
    | inl y ↦ rw y (
      omega (arith, t.bounded, length-pop_back x xs),
      IsDistinct-pop_back (x ∷ xs) t.distinct,
      All-pop_back (λ z. z ≢ k) (x ∷ xs) a,
    )
    | inr z ↦ rw z (ground arith, t.distinct, a)
  ]

  pub push_back-IsTable :
      (n : ℕ) (xs : List A) (x : A)
      → (length xs < n) × IsDistinct (map key xs) × All (λ y. y ≢ key x) (map key xs)
      → IsTable n (push_back xs x)
  push_back-IsTable n xs x h = record {
    bounded = omega (arith, length-append xs (x ∷ []), h.0);
    distinct = rw (map-append) (IsDistinct-snoc (map key xs) (key x) h.1 h.2);
  }

  pub push_front-IsTable :
      (n : ℕ) (xs : List A) (x : A)
      → (length xs < n) × IsDistinct (map key xs) × All (λ y. y ≢ key x) (map key xs)
      → IsTable n (x ∷ xs)
  push_front-IsTable n xs x h = record { bounded = omega (arith, h.0); distinct = (h.2, h.1) }

  -- What is left of a table when the tracker of a key is erased.
  pub erased :
      (n k : ℕ) (xs : List A) (t : A)
      → IsTable n xs
      → find_key key k xs ≡ some t
      → let rest = erase_key key k xs in
        (length rest < n) × IsDistinct (map key rest) × All (λ y. y ≢ k) (map key rest)
  erased n k xs t v h = (
    omega (arith, v.bounded, length-erase_key k xs t h),
    IsDistinct-erase_key k xs v.distinct,
    erase_key-absent k xs v.distinct,
  )

  -- A tracker pushed to the back of a table without its key is found.
  pub find_key-push_back :
      (k : ℕ) (xs : List A) (t : A)
      → All (λ y. y ≢ k) (map key xs)
      → key t ≡ k
      → find_key key k (push_back xs t) ≡ some t
  unfolding find_key
  find_key-push_back k [] t a e = let y : (key t == k) ≡ true = ground arith in rw y refl
  find_key-push_back k (x ∷ xs) t a e =
      let z : (key x == k) ≡ false = ground arith in rw z (find_key-push_back k xs t a.1 e)

  pub find_key-front : (k : ℕ) (xs : List A) (t : A) → key t ≡ k → find_key key k (t ∷ xs) ≡ some t
  unfolding find_key
  find_key-front k xs t e = let y : (key t == k) ≡ true = ground arith in rw y refl
