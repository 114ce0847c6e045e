-- ===== src/PacketQueue/Window.antt =====
-- A window of a circular array: `n` places from `h` on, going round at `size`.
use mathlib.Core.Path.{ap₂}
use arishem.Base.{
  ℕ, zero, suc, ◌+◌, ◌-◌, ◌≤◌, ◌<◌, ◌≡◌, ◌≢◌, refl, ap, ◌∙◌, List, [], ◌∷◌, ◌++◌, arith, ltb,
  if◌then◌else◌, length, get_or, set, get_or-set_self, get_or-set_ne,
}

-- A position below twice the size, brought into the array.
abbrev pub wrap : ℕ → ℕ → ℕ
wrap size i = if ltb i size then i else i - size

module _ {ℓ} {A : Type ℓ} (d : A) (size : ℕ) where
  abbrev pub window : List A → ℕ → ℕ → List A
  window entry h zero = []
  window entry h (suc n) = get_or entry h d ∷ window entry (wrap size (h + 1)) n

  pub length-window : (entry : List A) (h n : ℕ) → length (window entry h n) ≡ n
  length-window entry h zero = refl
  length-window entry h (suc n) = ap suc (length-window entry (wrap size (h + 1)) n)

  -- A place `m` steps ahead is not in a window of at most `m` places.
  pub window-set_ahead :
      (entry : List A) (h n m i : ℕ) (x : A)
      → h < size
      → n ≤ m
      → m < size
      → i ≡ wrap size (h + m)
      → window (set entry i x) h n ≡ window entry h n
  window-set_ahead entry h zero m i x hh nm ms e = refl
  window-set_ahead entry h (suc n) m i x hh nm ms e =
      let ne : i ≢ h = ground arith in
      ap₂ ◌∷◌ (get_or-set_ne entry i h x d ne) (
        window-set_ahead entry (wrap size (h + 1)) n (m - 1) i x (ground arith) (omega arith)
          (omega arith) (ground arith))

  pub window-snoc :
      (entry : List A) (h n : ℕ)
      → h < size
      → n < size
      → window entry h (suc n) ≡ window entry h n ++ get_or entry (wrap size (h + n)) d ∷ []
  window-snoc entry h zero hh nn = let e : wrap size (h + 0) ≡ h = ground arith in rw e
  window-snoc entry h (suc n) hh nn =
      let e : wrap size (h + suc n) ≡ wrap size (wrap size (h + 1) + n) = ground arith in
      rw e (
        ap (λ l. get_or entry h d ∷ l)
          (window-snoc entry (wrap size (h + 1)) n (ground arith) (omega arith)))

  -- Writing just past a window adds the value at its end.
  pub window-set_end :
      (entry : List A) (h n i : ℕ) (x : A)
      → size ≤ length entry
      → h < size
      → n < size
      → i ≡ wrap size (h + n)
      → window (set entry i x) h (suc n) ≡ window entry h n ++ x ∷ []
  window-set_end entry h n i x room hh nn e =
      let inside : i < length entry = ground arith in
      window-snoc (set entry i x) h n hh nn
      ∙ ap₂ (λ l a. l ++ a ∷ []) (window-set_ahead entry h n n i x hh (omega arith) nn e)
          (rw (← e) (get_or-set_self entry i x d inside))
