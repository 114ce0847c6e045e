-- ===== src/Cache/World/Action.antt =====
-- Actions on a cache and its surroundings. An assertion that fails ends the run.
use arishem.Base.{ℕ, Run, ok, abort, Bool, true, false, Option, none, some}
use arishem.Cache.State.{Cache}
use arishem.Cache.World.{World}

abbrev pub Action : Type 0 → Type 0 → Type 0
Action E A = World E → Run (World E × A)

module _ {E A : Type 0} where
  unfoldable pub pure : A → Action E A
  pure a w = ok (w, a)

  -- Reads the cache.
  unfoldable pub gets : (Cache → A) → Action E A
  gets f w = ok (w, f w.cache)

  -- A call to the outside, which may abort and gives a result.
  abbrev pub with_cache : Cache → Run (E × A) → Run (World E × A)
  with_cache c abort = abort
  with_cache c (ok (e, a)) = ok (record { cache = c; outside = e }, a)

  unfoldable pub call : (E → Cache → Run (E × A)) → Action E A
  call f w = with_cache w.cache (f w.outside w.cache)

  -- An operation of the cache that may abort and gives a result.
  abbrev pub with_outside : E → Run (Cache × A) → Run (World E × A)
  with_outside e abort = abort
  with_outside e (ok (c, a)) = ok (record { cache = c; outside = e }, a)

  unfoldable pub attempt : (Cache → Run (Cache × A)) → Action E A
  attempt f w = with_outside w.outside (f w.cache)

module _ {E : Type 0} where
  -- Writes the cache.
  unfoldable pub change : (Cache → Cache) → Action E (Unit {0})
  change f w = ok (record { cache = f w.cache; outside = w.outside }, tt)

  unfoldable pub failure : Action E (Unit {0})
  failure w = abort

module _ {E A B : Type 0} where
  infixl 5 ◌>>=◌ ◌>>◌
  abbrev pub resume : Run (World E × A) → (A → Action E B) → Run (World E × B)
  resume abort f = abort
  resume (ok (w, a)) f = f a w

  unfoldable pub ◌>>=◌ : Action E A → (A → Action E B) → Action E B
  ◌>>=◌ m f w = resume (m w) f

  abbrev pub ◌>>◌ : Action E A → Action E B → Action E B
  m >> k = m >>= λ _. k

-- The rest of a handler after a lookup: for the place that was found, or for a miss.
module _ {E A : Type 0} where
  abbrev pub found_or : Option ℕ → (ℕ → Action E A) → Action E A → Action E A
  found_or (some i) hit miss = hit i
  found_or none hit miss = miss

-- `index == -1`
abbrev pub is_missing : Option ℕ → Bool
is_missing (some i) = false
is_missing none = true

-- `if (test) { m }`
abbrev pub when : {E : Type 0} → Bool → Action E (Unit {0}) → Action E (Unit {0})
when true m = m
when false m = pure tt
