-- ===== src/Cache/World/Keeps.antt =====
-- What every run of an action that ends normally does to the cache: a relation between the cache
-- before and after, with one rule for each way to build an action.
use arishem.Base.{
  ◌≡◌, refl, ℕ, Run, ok, abort, Bool, true, false, Option, none, some, if◌then◌else◌,
}
use arishem.Cache.State.{Cache}
use arishem.Cache.World.{World}
use arishem.Cache.World.Action.{
  Action, pure, gets, call, attempt, change, failure, ◌>>=◌, when, found_or, with_cache,
  with_outside, resume,
}

-- A relation between two states of a cache.
abbrev pub Relation : Type 1
Relation = Cache → Cache → Type 0

pub record IsPreorder (R : Relation) : Type 0 where
  pub same : (c : Cache) → R c c
  pub after : (c c' c'' : Cache) → R c c' → R c' c'' → R c c''

-- The result of a run, which an assertion may have ended, has the property.
abbrev pub Ends {ℓ} : {A : Type 0} → (A → Type ℓ) → Run A → Type ℓ
Ends P abort = Unit
Ends P (ok a) = P a

pub Ends-given :
    {A P : Type 0} (Q : A → Type 0) (run : Run A) → Ends (λ a. P → Q a) run → P → Ends Q run
Ends-given Q abort h p = tt
Ends-given Q (ok a) h p = h p

-- Every run of the action that ends relates the cache before to the cache after, if the result has
-- the property `P`.
pub record Yields {E A : Type 0} (P : A → Relation) (m : Action E A) : Type 0 where
  pub at : (w : World E) → Ends (λ r. P r.1 w.cache r.0.cache) (m w)

abbrev pub Keeps : {E A : Type 0} → Relation → Action E A → Type 0
Keeps R m = Yields (λ a. R) m

module _ {E : Type 0} where
  Ends-with_outside :
      {A : Type 0} (P : Cache → Type 0) (e : E) (run : Run (Cache × A))
      → Ends (λ (r : Cache × A). P r.0) run
      → Ends (λ (r : World E × A). P r.0.cache) (with_outside e run)
  Ends-with_outside P e abort h = tt
  Ends-with_outside P e (ok x) h = h

module _ {E : Type 0} {R : Relation} where
  pub Keeps-pure : {A : Type 0} → IsPreorder R → (a : A) → Keeps {E = E} R (pure a)
  unfolding pure
  Keeps-pure r a = record { at = λ w. r.same w.cache }

  pub Keeps-gets : {A : Type 0} → IsPreorder R → (f : Cache → A) → Keeps {E = E} R (gets f)
  unfolding gets
  Keeps-gets r f = record { at = λ w. r.same w.cache }

  Ends-with_cache :
      {A : Type 0}
      → IsPreorder R
      → (c : Cache) (run : Run (E × A))
      → Ends (λ (r : World E × A). R c r.0.cache) (with_cache c run)
  Ends-with_cache r c abort = tt
  Ends-with_cache r c (ok x) = r.same c

  pub Keeps-call :
      {A : Type 0} → IsPreorder R → (f : E → Cache → Run (E × A)) → Keeps {E = E} R (call f)
  unfolding call
  Keeps-call r f = record { at = λ w. Ends-with_cache r w.cache (f w.outside w.cache) }

  pub Keeps-attempt :
      {A : Type 0} (f : Cache → Run (Cache × A))
      → ((c : Cache) → Ends (λ (r : Cache × A). R c r.0) (f c))
      → Keeps {E = E} R (attempt f)
  unfolding attempt
  Keeps-attempt f h = record {
    at = λ w. Ends-with_outside (R w.cache) w.outside (f w.cache) (h w.cache);
  }

  pub Keeps-change : (f : Cache → Cache) → ((c : Cache) → R c (f c)) → Keeps {E = E} R (change f)
  unfolding change
  Keeps-change f h = record { at = λ w. h w.cache }

  pub Keeps-failure : Keeps {E = E} R failure
  unfolding failure
  Keeps-failure = record { at = λ w. tt }

  pub Keeps-when :
      (b : Bool) (m : Action E (Unit {0})) → IsPreorder R → Keeps R m → Keeps R (when b m)
  Keeps-when true m r k = k
  Keeps-when false m r k = Keeps-pure r tt

  pub Keeps-if :
      {A : Type 0} (b : Bool) (m k : Action E A)
      → Keeps R m
      → Keeps R k
      → Keeps R (if b then m else k)
  Keeps-if true m k hm hk = hm
  Keeps-if false m k hm hk = hk

  pub Keeps-found_or :
      {A : Type 0} (o : Option ℕ) (hit : ℕ → Action E A) (miss : Action E A)
      → ((i : ℕ) → Keeps R (hit i))
      → Keeps R miss
      → Keeps R (found_or o hit miss)
  Keeps-found_or (some i) hit miss hh hm = hh i
  Keeps-found_or none hit miss hh hm = hm

  Ends-later :
      {B : Type 0}
      → IsPreorder R
      → (c c' : Cache) (run : Run (World E × B)) → R c c'
      → Ends (λ r. R c' r.0.cache) run
      → Ends (λ (r : World E × B). R c r.0.cache) run
  Ends-later r c c' abort h k = tt
  Ends-later r c c' (ok x) h k = r.after c c' x.0.cache h k

  Ends-bind :
      {A B : Type 0}
      → IsPreorder R
      → (c : Cache) (run : Run (World E × A)) (f : A → Action E B) → Ends (λ r. R c r.0.cache) run
      → ((a : A) → Keeps R (f a))
      → Ends (λ (r : World E × B). R c r.0.cache) (resume run f)
  Ends-bind r c abort f h k = tt
  Ends-bind r c (ok (w, a)) f h k = Ends-later r c w.cache (f a w) h ((k a).at w)

  pub Keeps-bind :
      {A B : Type 0} (m : Action E A) (f : A → Action E B)
      → IsPreorder R
      → Keeps R m
      → ((a : A) → Keeps R (f a))
      → Keeps R (m >>= f)
  unfolding ◌>>=◌
  Keeps-bind m f r hm hf = record { at = λ w. Ends-bind r w.cache (m w) f (hm.at w) hf }

-- What is read is the cache as it is.
pub Yields-gets :
    {E A : Type 0} (f : Cache → A) → Yields {E = E} (λ a c c'. (a ≡ f c) × (c' ≡ c)) (gets f)
unfolding gets
Yields-gets f = record { at = λ w. (refl, refl) }

-- The general rule: the second action may use what the first one yields.
module _ {E A B : Type 0} {P : A → Relation} {Q : A → B → Relation} {S : B → Relation} where
  Ends-then :
      ((a : A) (b : B) (c c' c'' : Cache) → P a c c' → Q a b c' c'' → S b c c'')
      → (a : A) (c c' : Cache) (run : Run (World E × B)) → P a c c'
      → Ends (λ r. Q a r.1 c' r.0.cache) run
      → Ends (λ (r : World E × B). S r.1 c r.0.cache) run
  Ends-then h a c c' abort p q = tt
  Ends-then h a c c' (ok (w, b)) p q = h a b c c' w.cache p q

  Ends-resume :
      ((a : A) (b : B) (c c' c'' : Cache) → P a c c' → Q a b c' c'' → S b c c'')
      → (c : Cache) (run : Run (World E × A)) (f : A → Action E B)
      → Ends (λ r. P r.1 c r.0.cache) run
      → ((a : A) → Yields (Q a) (f a))
      → Ends (λ (r : World E × B). S r.1 c r.0.cache) (resume run f)
  Ends-resume h c abort f p q = tt
  Ends-resume h c (ok (w, a)) f p q = Ends-then h a c w.cache (f a w) p ((q a).at w)

  pub Yields-bind :
      (m : Action E A) (f : A → Action E B)
      → Yields P m
      → ((a : A) → Yields (Q a) (f a))
      → ((a : A) (b : B) (c c' c'' : Cache) → P a c c' → Q a b c' c'' → S b c c'')
      → Yields S (m >>= f)
  unfolding ◌>>=◌
  Yields-bind m f hm hf h = record { at = λ w. Ends-resume h w.cache (m w) f (hm.at w) hf }

module _ {E A : Type 0} {P : A → Relation} where
  pub Yields-if :
      (b : Bool) (m k : Action E A) → Yields P m → Yields P k → Yields P (if b then m else k)
  Yields-if true m k hm hk = hm
  Yields-if false m k hm hk = hk

  pub Yields-pure : (a : A) → ((c : Cache) → P a c c) → Yields {E = E} P (pure a)
  unfolding pure
  Yields-pure a h = record { at = λ w. h w.cache }

module _ {E A : Type 0} where
  Ends-result :
      (P : A → Cache → Type 0) (e : E) (run : Run (Cache × A))
      → Ends (λ r. P r.1 r.0) run
      → Ends (λ (r : World E × A). P r.1 r.0.cache) (with_outside e run)
  Ends-result P e abort h = tt
  Ends-result P e (ok x) h = h

  pub Yields-attempt :
      (P : A → Relation) (f : Cache → Run (Cache × A))
      → ((c : Cache) → Ends (λ r. P r.1 c r.0) (f c))
      → Yields {E = E} P (attempt f)
  unfolding attempt
  Yields-attempt P f h = record {
    at = λ w. Ends-result (λ a c'. P a w.cache c') w.outside (f w.cache) (h w.cache);
  }

  Ends-both :
      (P Q : A → Cache → Type 0) (run : Run (World E × A))
      → Ends (λ r. P r.1 r.0.cache) run
      → Ends (λ r. Q r.1 r.0.cache) run
      → Ends (λ r. P r.1 r.0.cache × Q r.1 r.0.cache) run
  Ends-both P Q abort p q = tt
  Ends-both P Q (ok x) p q = (p, q)

  pub Yields-both :
      (P Q : A → Relation) (m : Action E A)
      → Yields P m
      → Yields Q m
      → Yields (λ a c c'. P a c c' × Q a c c') m
  Yields-both P Q m hp hq = record {
    at = λ w. Ends-both (λ a. P a w.cache) (λ a. Q a w.cache) (m w) (hp.at w) (hq.at w);
  }

-- What is read may be used as what the cache holds.
pub Keeps-gets_then :
    {E A B : Type 0} {R : Relation} (f : Cache → A) (m : A → Action E B)
    → ((a : A) → Keeps (λ c c'. a ≡ f c → R c c') (m a))
    → Keeps R (gets f >>= m)
Keeps-gets_then f m h =
    Yields-bind _ _ (Yields-gets f) h
      λ a b c d c' g r. let same = g.1 in let r' = rw same at r in r' g.0

-- Nothing is said of the first action.
module _ {E A : Type 0} where
  Ends-any : (run : Run (World E × A)) → Ends (λ r. Unit {0}) run
  Ends-any abort = tt
  Ends-any (ok x) = tt

module _ {E A B : Type 0} where
  pub Yields-last :
      {P : B → Type 0} (m : Action E A) (f : A → Action E B)
      → ((a : A) → Yields (λ b c c'. P b) (f a))
      → Yields (λ b c c'. P b) (m >>= f)
  Yields-last m f h =
      Yields-bind {P = λ _ _ _. Unit {0}} m f (record { at = λ w. Ends-any (m w) }) h
        λ a b c d c' u p. p

module _ {E A : Type 0} {P Q : A → Relation} where
  Ends-mono :
      ((a : A) (c c' : Cache) → P a c c' → Q a c c')
      → (c : Cache) (run : Run (World E × A)) → Ends (λ r. P r.1 c r.0.cache) run
      → Ends (λ (r : World E × A). Q r.1 c r.0.cache) run
  Ends-mono h c abort p = tt
  Ends-mono h c (ok (w, a)) p = h a c w.cache p

  pub Yields-mono :
      (m : Action E A) → Yields P m → ((a : A) (c c' : Cache) → P a c c' → Q a c c') → Yields Q m
  Yields-mono m hm h = record { at = λ w. Ends-mono h w.cache (m w) (hm.at w) }

pub ruleset keeps_rules = (
  Keeps-pure, Keeps-gets, Keeps-call, Keeps-failure, Keeps-when, Keeps-if, Keeps-found_or,
  Keeps-bind, Keeps-attempt, Keeps-change,
)
