-- ===== src/Base/Effects.antt =====
-- A run of code that holds assertions: it returns, or an `assert` aborts the simulator.
use mathlib.Core.Path.{◌≡◌}
use mathlib.Core.Bool.{Bool, true, false}

pub data Run {ℓ} (A : Type ℓ) : Type ℓ where
  abort : Run A
  ok : A → Run A

-- `assert(condition)`
abbrev pub require : Bool → Run (Unit {0})
require false = abort
require true = ok tt

module _ {ℓ κ} {A : Type ℓ} {B : Type κ} where
  infixl 5 ◌>>=◌
  abbrev pub ◌>>=◌ : Run A → (A → Run B) → Run B
  abort >>= next = abort
  ok value >>= next = next value

module _ {ℓ} {A : Type ℓ} where
  infixl 5 ◌>>◌
  abbrev pub ◌>>◌ : Run (Unit {0}) → Run A → Run A
  check >> next = check >>= λ _. next

  -- The run ends normally, in a value with the property.
  abbrev pub Returns {κ} : Run A → (A → Type κ) → Type (ℓ ⊔ κ)
  Returns run P = (value : A) × (run ≡ ok value) × P value
