-- ===== src/Base/Distinct.antt =====
-- Lists of numbers without repetition.
use mathlib.Core.Path.{sym}
use mathlib.Core.Logic.{◌≢◌}
use Prim.Native.Nat.{ℕ}
use mathlib.Core.List.{List, [], ◌∷◌, ◌++◌}
use arishem.Base.Lists.{All, All-append}

abbrev pub IsDistinct : List ℕ → Type 0
IsDistinct [] = Unit
IsDistinct (x ∷ xs) = All (λ y. y ≢ x) xs × IsDistinct xs

pub IsDistinct-snoc :
    (xs : List ℕ) (x : ℕ) → IsDistinct xs → All (λ y. y ≢ x) xs → IsDistinct (xs ++ x ∷ [])
IsDistinct-snoc [] x d a = (tt, tt)
IsDistinct-snoc (y ∷ ys) x d a =
    (All-append (λ z. z ≢ y) ys (x ∷ []) d.0 ((λ e. a.0 (sym e)), tt), IsDistinct-snoc ys x d.1 a.1)
