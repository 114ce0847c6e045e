-- ===== src/Cache/Lookup/Index.antt =====
-- Set indices: `lg2` is the logarithm, an index is in range, and for a number of sets that is a
-- power of two it is the address modulo that number.
use native.Mathlib.Nat.{pow-suc, pow-le-pow_right, mod-lt}
use arishem.Base.{
  ℕ, zero, suc, ◌+◌, ◌-◌, ◌*◌, ◌/◌, ◌%◌, ◌^◌, ◌≤◌, ◌<◌, ◌≡◌, refl, arith, inl, inr, ltb, Bool-cases,
  ap, sym, ne→not_==,
}
use arishem.Cache.State.{Cache}
use arishem.Cache.Lookup.{lg2_rounds, lg2, get_set}

double : (k : ℕ) → 2 ^ suc k ≡ 2 ^ k * 2
double k = pow-suc 2 k

lg2_rounds-zero : (fuel : ℕ) → lg2_rounds fuel (1 / 2) ≡ 0
unfolding lg2_rounds
lg2_rounds-zero zero = refl
lg2_rounds-zero (suc fuel) = refl

-- With enough fuel the rounds are one more than the logarithm.
lg2_rounds_bounds :
    (fuel m : ℕ)
    → 0 < m
    → m ≤ fuel
    → (0 < lg2_rounds fuel m) × (2 ^ (lg2_rounds fuel m - 1) ≤ m) × (m < 2 ^ lg2_rounds fuel m)
unfolding lg2_rounds
lg2_rounds_bounds zero m pos h = absurd (omega arith)
lg2_rounds_bounds (suc fuel) m pos h =
    let more = ne→not_== m 0 (omega arith) in
    elim (Bool-cases (ltb 1 m)) [
      | inl big ↦
          let r = lg2_rounds fuel (m / 2) in
          let (p, lo, hi) = lg2_rounds_bounds fuel (m / 2) (ground arith) (ground arith) in
          let s : r + 1 ≡ suc r = omega arith in
          let e : suc (r - 1) ≡ r = omega arith in
          let d : 2 ^ r ≡ 2 ^ (r - 1) * 2 = rw (← double (r - 1)) (ap (λ k. 2 ^ k) (omega arith)) in
          let d' : 2 ^ (r + 1) ≡ 2 ^ r * 2 = rw s (double r) in
          let t : r + 1 - 1 ≡ r = omega arith in
          rw (more, t) (omega arith, omega arith, omega arith)
      | inr small ↦
          let one : m ≡ 1 = ground arith in
          let none_left : lg2_rounds fuel (m / 2) ≡ 0 = rw one (lg2_rounds-zero fuel) in
          rw (more, none_left) (omega arith, omega arith, omega arith)
    ]

-- `lg2` of a positive number is its logarithm, rounded down.
pub lg2_bounds : (n : ℕ) → 0 < n → (2 ^ lg2 n ≤ n) × (n < 2 ^ (lg2 n + 1))
unfolding lg2
lg2_bounds n pos =
    let (p, lo, hi) = lg2_rounds_bounds n n pos (omega arith) in
    let e : lg2_rounds n n - 1 + 1 ≡ lg2_rounds n n = omega arith in (lo, rw e hi)

pow_pos : (k : ℕ) → 0 < 2 ^ k
pow_pos zero = omega arith
pow_pos (suc k) = omega (arith, pow_pos k, double k)

-- Every address has a set.
pub get_set-lt : (c : Cache) (address : ℕ) → 0 < c.num_set → get_set c address < c.num_set
unfolding get_set
get_set-lt c address pos =
    omega (arith, mod-lt address (pow_pos (lg2 c.num_set)), (lg2_bounds c.num_set pos).0)

lg2-pow : (k : ℕ) → lg2 (2 ^ k) ≡ k
lg2-pow k =
    let (lo, hi) = lg2_bounds (2 ^ k) (pow_pos k) in
    let l = lg2 (2 ^ k) in
    elim (Bool-cases (ltb l k)) [
      | inl low ↦
          absurd (
            omega
              (arith, pow-le-pow_right {n = 2} (omega arith) {i = l + 1} {j = k} (ground arith)))
      | inr high ↦ elim (Bool-cases (ltb k l)) [
        | inl up ↦ absurd (
            omega (
              arith,
              pow-le-pow_right {n = 2} (omega arith) {i = suc k} {j = l} (ground arith),
              double k,
              pow_pos k,
            ))
        | inr same ↦ ground arith
      ]
    ]

-- With a power of two of sets the index is the remainder.
pub get_set-mod :
    (c : Cache) (address k : ℕ) → c.num_set ≡ 2 ^ k → get_set c address ≡ address % c.num_set
unfolding get_set
get_set-mod c address k e =
    let l : lg2 c.num_set ≡ k = rw e (lg2-pow k) in rw l (ap (λ (n : ℕ). address % n) (sym e))
