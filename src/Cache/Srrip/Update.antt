-- ===== src/Cache/Srrip/Update.antt =====
-- What a use of a way does to the values of its set, and to the next search for a victim.
use arishem.Base.{ℕ, ◌-◌, ◌≡◌, ◌≢◌, ◌==◌, length, if◌then◌else◌}
use arishem.Cache.Srrip.{max_rrpv, Values, row_of, value_at}
use arishem.Cache.Srrip.Victim.{IsRow}

-- The value of a way after its use: 0 on a hit, one below the maximum on a fill.
abbrev pub predicted : ℕ → ℕ
predicted hit = if hit == 0 then max_rrpv - 1 else 0

-- The used way has its predicted value; the other ways and the other sets are as before.
pub record Used (index way hit : ℕ) (rrpv rrpv' : Values) : Type 0 where
  pub valid : IsRow (row_of rrpv' index)
  pub value : value_at (row_of rrpv' index) way ≡ predicted hit
  pub ways : (i : ℕ) → way ≢ i → value_at (row_of rrpv' index) i ≡ value_at (row_of rrpv index) i
  pub sets : (j : ℕ) → index ≢ j → row_of rrpv' j ≡ row_of rrpv j
  pub same_length : length rrpv' ≡ length rrpv
