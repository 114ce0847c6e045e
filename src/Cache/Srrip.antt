-- ===== src/Cache/Srrip.antt =====
-- The SRRIP policy of the last level, replacement/srrip.llc_repl: a re-reference prediction value
-- for each way of each set. Arguments that the functions do not read are left out, and so is the string
-- of the debug output.
pub mod Victim
pub mod Update
use arishem.Base.{
  ℕ, zero, suc, ◌+◌, ◌-◌, Bool, ◌&&◌, ◌||◌, not, List, [], ◌∷◌, map, Option, none, some, Run, ok,
  abort, leb, ◌==◌, if◌then◌else◌, get_or, set, replicate, inc32,
}
use arishem.Cache.State.{llc_way}
use arishem.Packet.{load, rfo, prefetch, writeback}

abbrev pub max_rrpv : ℕ
max_rrpv = 3

-- LLC_SET, for one core.
abbrev pub llc_set : ℕ
llc_set = 4096

-- `rrpv`, by set and by way.
abbrev pub Values : Type 0
Values = List (List ℕ)

abbrev pub row_of : Values → ℕ → List ℕ
row_of rrpv index = get_or rrpv index []

abbrev pub value_at : List ℕ → ℕ → ℕ
value_at row way = get_or row way 0

unfoldable pub llc_initialize_replacement : Values
llc_initialize_replacement = replicate llc_set (replicate llc_way max_rrpv)

-- `if (rrpv[set][i] == maxRRPV) return i;` for the `left` ways from `way` on
unfoldable pub farthest : List ℕ → ℕ → ℕ → Option ℕ
farthest row way zero = none
farthest row way (suc left) =
    if value_at row way == max_rrpv then some way else farthest row (way + 1) left

-- `rrpv[set][i]++` for all ways
unfoldable pub age_all : List ℕ → List ℕ
age_all row = map inc32 row

-- The rounds of `while (1)`, with fuel.
unfoldable pub victim_rounds : ℕ → List ℕ → Option (ℕ × List ℕ)
victim_rounds zero row = none
victim_rounds (suc fuel) row = elim (farthest row 0 llc_way) [
  | some way ↦ some (way, row)
  | none ↦ victim_rounds fuel (age_all row)
]

-- The values of a set reach `max_rrpv` in at most that many rounds after the first.
unfoldable pub llc_find_victim : Values → ℕ → Option (ℕ × Values)
llc_find_victim rrpv index = elim (victim_rounds (max_rrpv + 1) (row_of rrpv index)) [
  | none ↦ none
  | some (way, row) ↦ some (way, set rrpv index row)
]

abbrev pub is_known_type : ℕ → Bool
is_known_type type = type == load || (type == rfo || (type == prefetch || type == writeback))

unfoldable pub llc_update_replacement_state : Values → ℕ → ℕ → ℕ → ℕ → ℕ → Run Values
llc_update_replacement_state rrpv index way ip type hit =
    if not (is_known_type type)
    then abort
    else if type == writeback && not (ip == 0)
    then abort
    else ok (set rrpv index (set (row_of rrpv index) way (if hit == 0 then max_rrpv - 1 else 0)))
