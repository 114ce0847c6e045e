-- ===== src/Prefetcher/Bop.antt =====
-- The best-offset prefetcher of prefetcher/bop.cc and inc/bop.h. The addresses that one call
-- returns go to an empty `pref_addr`.
pub mod Best
pub mod Phase
pub mod Invariant
pub mod Calls
use arishem.Base.{
  ℕ, zero, suc, ◌+◌, ◌-◌, ◌%◌, ◌^◌, Bool, true, false, if◌then◌else◌, ltb, leb, ◌==◌, not, ◌&&◌,
  ◌||◌, List, [], ◌∷◌, ◌++◌, length, get_or, set, take, drop, replicate, inc32, inc64, add64,
  page_of, offset_of, block_of, line_address, Run, ok, ◌>>=◌, ◌>>◌, require, uint32_max, min,
}
use arishem.Base.Int.{ℤ, pos, negsuc, ltb_ℤ, pos_part, signed32, pattern32}
use arishem.Prefetcher.Tracking.{push_back, pop_front}

-- The knobs `bop_*`.
pub record Knobs : Type 0 where
  pub candidates : List ℤ
  pub max_rounds : ℕ
  pub max_score : ℕ
  pub top_n : ℕ
  pub enable_pref_buffer : Bool
  pub pref_buffer_size : ℕ
  pub pref_degree : ℕ
  pub rr_size : ℕ

pub record Stats : Type 0 where
  pub end_max_round : ℕ
  pub end_max_score : ℕ
  pub fill_called : ℕ
  pub fill_insert_rr : ℕ
  pub rr_hit : ℕ
  pub rr_evict : ℕ
  pub rr_insert : ℕ
  pub buffered : ℕ
  pub spilled : ℕ
  pub issued : ℕ
  pub total_phases : ℕ
  pub pref_issued : ℕ

pub record BoPrefetcher : Type 0 where
  pub rr : List ℕ
  pub scores : List ℕ
  pub pref_buffer : List ℕ
  pub round_counter : ℕ
  pub candidate_ptr : ℕ
  pub best_offsets : List ℤ
  pub stats : Stats

-- The constructor, with `init_stats`.
unfoldable pub new_prefetcher : Knobs → BoPrefetcher
new_prefetcher k = record {
  rr = [];
  scores = replicate (length k.candidates) 0;
  pref_buffer = [];
  round_counter = 0;
  candidate_ptr = 0;
  best_offsets = pos 1 ∷ [];
  stats = record {
    end_max_round = 0;
    end_max_score = 0;
    fill_called = 0;
    fill_insert_rr = 0;
    rr_hit = 0;
    rr_evict = 0;
    rr_insert = 0;
    buffered = 0;
    spilled = 0;
    issued = 0;
    total_phases = 0;
    pref_issued = 0;
  };
}

-- `ca_address - offset`, on `uint64_t`
abbrev pub sub_offset : ℕ → ℤ → ℕ
sub_offset ca_address (pos n) = (ca_address + (2 ^ 64 - n)) % 2 ^ 64
sub_offset ca_address (negsuc n) = (ca_address + suc n) % 2 ^ 64

unfoldable pub search_rr : List ℕ → ℕ → Bool
search_rr [] address = false
search_rr (x ∷ rr) address = x == address || search_rr rr address

-- The loop of `check_end_of_phase`: from the index `i` on, the `max_score` so far.
unfoldable pub last_max : List ℕ → ℕ → ℕ → ℕ
last_max [] i max_score = max_score
last_max (score ∷ scores) i max_score =
    last_max scores (i + 1) (if leb max_score score then i else max_score)

unfoldable pub check_end_of_phase : Knobs → BoPrefetcher → BoPrefetcher × Bool
check_end_of_phase k s =
    if leb k.max_rounds s.round_counter
    then (
      record s { stats = record (s.stats) { end_max_round = inc64 s.stats.end_max_round } },
      true,
    )
    else if leb k.max_score (last_max s.scores 0 0)
    then (
      record s { stats = record (s.stats) { end_max_score = inc64 s.stats.end_max_score } },
      true,
    )
    else (s, false)

-- The inner loop of `phase_end` from the index `i` on: `curr_max` and `max_idx`.
unfoldable pub best_below : ℕ → List ℕ → ℕ → ℕ → ℕ → ℕ × ℕ
best_below max [] i curr_max max_idx = (curr_max, max_idx)
best_below max (score ∷ scores) i curr_max max_idx =
    let better = leb curr_max score && ltb score max in
    best_below max scores (i + 1) (if better then score else curr_max)
      (if better then i else max_idx)

-- The outer loop of `phase_end`: the offsets of the `left` picks that remain.
unfoldable pub pick_offsets : List ℤ → List ℕ → ℕ → ℕ → List ℤ
pick_offsets candidates scores zero max = []
pick_offsets candidates scores (suc left) max =
    let (curr_max, max_idx) = best_below max scores 0 0 0 in
    get_or candidates max_idx (pos 0) ∷ pick_offsets candidates scores left curr_max

-- The state that `phase_end` leaves.
unfoldable pub restart_phase : Knobs → BoPrefetcher → BoPrefetcher
restart_phase k s = record s {
  best_offsets = pick_offsets k.candidates s.scores k.top_n uint32_max;
  scores = replicate (length k.candidates) 0;
  round_counter = 0;
  candidate_ptr = 0;
  stats = record (s.stats) { total_phases = inc64 s.stats.total_phases };
}

-- `assert(best_offsets.size() == knob::bop_top_n)`
unfoldable pub phase_end : Knobs → BoPrefetcher → Run BoPrefetcher
phase_end k s =
    require (length (pick_offsets k.candidates s.scores k.top_n uint32_max) == k.top_n)
    >> ok (restart_phase k s)

unfoldable pub buffer_prefetch : Knobs → BoPrefetcher → List ℕ → BoPrefetcher
buffer_prefetch k s pref_addr =
    let count = min (length pref_addr) (k.pref_buffer_size - length s.pref_buffer) in
    record s {
      pref_buffer = s.pref_buffer ++ take count pref_addr;
      stats = record (s.stats) {
        buffered = add64 s.stats.buffered count;
        spilled = add64 s.stats.spilled (length pref_addr - count);
      };
    }

-- The loop of `issue_prefetch` moves the oldest `pref_degree` addresses, or all.
unfoldable pub issue_prefetch : Knobs → BoPrefetcher → BoPrefetcher × List ℕ
issue_prefetch k s =
    let pref_addr = take k.pref_degree s.pref_buffer in
    (
      record s {
        pref_buffer = drop k.pref_degree s.pref_buffer;
        stats = record (s.stats) { issued = add64 s.stats.issued (length pref_addr) };
      },
      pref_addr,
    )

-- The evaluation of one candidate offset.
unfoldable pub evaluate : Knobs → BoPrefetcher → ℕ → BoPrefetcher
evaluate k s ca_address =
    let offset_to_evaluate = get_or k.candidates s.candidate_ptr (pos 0) in
    record s {
      scores =
          if search_rr s.rr (sub_offset ca_address offset_to_evaluate)
          then set s.scores s.candidate_ptr (inc32 (get_or s.scores s.candidate_ptr 0))
          else s.scores;
      candidate_ptr = inc32 s.candidate_ptr % length k.candidates;
      round_counter = inc32 s.round_counter;
    }

-- The loop that issues prefetches.
unfoldable pub offset_prefetches : ℕ → ℕ → List ℤ → List ℕ
offset_prefetches page offset [] = []
offset_prefetches page offset (o ∷ best_offsets) =
    let pf_offset = signed32 ((offset + pattern32 o) % 2 ^ 32) in
    let rest = offset_prefetches page offset best_offsets in
    if not (ltb_ℤ pf_offset (pos 0)) && ltb_ℤ pf_offset (pos 64)
    then line_address page (pos_part pf_offset) ∷ rest
    else rest

-- `if(knob::bop_enable_pref_buffer) { ... }`
unfoldable pub through_buffer : Bool → Knobs → BoPrefetcher → List ℕ → BoPrefetcher × List ℕ
through_buffer true k s pref_addr = issue_prefetch k (buffer_prefetch k s pref_addr)
through_buffer false k s pref_addr = (s, pref_addr)

-- `stats.pref_issued += pref_addr.size()`
unfoldable pub count_issued : BoPrefetcher × List ℕ → BoPrefetcher × List ℕ
count_issued (s, pref_addr) = (
  record s {
    stats = record (s.stats) { pref_issued = add64 s.stats.pref_issued (length pref_addr) };
  },
  pref_addr,
)

-- The rest of a call, after the end of a phase.
unfoldable pub issue : Knobs → BoPrefetcher → ℕ → BoPrefetcher × List ℕ
issue k s address =
    let prefs = offset_prefetches (page_of address) (offset_of address) s.best_offsets in
    count_issued (through_buffer k.enable_pref_buffer k s prefs)

unfoldable pub end_phase : Knobs → BoPrefetcher → Run BoPrefetcher
end_phase k s = let (s', ends) = check_end_of_phase k s in if ends then phase_end k s' else ok s'

unfoldable pub invoke_prefetcher : Knobs → BoPrefetcher → ℕ → Run (BoPrefetcher × List ℕ)
invoke_prefetcher k s address =
    end_phase k (evaluate k s (block_of address)) >>= λ s'. ok (issue k s' address)

unfoldable pub insert_rr : Knobs → BoPrefetcher → ℕ → BoPrefetcher
insert_rr k s address =
    if search_rr s.rr address
    then record s { stats = record (s.stats) { rr_hit = inc64 s.stats.rr_hit } }
    else let full = leb k.rr_size (length s.rr) in
      record s {
        rr = push_back (if full then pop_front s.rr else s.rr) address;
        stats = record (s.stats) {
          rr_evict = if full then inc64 s.stats.rr_evict else s.stats.rr_evict;
          rr_insert = inc64 s.stats.rr_insert;
        };
      }

-- The loop of `register_fill` over the best offsets.
unfoldable pub fill_offsets : Knobs → ℕ → ℕ → List ℤ → BoPrefetcher → BoPrefetcher
fill_offsets k offset ca_address [] s = s
fill_offsets k offset ca_address (o ∷ best_offsets) s =
    let origin = signed32 ((offset + (2 ^ 32 - pattern32 o)) % 2 ^ 32) in
    let noted = record s {
      stats = record (s.stats) { fill_insert_rr = inc64 s.stats.fill_insert_rr };
    } in
    fill_offsets k offset ca_address best_offsets (
      if not (ltb_ℤ origin (pos 0)) && ltb_ℤ origin (pos 64)
      then insert_rr k noted (sub_offset ca_address o)
      else s)

unfoldable pub register_fill : Knobs → BoPrefetcher → ℕ → BoPrefetcher
register_fill k s address =
    let counted = record s {
      stats = record (s.stats) { fill_called = inc64 s.stats.fill_called };
    } in
    fill_offsets k (offset_of address) (block_of address) s.best_offsets counted
