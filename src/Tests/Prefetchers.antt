-- ===== src/Tests/Prefetchers.antt =====
-- Runs of the prefetchers.
use arishem.Base.{◌+◌, ◌*◌, ◌≡◌, arith, false, [], ◌∷◌, Returns}
use arishem.Base.Int.{pos, negsuc, sub_ℕ}
use arishem.Prefetcher.Streamer.{StreamTracker, Streamer, tracked_page}
use arishem.Prefetcher.Streamer
use arishem.Prefetcher.Streamer.Called.{Called, streamer_lem}
use arishem.Prefetcher.Stride.{Tracker, StridePrefetcher, tracked_pc, stride_of}
use arishem.Prefetcher.Stride
use arishem.Prefetcher.Stride.Trained.{stride_of_lem, Followed, stride_lem}
use arishem.Prefetcher.Bop.{
  Knobs, BoPrefetcher, new_prefetcher, check_end_of_phase, insert_rr, register_fill,
}
use arishem.Prefetcher.Bop
use arishem.Prefetcher.Bop.Phase.{check_end_of_phase-index}
use arishem.Prefetcher.Bop.Invariant.{IsSetUp, IsValid, Inserted, insert_rr_lem}
use arishem.Prefetcher.Bop.Calls.{new_prefetcher-IsValid, Issued, bop_lem}

-- A stream that goes up in page 2, at line 10.
abbrev upward : Streamer
upward = record {
  trackers = record { page = 2; last_offset = 10; last_dir = pos 1; conf = 1 } ∷ [];
  stats = record {
    called = 0;
    missed = 0;
    evict = 0;
    insert = 0;
    hit = 0;
    same_offset = 0;
    dir_match = 0;
    dir_mismatch = 0;
    pred_dir_match = 0;
    pred_total = 0;
  };
}

streamer_lem_example :
    Called 4 3 upward.trackers
      (2 * 4096 + 12 * 64)
      (Streamer.invoke_prefetcher 4 3 upward (2 * 4096 + 12 * 64))
streamer_lem_example =
    streamer_lem 4 3 upward (2 * 4096 + 12 * 64) (omega arith) (omega arith)
      (record { bounded = omega arith; distinct = (tt, tt) })

stride_of_lem_example : stride_of 100 103 ≡ sub_ℕ 100 103
stride_of_lem_example = stride_of_lem 100 103 (omega arith) (omega arith)

-- An instruction that goes up by two lines, last at line 130.
abbrev by_two : StridePrefetcher
by_two = record {
  trackers = record { pc = 40; last_cl_addr = 130; last_stride = pos 2 } ∷ [];
  stats = record {
    lookup = 0;
    evict = 0;
    insert = 0;
    hit = 0;
    pos_strides = 0;
    neg_strides = 0;
    zero_strides = 0;
    stride_match = 0;
    generated = 0;
  };
}

stride_lem_example :
    Followed 4 3 by_two.trackers 40 (132 * 64) (Stride.invoke_prefetcher 4 3 by_two 40 (132 * 64))
stride_lem_example =
    stride_lem 4 3 by_two 40 (132 * 64) (omega arith) (omega arith)
      (record { bounded = omega arith; distinct = (tt, tt) })

abbrev three_offsets : Knobs
three_offsets = record {
  candidates = pos 1 ∷ negsuc 0 ∷ pos 2 ∷ [];
  max_rounds = 100;
  max_score = 31;
  top_n = 1;
  enable_pref_buffer = false;
  pref_buffer_size = 16;
  pref_degree = 2;
  rr_size = 8;
}

three_offsets-IsSetUp : IsSetUp three_offsets
three_offsets-IsSetUp = record {
  some_candidate = omega arith;
  some_round = omega arith;
  some_place = omega arith;
  rounds_small = omega arith;
  candidates_small = omega arith;
}

fresh-IsValid : IsValid three_offsets (new_prefetcher three_offsets)
fresh-IsValid = new_prefetcher-IsValid three_offsets three_offsets-IsSetUp

bop_lem_example :
    Returns
      (Bop.invoke_prefetcher three_offsets (new_prefetcher three_offsets) 8192)
      (Issued three_offsets 8192)
bop_lem_example =
    bop_lem three_offsets (new_prefetcher three_offsets) 8192 three_offsets-IsSetUp (omega arith)
      fresh-IsValid

insert_rr_lem_example :
    Inserted three_offsets
      (new_prefetcher three_offsets)
      127
      (insert_rr three_offsets (new_prefetcher three_offsets) 127)
insert_rr_lem_example =
    insert_rr_lem three_offsets (new_prefetcher three_offsets) 127 three_offsets-IsSetUp
      fresh-IsValid

-- A candidate has a score far above the limit.
abbrev scored : BoPrefetcher
scored = record (new_prefetcher three_offsets) { scores = 4 ∷ 500 ∷ 7 ∷ [] }

check_end_of_phase-index_example : check_end_of_phase three_offsets scored ≡ (scored, false)
unfolding new_prefetcher
check_end_of_phase-index_example =
    check_end_of_phase-index three_offsets scored (omega arith) (omega arith) (omega arith)
