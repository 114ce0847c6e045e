-- ===== src/Prefetcher/Streamer.antt =====
-- The streamer of prefetcher/streamer.cc and inc/streamer.h. The knobs are arguments. The addresses
-- that one call returns go to an empty `pref_addr`.
pub mod Called
use arishem.Base.{
  ℕ, zero, suc, ◌+◌, Bool, true, false, if◌then◌else◌, ltb, leb, ◌==◌, List, [], ◌∷◌, ◌++◌, length,
  Option, none, some, inc64, add64, page_of, offset_of, line_address, not, ◌&&◌,
}
use arishem.Base.Int.{ℤ, pos, negsuc, eqb_ℤ, ◌+ℤ◌, ltb_ℤ, pos_part}
use arishem.Prefetcher.Tracking.{find_key, erase_key, push_back, pop_front}

-- `last_dir` is +1, -1, or 0 before the first move.
pub record StreamTracker : Type 0 where
  pub page : ℕ
  pub last_offset : ℕ
  pub last_dir : ℤ
  pub conf : ℕ

unfoldable pub new_tracker : ℕ → ℕ → StreamTracker
new_tracker page last_offset = record {
  page = page;
  last_offset = last_offset;
  last_dir = pos 0;
  conf = 0;
}

pub record Stats : Type 0 where
  pub called : ℕ
  pub missed : ℕ
  pub evict : ℕ
  pub insert : ℕ
  pub hit : ℕ
  pub same_offset : ℕ
  pub dir_match : ℕ
  pub dir_mismatch : ℕ
  pub pred_dir_match : ℕ
  pub pred_total : ℕ

pub record Streamer : Type 0 where
  pub trackers : List StreamTracker
  pub stats : Stats

abbrev pub tracked_page : StreamTracker → ℕ
tracked_page t = t.page

-- The call of an access to an untracked page.
unfoldable pub start_tracking : ℕ → Streamer → ℕ → ℕ → Streamer
start_tracking num_trackers s page offset =
    let full = leb num_trackers (length s.trackers) in
    record s {
      trackers =
          push_back (if full then pop_front s.trackers else s.trackers) (new_tracker page offset);
      stats = record (s.stats) {
        missed = inc64 s.stats.missed;
        evict = if full then inc64 s.stats.evict else s.stats.evict;
        insert = inc64 s.stats.insert;
      };
    }

-- The loop that generates prefetches, from the current `pref_offset`.
unfoldable pub generate : ℕ → ℕ → ℤ → ℤ → List ℕ
generate zero page dir pref_offset = []
generate (suc left) page dir pref_offset =
    let next = if eqb_ℤ dir (pos 1) then pref_offset +ℤ pos 1 else pref_offset +ℤ negsuc 0 in
    let rest = generate left page dir next in
    if not (ltb_ℤ next (pos 0)) && ltb_ℤ next (pos 64)
    then line_address page (pos_part next) ∷ rest
    else []

abbrev pub direction : ℕ → ℕ → ℤ
direction offset last_offset = if ltb last_offset offset then pos 1 else negsuc 0

-- The tracker after a move to another line of its page.
unfoldable pub moved_tracker : StreamTracker → ℕ → ℕ → StreamTracker
moved_tracker t page offset =
    let dir = direction offset t.last_offset in
    record {
      page = page;
      last_offset = offset;
      last_dir = dir;
      conf = if eqb_ℤ dir t.last_dir then 1 else 0;
    }

-- The call of an access to another line of a tracked page.
unfoldable pub move : ℕ → Streamer → StreamTracker → ℕ → ℕ → Streamer × List ℕ
move pref_degree s t page offset =
    let dir = direction offset t.last_offset in
    let same = eqb_ℤ dir t.last_dir in
    let prefs = if same then generate pref_degree page dir (pos offset) else [] in
    (
      record s {
        trackers = push_back (erase_key tracked_page page s.trackers) (moved_tracker t page offset);
        stats = record (s.stats) {
          hit = inc64 s.stats.hit;
          dir_match = if same then inc64 s.stats.dir_match else s.stats.dir_match;
          dir_mismatch = if same then s.stats.dir_mismatch else inc64 s.stats.dir_mismatch;
          pred_dir_match = if same then inc64 s.stats.pred_dir_match else s.stats.pred_dir_match;
          pred_total = add64 s.stats.pred_total (length prefs);
        };
      },
      prefs,
    )

unfoldable pub invoke_prefetcher : ℕ → ℕ → Streamer → ℕ → Streamer × List ℕ
invoke_prefetcher num_trackers pref_degree s address =
    let page = page_of address in
    let offset = offset_of address in
    let counted = record s { stats = record (s.stats) { called = inc64 s.stats.called } } in
    elim (find_key tracked_page page s.trackers) [
      | none ↦ (start_tracking num_trackers counted page offset, [])
      | some t ↦
          if offset == t.last_offset
          then (
            record counted {
              stats = record (counted.stats) {
                hit = inc64 counted.stats.hit;
                same_offset = inc64 counted.stats.same_offset;
              };
            },
            [],
          )
          else move pref_degree counted t page offset
    ]
