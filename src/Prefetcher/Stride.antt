-- ===== src/Prefetcher/Stride.antt =====
-- The stride prefetcher of prefetcher/stride.cc and inc/stride.h. The knobs are arguments. The
-- addresses that one call returns go to an empty `pref_addr`.
pub mod Trained
use arishem.Base.{
  ℕ, zero, suc, ◌+◌, ◌-◌, ◌*◌, ◌%◌, ◌^◌, Bool, true, false, if◌then◌else◌, ltb, leb, ◌==◌, List, [],
  ◌∷◌, length, Option, none, some, inc64, add64, page_of, offset_of, block_of, line_address, not,
  ◌&&◌,
}
use arishem.Base.Int.{ℤ, pos, negsuc, eqb_ℤ, ltb_ℤ, pos_part, signed32, pattern32}
use arishem.Prefetcher.Tracking.{find_key, erase_key, pop_back}

pub record Tracker : Type 0 where
  pub pc : ℕ
  pub last_cl_addr : ℕ
  pub last_stride : ℤ

pub record Stats : Type 0 where
  pub lookup : ℕ
  pub evict : ℕ
  pub insert : ℕ
  pub hit : ℕ
  pub pos_strides : ℕ
  pub neg_strides : ℕ
  pub zero_strides : ℕ
  pub stride_match : ℕ
  pub generated : ℕ

pub record StridePrefetcher : Type 0 where
  pub trackers : List Tracker
  pub stats : Stats

abbrev pub tracked_pc : Tracker → ℕ
tracked_pc t = t.pc

-- The call of an access by an untracked instruction.
unfoldable pub start_tracking : ℕ → StridePrefetcher → ℕ → ℕ → StridePrefetcher
start_tracking num_trackers s pc cl_addr =
    let full = leb num_trackers (length s.trackers) in
    record s {
      trackers =
          record { pc = pc; last_cl_addr = cl_addr; last_stride = pos 0 }
          ∷ (if full then pop_back s.trackers else s.trackers);
      stats = record (s.stats) {
        evict = if full then inc64 s.stats.evict else s.stats.evict;
        insert = inc64 s.stats.insert;
      };
    }

-- `int32_t pref_offset = offset + stride*deg`, computed on `uint32_t`.
abbrev pub pref_offset : ℕ → ℤ → ℕ → ℤ
pref_offset offset stride deg = signed32 ((offset + pattern32 stride * deg) % 2 ^ 32)

-- The loop of `generate_prefetch` from the degree `deg` on.
unfoldable pub generate : ℕ → ℕ → ℕ → ℤ → ℕ → List ℕ
generate zero page offset stride deg = []
generate (suc left) page offset stride deg =
    let o = pref_offset offset stride deg in
    let rest = generate left page offset stride (deg + 1) in
    if not (ltb_ℤ o (pos 0)) && ltb_ℤ o (pos 64) then line_address page (pos_part o) ∷ rest else []

-- The addresses that `generate_prefetch` returns; its count is their number.
unfoldable pub generate_prefetch : ℕ → ℕ → ℤ → List ℕ
generate_prefetch pref_degree address stride =
    generate pref_degree (page_of address) (offset_of address) stride 0

-- The distance to the last line, as an `int32_t`.
unfoldable pub stride_of : ℕ → ℕ → ℤ
stride_of cl_addr last_cl_addr =
    if ltb last_cl_addr cl_addr
    then signed32 ((cl_addr - last_cl_addr) % 2 ^ 32)
    else if ltb cl_addr last_cl_addr
    then signed32 (pattern32 (signed32 ((last_cl_addr - cl_addr) % 2 ^ 32)) * (2 ^ 32 - 1) % 2 ^ 32)
    else pos 0

-- The counters after a lookup that hits.
unfoldable pub note_hit : Stats → ℕ → ℕ → Stats
note_hit stats cl_addr last_cl_addr = record stats {
  hit = inc64 stats.hit;
  pos_strides = if ltb last_cl_addr cl_addr then inc64 stats.pos_strides else stats.pos_strides;
  neg_strides = if ltb cl_addr last_cl_addr then inc64 stats.neg_strides else stats.neg_strides;
}

-- The call of an access by a tracked instruction, when the stride is not 0.
unfoldable pub follow : ℕ → StridePrefetcher → Tracker → ℕ → ℕ → ℕ → ℤ → StridePrefetcher × List ℕ
follow pref_degree s t pc cl_addr address stride =
    let same = eqb_ℤ stride t.last_stride in
    let prefs = if same then generate_prefetch pref_degree address stride else [] in
    (
      record s {
        trackers =
            record t { last_stride = stride; last_cl_addr = cl_addr }
            ∷ erase_key tracked_pc pc s.trackers;
        stats = record (s.stats) {
          stride_match = if same then inc64 s.stats.stride_match else s.stats.stride_match;
          generated = add64 s.stats.generated (length prefs);
        };
      },
      prefs,
    )

unfoldable pub invoke_prefetcher : ℕ → ℕ → StridePrefetcher → ℕ → ℕ → StridePrefetcher × List ℕ
invoke_prefetcher num_trackers pref_degree s pc address =
    let cl_addr = block_of address in
    let looked = record s { stats = record (s.stats) { lookup = inc64 s.stats.lookup } } in
    elim (find_key tracked_pc pc s.trackers) [
      | none ↦ (start_tracking num_trackers looked pc cl_addr, [])
      | some t ↦
          let noted = record looked { stats = note_hit looked.stats cl_addr t.last_cl_addr } in
          let stride = stride_of cl_addr t.last_cl_addr in
          if eqb_ℤ stride (pos 0)
          then (
            record noted {
              stats = record (noted.stats) { zero_strides = inc64 noted.stats.zero_strides };
            },
            [],
          )
          else follow pref_degree noted t pc cl_addr address stride
    ]
