-- ===== src/Prefetcher/Stride/Trained.antt =====
-- What one call of the stride prefetcher does: it keeps its table, trains the tracker of the
-- instruction, and prefetches lines of the accessed page, the accessed line first.
use arishem.Base.{
  ℕ, zero, suc, ◌+◌, ◌-◌, ◌*◌, ◌%◌, ◌≤◌, ◌<◌, ◌^◌, ◌≡◌, refl, arith, leb, ltb, true, false, not,
  ◌&&◌, inl, inr, ◌⊎◌, Bool-cases, List, [], ◌∷◌, length, All, none, some, Option-cases, page_of,
  offset_of, block_of, line_address, inc64, get_or,
}
use arishem.Base.Int.{ℤ, pos, eqb_ℤ, ltb_ℤ, pos_part, sub_ℕ, signed32, pattern32}
use arishem.Prefetcher.Tracking.{find_key, erase_key}
use arishem.Prefetcher.Tracking.Table.{
  IsTable, find_key-none, find_key-some, evict_back, push_front-IsTable, erased, find_key-front,
}
use arishem.Prefetcher.Stride.{
  Tracker, StridePrefetcher, tracked_pc, start_tracking, pref_offset, generate, generate_prefetch,
  stride_of, note_hit, follow, invoke_prefetcher,
}

-- An offset that passes the bounds check is a line of the page.
line_address-page :
    (page : ℕ) (o : ℤ)
    → page < 2 ^ 52
    → (not (ltb_ℤ o (pos 0)) && ltb_ℤ o (pos 64)) ≡ true
    → page_of (line_address page (pos_part o)) ≡ page
line_address-page page o hp h = let small : pos_part o < 64 = ground arith in omega arith

generate-page :
    (left page offset : ℕ) (stride : ℤ) (deg : ℕ)
    → page < 2 ^ 52
    → (length (generate left page offset stride deg) ≤ left)
      × All (λ a. page_of a ≡ page) (generate left page offset stride deg)
unfolding generate
generate-page zero page offset stride deg hp = (omega arith, tt)
generate-page (suc left) page offset stride deg hp =
    let o = pref_offset offset stride deg in
    let rest = generate-page left page offset stride (deg + 1) hp in
    elim (Bool-cases (not (ltb_ℤ o (pos 0)) && ltb_ℤ o (pos 64))) [
      | inl y ↦ rw y (omega (arith, rest.0), (line_address-page page o hp y, rest.1))
      | inr z ↦ rw z (omega arith, tt)
    ]

-- At degree 0 the loop yields the accessed line.
generate-first :
    (left page offset : ℕ) (stride : ℤ)
    → offset < 64
    → get_or (generate (suc left) page offset stride 0) 0 0 ≡ line_address page offset
unfolding generate signed32
generate-first left page offset stride h =
    let e : (offset + pattern32 stride * 0) % 2 ^ 32 ≡ offset = omega arith in
    let small : ltb offset (2 ^ 31) ≡ true = ground arith in rw (e, small) (ground arith)

generate_prefetch-first :
    (degree address : ℕ) (stride : ℤ)
    → 0 < degree
    → get_or (generate_prefetch degree address stride) 0 0
      ≡ line_address (page_of address) (offset_of address)
unfolding generate_prefetch
generate_prefetch-first zero address stride d = absurd (omega arith)
generate_prefetch-first (suc n) address stride d =
    generate-first n (page_of address) (offset_of address) stride (omega arith)

-- Lines less than 2 ^ 31 apart have their distance as the stride.
pub stride_of_lem :
    (cl_addr last_cl_addr : ℕ)
    → cl_addr < last_cl_addr + 2 ^ 31
    → last_cl_addr < cl_addr + 2 ^ 31
    → stride_of cl_addr last_cl_addr ≡ sub_ℕ cl_addr last_cl_addr
unfolding stride_of signed32 pattern32
stride_of_lem cl_addr last_cl_addr up down = elim (Bool-cases (ltb last_cl_addr cl_addr)) [
  | inl y ↦
      let e : (cl_addr - last_cl_addr) % 2 ^ 32 ≡ cl_addr - last_cl_addr = ground arith in
      let small : ltb (cl_addr - last_cl_addr) (2 ^ 31) ≡ true = ground arith in
      let over : leb last_cl_addr cl_addr ≡ true = ground arith in rw (y, e, small, over) refl
  | inr z ↦ elim (Bool-cases (ltb cl_addr last_cl_addr)) [
    | inl y ↦
        let d = last_cl_addr - cl_addr in
        let e : d % 2 ^ 32 ≡ d = ground arith in
        let small : ltb d (2 ^ 31) ≡ true = ground arith in
        let turned : d * (2 ^ 32 - 1) % 2 ^ 32 ≡ 2 ^ 32 - d = ground arith in
        let large : ltb (2 ^ 32 - d) (2 ^ 31) ≡ false = ground arith in
        let back : 2 ^ 32 - (2 ^ 32 - d) ≡ d = ground arith in
        let under : leb last_cl_addr cl_addr ≡ false = ground arith in
        rw (z, y, e, small, e, turned, large, back, under) refl
    | inr w ↦
        let over : leb last_cl_addr cl_addr ≡ true = ground arith in
        let none_apart : cl_addr - last_cl_addr ≡ 0 = ground arith in
        rw (z, w, over, none_apart) refl
  ]
]

pub record Followed (num_trackers degree : ℕ) (trackers : List Tracker) (pc address : ℕ)
    (r : StridePrefetcher × List ℕ) : Type 0 where
  pub table : IsTable tracked_pc num_trackers r.0.trackers
  pub few : length r.1 ≤ degree
  pub same_page : All (λ a. page_of a ≡ page_of address) r.1
  -- Prefetches come only when the stride is that of the last access, and the first of them is
  -- the accessed line.
  pub repeated :
      (r.1 ≡ [])
      ⊎ ((t : Tracker) × (find_key tracked_pc pc trackers ≡ some t)
          × (eqb_ℤ (stride_of (block_of address) t.last_cl_addr) t.last_stride ≡ true)
          × (r.1 ≡ generate_prefetch degree address (stride_of (block_of address) t.last_cl_addr)))
  pub first :
      0 < degree
      → (r.1 ≡ []) ⊎ (get_or r.1 0 0 ≡ line_address (page_of address) (offset_of address))
  -- The tracker of the instruction has the accessed line, unless the stride is 0.
  pub trained :
      (t : Tracker) × (find_key tracked_pc pc r.0.trackers ≡ some t)
      × ((t.last_cl_addr ≡ block_of address)
          ⊎ (eqb_ℤ (stride_of (block_of address) t.last_cl_addr) (pos 0) ≡ true))

module _ (num_trackers degree : ℕ) (s : StridePrefetcher) (pc address : ℕ) (room : 0 < num_trackers)
    (word : address < 2 ^ 64) (v : IsTable tracked_pc num_trackers s.trackers) where
  started :
      find_key tracked_pc pc s.trackers ≡ none
      → Followed num_trackers degree s.trackers pc address
          (start_tracking num_trackers s pc (block_of address), [])
  unfolding start_tracking find_key
  started e =
      let a = find_key-none tracked_pc pc s.trackers e in
      let rest = evict_back tracked_pc num_trackers pc s.trackers room v a in
      record {
        table = push_front-IsTable tracked_pc num_trackers _ _ rest;
        few = omega arith;
        same_page = tt;
        repeated = inl refl;
        first = λ d. inl refl;
        trained = (_, find_key-front tracked_pc pc _ _ refl, inl refl);
      }

  stayed :
      (t : Tracker) (r : StridePrefetcher)
      → r.trackers ≡ s.trackers
      → find_key tracked_pc pc s.trackers ≡ some t
      → eqb_ℤ (stride_of (block_of address) t.last_cl_addr) (pos 0) ≡ true
      → Followed num_trackers degree s.trackers pc address (r, [])
  stayed t r same e y = record {
    table = rw same v;
    few = omega arith;
    same_page = tt;
    repeated = inl refl;
    first = λ d. inl refl;
    trained = (t, rw same e, inr y);
  }

  followed :
      (t : Tracker)
      → find_key tracked_pc pc s.trackers ≡ some t
      → Followed num_trackers degree s.trackers pc address (
          follow degree s t pc
            (block_of address)
            address
            (stride_of (block_of address) t.last_cl_addr))
  unfolding follow find_key generate_prefetch
  followed t e =
      let stride = stride_of (block_of address) t.last_cl_addr in
      let rest = erased tracked_pc num_trackers pc s.trackers t v e in
      let own : t.pc ≡ pc = find_key-some tracked_pc pc s.trackers t e in
      let inside =
        generate-page degree (page_of address) (offset_of address) stride 0 (omega arith) in
      let kept : IsTable tracked_pc num_trackers (
          record t { last_stride = stride; last_cl_addr = block_of address }
          ∷ erase_key tracked_pc pc s.trackers) =
        push_front-IsTable tracked_pc num_trackers _ _ (rw own rest) in
      elim (Bool-cases (eqb_ℤ stride t.last_stride)) [
        | inl y ↦ rw y (record {
          table = kept;
          few = inside.0;
          same_page = inside.1;
          repeated = inr (t, e, y, refl);
          first = λ d. inr (generate_prefetch-first degree address stride d);
          trained = (_, find_key-front tracked_pc pc _ _ own, inl refl);
        })
        | inr z ↦ rw z (record {
          table = kept;
          few = omega arith;
          same_page = tt;
          repeated = inl refl;
          first = λ d. inl refl;
          trained = (_, find_key-front tracked_pc pc _ _ own, inl refl);
        })
      ]

-- With room for a tracker, a call of the stride prefetcher for a 64-bit address keeps its table
-- of at most `num_trackers` trackers, one for an instruction, and leaves a tracker of the
-- instruction with the accessed line unless the stride is 0. It returns at most `degree`
-- prefetches, all in the accessed page, and only when the stride is that of the last access; the
-- first of them is the accessed line itself.
pub stride_lem :
    (num_trackers degree : ℕ) (s : StridePrefetcher) (pc address : ℕ)
    → 0 < num_trackers
    → address < 2 ^ 64
    → IsTable tracked_pc num_trackers s.trackers
    → Followed num_trackers degree s.trackers pc address
        (invoke_prefetcher num_trackers degree s pc address)
unfolding invoke_prefetcher
stride_lem num_trackers degree s pc address room word v =
    elim (Option-cases (find_key tracked_pc pc s.trackers)) [
      | inl e ↦
          rw (e, invoke_prefetcher)
            (started num_trackers degree
              (record s { stats = record (s.stats) { lookup = inc64 s.stats.lookup } }) pc address
              room word v e)
      | inr (t, e) ↦
          elim (Bool-cases (eqb_ℤ (stride_of (block_of address) t.last_cl_addr) (pos 0))) [
            | inl y ↦
                rw (e, y, invoke_prefetcher)
                  (stayed num_trackers degree s pc address room word v t _ refl e y)
            | inr z ↦
                let noted = record s {
                  stats =
                      note_hit (record (s.stats) { lookup = inc64 s.stats.lookup })
                        (block_of address) t.last_cl_addr;
                } in
                rw (e, z, invoke_prefetcher)
                  (followed num_trackers degree noted pc address room word v t e)
          ]
    ]
