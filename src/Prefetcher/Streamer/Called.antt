-- ===== src/Prefetcher/Streamer/Called.antt =====
-- What one call of the streamer does: it keeps its table, trains the tracker of the page, and
-- prefetches lines of that page only.
use arishem.Base.{
  ℕ, zero, suc, ◌+◌, ◌-◌, ◌<◌, ◌^◌, ◌≡◌, refl, arith, ◌==◌, if◌then◌else◌, true, false, inl, inr,
  Bool-cases, List, [], ◌∷◌, All, Option, none, some, Option-cases, page_of, offset_of,
  line_address, min, ltb, inc64, ap, sym, ◌∙◌,
}
use arishem.Base.Int.{ℤ, pos, negsuc, eqb_ℤ, ◌+ℤ◌}
use arishem.Prefetcher.Tracking.{find_key}
use arishem.Prefetcher.Tracking.Table.{
  IsTable, find_key-none, evict_front, push_back-IsTable, erased, find_key-push_back,
}
use arishem.Prefetcher.Streamer.{
  StreamTracker, new_tracker, Streamer, tracked_page, start_tracking, generate, moved_tracker, move,
  invoke_prefetcher,
}

-- The line with an offset inside a page.
line_address-page : (page o : ℕ) → page < 2 ^ 52 → o < 64 → page_of (line_address page o) ≡ page
line_address-page page o hp ho = omega arith

-- `n` lines of a page above, or below, an offset.
unfoldable pub lines_above : ℕ → ℕ → ℕ → List ℕ
lines_above page o zero = []
lines_above page o (suc n) = line_address page (o + 1) ∷ lines_above page (o + 1) n

unfoldable pub lines_below : ℕ → ℕ → ℕ → List ℕ
lines_below page o zero = []
lines_below page o (suc n) = line_address page (o - 1) ∷ lines_below page (o - 1) n

generate-up :
    (n page o : ℕ) → o < 64 → generate n page (pos 1) (pos o) ≡ lines_above page o (min n (63 - o))
unfolding generate ◌+ℤ◌ lines_above
generate-up zero page o h = let z : min 0 (63 - o) ≡ 0 = omega arith in rw z refl
generate-up (suc n) page o h = elim (Bool-cases (o == 63)) [
  | inl y ↦ let none_left : min (suc n) (63 - o) ≡ 0 = ground arith in rw (none_left) (ground arith)
  | inr z ↦
      let more : min (suc n) (63 - o) ≡ suc (min n (63 - (o + 1))) = ground arith in
      rw more (ground (arith, generate-up n page (o + 1) (ground arith)))
]

generate-down :
    (n page o : ℕ) → o < 64 → generate n page (negsuc 0) (pos o) ≡ lines_below page o (min n o)
unfolding generate ◌+ℤ◌ lines_below
generate-down zero page o h = let z : min 0 o ≡ 0 = omega arith in rw z refl
generate-down (suc n) page zero h = let z : min (suc n) 0 ≡ 0 = omega arith in rw z refl
generate-down (suc n) page (suc o) h =
    let more : min (suc n) (suc o) ≡ suc (min n o) = omega arith in
    rw more (ground (arith, generate-down n page o (omega arith)))

lines_above-page :
    (page o n : ℕ) → page < 2 ^ 52 → o + n < 64 → All (λ a. page_of a ≡ page) (lines_above page o n)
unfolding lines_above
lines_above-page page o zero hp h = tt
lines_above-page page o (suc n) hp h = (
  line_address-page page (o + 1) hp (omega arith),
  lines_above-page page (o + 1) n hp (omega arith),
)

lines_below-page :
    (page o n : ℕ) → page < 2 ^ 52 → o < 64 → All (λ a. page_of a ≡ page) (lines_below page o n)
unfolding lines_below
lines_below-page page o zero hp h = tt
lines_below-page page o (suc n) hp h = (
  line_address-page page (o - 1) hp (omega arith),
  lines_below-page page (o - 1) n hp (omega arith),
)

-- The prefetches of an access to the line `o` of a page that a tracker, if any, follows.
unfoldable pub predicted : ℕ → ℕ → ℕ → Option StreamTracker → List ℕ
predicted degree page o none = []
predicted degree page o (some t) =
    if o == t.last_offset
    then []
    else if ltb t.last_offset o
    then if eqb_ℤ t.last_dir (pos 1) then lines_above page o (min degree (63 - o)) else []
    else if eqb_ℤ t.last_dir (negsuc 0)
    then lines_below page o (min degree o)
    else []

pub record Called (num_trackers degree : ℕ) (trackers : List StreamTracker) (address : ℕ)
    (r : Streamer × List ℕ) : Type 0 where
  pub table : IsTable tracked_page num_trackers r.0.trackers
  pub trained :
      (t : StreamTracker) × (find_key tracked_page (page_of address) r.0.trackers ≡ some t)
      × (t.last_offset ≡ offset_of address)
  pub prefetches :
      r.1
      ≡ predicted degree
          (page_of address)
          (offset_of address)
          (find_key tracked_page (page_of address) trackers)
  pub same_page : All (λ a. page_of a ≡ page_of address) r.1

predicted-page :
    (degree page o : ℕ) (found : Option StreamTracker)
    → page < 2 ^ 52
    → o < 64
    → All (λ a. page_of a ≡ page) (predicted degree page o found)
unfolding predicted
predicted-page degree page o none hp h = tt
predicted-page degree page o (some t) hp h =
    let up = lines_above-page page o (min degree (63 - o)) hp (omega arith) in
    let down = lines_below-page page o (min degree o) hp h in ground arith

eqb_ℤ-sym : (a b : ℤ) → eqb_ℤ a b ≡ eqb_ℤ b a
eqb_ℤ-sym a b = ground arith

-- The prefetches of `move` are those predicted.
move-prefetches :
    (degree : ℕ) (s : Streamer) (t : StreamTracker) (page o : ℕ)
    → o < 64
    → (o == t.last_offset) ≡ false
    → (move degree s t page o).1 ≡ predicted degree page o (some t)
unfolding move predicted
move-prefetches degree s t page o h ne = elim (Bool-cases (ltb t.last_offset o)) [
  | inl y ↦ rw (ne, y, generate-up degree page o h, eqb_ℤ-sym t.last_dir (pos 1)) refl
  | inr z ↦ rw (ne, z, generate-down degree page o h, eqb_ℤ-sym t.last_dir (negsuc 0)) refl
]

module _ (num_trackers degree : ℕ) (s : Streamer) (address : ℕ) (room : 0 < num_trackers)
    (v : IsTable tracked_page num_trackers s.trackers) where
  started :
      find_key tracked_page (page_of address) s.trackers ≡ none
      → Called num_trackers degree s.trackers address
          (start_tracking num_trackers s (page_of address) (offset_of address), [])
  unfolding start_tracking new_tracker predicted
  started e =
      let a = find_key-none tracked_page (page_of address) s.trackers e in
      let rest = evict_front tracked_page num_trackers (page_of address) s.trackers room v a in
      let t = new_tracker (page_of address) (offset_of address) in
      record {
        table = push_back-IsTable tracked_page num_trackers _ t rest;
        trained = (t, find_key-push_back tracked_page (page_of address) _ t rest.2 refl, refl);
        prefetches = rw e refl;
        same_page = tt;
      }

  stayed :
      (t : StreamTracker) (r : Streamer)
      → r.trackers ≡ s.trackers
      → find_key tracked_page (page_of address) s.trackers ≡ some t
      → (offset_of address == t.last_offset) ≡ true
      → Called num_trackers degree s.trackers address (r, [])
  unfolding predicted
  stayed t r same e y = record {
    table = rw same v;
    trained = (t, rw same e, ground arith);
    prefetches = rw (e, y) refl;
    same_page = tt;
  }

  moved :
      (t : StreamTracker)
      → address < 2 ^ 64
      → find_key tracked_page (page_of address) s.trackers ≡ some t
      → (offset_of address == t.last_offset) ≡ false
      → Called num_trackers degree s.trackers address
          (move degree s t (page_of address) (offset_of address))
  unfolding move moved_tracker
  moved t word e ne =
      let rest = erased tracked_page num_trackers (page_of address) s.trackers t v e in
      let t' = moved_tracker t (page_of address) (offset_of address) in
      let exact =
        move-prefetches degree s t (page_of address) (offset_of address) (omega arith) ne in
      record {
        table = push_back-IsTable tracked_page num_trackers _ t' rest;
        trained = (t', find_key-push_back tracked_page (page_of address) _ t' rest.2 refl, refl);
        prefetches = exact ∙ ap (predicted degree (page_of address) (offset_of address)) (sym e);
        same_page = rw exact (
            predicted-page degree (page_of address) (offset_of address) (some t) (omega arith)
              (omega arith));
      }

-- With room for a tracker, a call of the streamer for a 64-bit address keeps its table of at most
-- `num_trackers` trackers, one for a page, and leaves a tracker of the accessed page with the
-- accessed line. It returns no prefetch for a new page, for the line of the last access, or
-- against the direction of the last move; along that direction it returns the next lines up to
-- the degree and the end of the page. All are lines of the accessed page.
pub streamer_lem :
    (num_trackers degree : ℕ) (s : Streamer) (address : ℕ)
    → 0 < num_trackers
    → address < 2 ^ 64
    → IsTable tracked_page num_trackers s.trackers
    → Called num_trackers degree s.trackers address
        (invoke_prefetcher num_trackers degree s address)
unfolding invoke_prefetcher
streamer_lem num_trackers degree s address room word v =
    elim (Option-cases (find_key tracked_page (page_of address) s.trackers)) [
      | inl e ↦
          rw (e, invoke_prefetcher)
            (started num_trackers degree
              (record s { stats = record (s.stats) { called = inc64 s.stats.called } }) address room
              v e)
      | inr (t, e) ↦ elim (Bool-cases (offset_of address == t.last_offset)) [
        | inl y ↦
            rw (e, y, invoke_prefetcher) (stayed num_trackers degree s address room v t _ refl e y)
        | inr z ↦
            rw (e, z, invoke_prefetcher)
              (moved num_trackers degree
                (record s { stats = record (s.stats) { called = inc64 s.stats.called } }) address
                room v t word e z)
      ]
    ]
