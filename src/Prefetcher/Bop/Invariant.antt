-- ===== src/Prefetcher/Bop/Invariant.antt =====
-- The invariant of the best-offset prefetcher: its tables stay within their knobs and its indices
-- within the candidates; an inserted request is found.
use arishem.Base.{
  ℕ, ◌+◌, ◌-◌, ◌%◌, ◌≤◌, ◌<◌, ◌^◌, ◌≡◌, ◌≢◌, refl, arith, leb, ◌==◌, if◌then◌else◌, true, false,
  not, ◌&&◌, inl, inr, ◌⊎◌, Bool-cases, List, [], ◌∷◌, length, length-append, All, IsDistinct,
  IsDistinct-snoc, offset_of, block_of, inc64,
}
use arishem.Base.Int.{ℤ, pos, ltb_ℤ, signed32, pattern32}
use arishem.Prefetcher.Tracking.{push_back, pop_front}
use arishem.Prefetcher.Bop.{
  Knobs, BoPrefetcher, sub_offset, search_rr, insert_rr, fill_offsets, register_fill,
}

-- The knobs that the prefetcher is run with.
pub record IsSetUp (k : Knobs) : Type 0 where
  pub some_candidate : 0 < length k.candidates
  pub some_round : 0 < k.max_rounds
  pub some_place : 0 < k.rr_size
  pub rounds_small : k.max_rounds < 2 ^ 32
  pub candidates_small : length k.candidates < 2 ^ 32

pub record IsRequests (n : ℕ) (rr : List ℕ) : Type 0 where
  pub bounded : length rr ≤ n
  pub distinct : IsDistinct rr

pub record IsValid (k : Knobs) (s : BoPrefetcher) : Type 0 where
  pub requests : IsRequests k.rr_size s.rr
  pub scored : length s.scores ≡ length k.candidates
  pub candidate_in : s.candidate_ptr < length k.candidates
  pub round_in : s.round_counter < k.max_rounds
  pub buffer_bounded : length s.pref_buffer ≤ k.pref_buffer_size
  pub offsets : (length s.best_offsets ≡ 1) ⊎ (length s.best_offsets ≡ k.top_n)

search_rr-false :
    (rr : List ℕ) (address : ℕ) → search_rr rr address ≡ false → All (λ y. y ≢ address) rr
unfolding search_rr
search_rr-false [] address h = tt
search_rr-false (x ∷ rr) address h = elim (Bool-cases (x == address)) [
  | inl y ↦ absurd (cc (rw y at h))
  | inr z ↦ (ground arith, search_rr-false rr address (rw z at h))
]

search_rr-push_back : (rr : List ℕ) (a : ℕ) → search_rr (push_back rr a) a ≡ true
unfolding search_rr
search_rr-push_back [] a = ground arith
search_rr-push_back (x ∷ rr) a = ground (arith, search_rr-push_back rr a)

-- The requests after a new one, when the oldest leaves a full table.
IsRequests-push_back :
    (n : ℕ) (rr : List ℕ) (a : ℕ)
    → 0 < n
    → IsRequests n rr
    → search_rr rr a ≡ false
    → IsRequests n (push_back (if leb n (length rr) then pop_front rr else rr) a)
IsRequests-push_back n [] a room v h =
    let z : leb n 0 ≡ false = ground arith in
    rw z (record { bounded = omega arith; distinct = (tt, tt) })
IsRequests-push_back n (x ∷ rr) a room v h =
    let absent = search_rr-false (x ∷ rr) a h in
    elim (Bool-cases (leb n (length (x ∷ rr)))) [
      | inl y ↦ rw y (record {
        bounded = omega (arith, length-append rr (a ∷ []), v.bounded);
        distinct = IsDistinct-snoc rr a v.distinct.1 absent.1;
      })
      | inr z ↦ rw z (record {
        bounded = let l = length-append (x ∷ rr) (a ∷ []) in ground arith;
        distinct = IsDistinct-snoc (x ∷ rr) a v.distinct absent;
      })
    ]

-- What an insertion of a recent request leaves.
pub record Inserted (k : Knobs) (s : BoPrefetcher) (address : ℕ) (s' : BoPrefetcher) : Type 0 where
  pub valid : IsValid k s'
  pub found : search_rr s'.rr address ≡ true
  pub same_offsets : s'.best_offsets ≡ s.best_offsets

pub with_requests :
    (k : Knobs) (s s' : BoPrefetcher)
    → IsValid k s
    → IsRequests k.rr_size s'.rr
    → s'.scores ≡ s.scores
    → s'.candidate_ptr ≡ s.candidate_ptr
    → s'.round_counter ≡ s.round_counter
    → s'.pref_buffer ≡ s.pref_buffer
    → s'.best_offsets ≡ s.best_offsets
    → IsValid k s'
with_requests k s s' v r a b c d e = record {
  requests = r;
  scored = rw a v.scored;
  candidate_in = rw b v.candidate_in;
  round_in = rw c v.round_in;
  buffer_bounded = rw d v.buffer_bounded;
  offsets = rw e v.offsets;
}

-- When the knobs are set up, `insert_rr` keeps the invariant, with at most `rr_size` recent
-- requests and none twice; the request is then found, and the best offsets are as before.
pub insert_rr_lem :
    (k : Knobs) (s : BoPrefetcher) (address : ℕ)
    → IsSetUp k
    → IsValid k s
    → Inserted k s address (insert_rr k s address)
unfolding insert_rr
insert_rr_lem k s address u v = elim (Bool-cases (search_rr s.rr address)) [
  | inl y ↦
      rw (y, insert_rr)
        (record {
          valid = with_requests k s _ v v.requests refl refl refl refl refl;
          found = y;
          same_offsets = refl;
        })
  | inr z ↦
      rw (z, insert_rr)
        (record {
          valid =
              with_requests k s _ v
                (IsRequests-push_back k.rr_size s.rr address u.some_place v.requests z) refl refl
                refl refl refl;
          found =
              search_rr-push_back (if leb k.rr_size (length s.rr) then pop_front s.rr else s.rr)
                address;
          same_offsets = refl;
        })
]

fill_offsets-IsValid :
    (k : Knobs) (offset ca_address : ℕ) (best_offsets : List ℤ) (s : BoPrefetcher)
    → IsSetUp k
    → IsValid k s
    → IsValid k (fill_offsets k offset ca_address best_offsets s)
unfolding fill_offsets
fill_offsets-IsValid k offset ca_address [] s u v = v
fill_offsets-IsValid k offset ca_address (o ∷ os) s u v =
    let origin = signed32 ((offset + (2 ^ 32 - pattern32 o)) % 2 ^ 32) in
    let noted = record s {
      stats = record (s.stats) { fill_insert_rr = inc64 s.stats.fill_insert_rr };
    } in
    let same : IsValid k noted = with_requests k s noted v v.requests refl refl refl refl refl in
    elim (Bool-cases (not (ltb_ℤ origin (pos 0)) && ltb_ℤ origin (pos 64))) [
      | inl y ↦
          rw (y, fill_offsets)
            (fill_offsets-IsValid k offset ca_address os
              (insert_rr k noted (sub_offset ca_address o)) u
              (insert_rr_lem k noted (sub_offset ca_address o) u same).valid)
      | inr z ↦ rw (z, fill_offsets) (fill_offsets-IsValid k offset ca_address os s u v)
    ]

-- `register_fill` keeps the invariant of the prefetcher when the knobs are set up.
pub register_fill-IsValid :
    (k : Knobs) (s : BoPrefetcher) (address : ℕ)
    → IsSetUp k
    → IsValid k s
    → IsValid k (register_fill k s address)
unfolding register_fill
register_fill-IsValid k s address u v =
    fill_offsets-IsValid k (offset_of address) (block_of address) s.best_offsets _ u
      (with_requests k s _ v v.requests refl refl refl refl refl)
