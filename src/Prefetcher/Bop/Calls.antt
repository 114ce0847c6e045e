-- ===== src/Prefetcher/Bop/Calls.antt =====
-- One call of the best-offset prefetcher: it returns, keeps the invariant, and issues lines of the
-- accessed page, or as many buffered ones as the degree allows.
use native.Mathlib.Nat.{mod-lt}
use arishem.Base.{
  ℕ, zero, suc, ◌+◌, ◌-◌, ◌%◌, ◌≤◌, ◌<◌, ◌^◌, ◌≡◌, refl, ap, ◌∙◌, arith, leb, Bool, true, false,
  not, ◌&&◌, inl, inr, ◌⊎◌, Bool-cases, List, [], ◌∷◌, ◌++◌, length, get_or, take, drop,
  length-append, length-set, length-replicate, length-take-le, Returns, All, page_of, offset_of,
  block_of, inc32, min,
}
use arishem.Base.Int.{ℤ, pos, ltb_ℤ, pos_part, signed32, pattern32}
use arishem.Prefetcher.Bop.{
  Knobs, BoPrefetcher, new_prefetcher, check_end_of_phase, phase_end, buffer_prefetch,
  issue_prefetch, evaluate, offset_prefetches, through_buffer, count_issued, issue, end_phase,
  invoke_prefetcher, last_max,
}
use arishem.Prefetcher.Bop.Phase.{phase_end_lem}
use arishem.Prefetcher.Bop.Invariant.{IsSetUp, IsRequests, IsValid, with_requests}

-- A new prefetcher has the invariant.
pub new_prefetcher-IsValid : (k : Knobs) → IsSetUp k → IsValid k (new_prefetcher k)
unfolding new_prefetcher
new_prefetcher-IsValid k u = record {
  requests = record { bounded = omega arith; distinct = tt };
  scored = length-replicate (length k.candidates) 0;
  candidate_in = u.some_candidate;
  round_in = u.some_round;
  buffer_bounded = omega arith;
  offsets = inl refl;
}

-- The invariant before the end of a phase is looked for: the last round may be over.
record IsEvaluated (k : Knobs) (s : BoPrefetcher) : Type 0 where
  requests : IsRequests k.rr_size s.rr
  scored : length s.scores ≡ length k.candidates
  candidate_in : s.candidate_ptr < length k.candidates
  buffer_bounded : length s.pref_buffer ≤ k.pref_buffer_size
  offsets : (length s.best_offsets ≡ 1) ⊎ (length s.best_offsets ≡ k.top_n)

evaluate-IsEvaluated :
    (k : Knobs) (s : BoPrefetcher) (ca_address : ℕ)
    → IsSetUp k
    → IsValid k s
    → IsEvaluated k (evaluate k s ca_address)
unfolding evaluate
evaluate-IsEvaluated k s ca_address u v = record {
  requests = v.requests;
  scored =
      let kept = length-set s.scores s.candidate_ptr (inc32 (get_or s.scores s.candidate_ptr 0)) in
      ground (arith, kept, v.scored);
  candidate_in = mod-lt (inc32 s.candidate_ptr) u.some_candidate;
  buffer_bounded = v.buffer_bounded;
  offsets = v.offsets;
}

phase_end-IsValid :
    (k : Knobs) (s : BoPrefetcher)
    → IsSetUp k
    → IsEvaluated k s
    → Returns (phase_end k s) (IsValid k)
phase_end-IsValid k s u v =
    let (s', e, p) = phase_end_lem k s u.some_candidate v.scored in
    (
      s',
      e,
      record {
        requests = rw p.same_rr v.requests;
        scored = ap length p.restarted ∙ length-replicate (length k.candidates) 0;
        candidate_in = rw p.candidate u.some_candidate;
        round_in = rw p.round u.some_round;
        buffer_bounded = rw p.same_buffer v.buffer_bounded;
        offsets = inr p.top;
      },
    )

end_phase-IsValid :
    (k : Knobs) (s : BoPrefetcher)
    → IsSetUp k
    → IsEvaluated k s
    → Returns (end_phase k s) (IsValid k)
unfolding end_phase check_end_of_phase
end_phase-IsValid k s u v = elim (Bool-cases (leb k.max_rounds s.round_counter)) [
  | inl y ↦
      rw (y, end_phase, check_end_of_phase)
        (phase_end-IsValid k _ u (record {
          requests = v.requests;
          scored = v.scored;
          candidate_in = v.candidate_in;
          buffer_bounded = v.buffer_bounded;
          offsets = v.offsets;
        }))
  | inr z ↦ elim (Bool-cases (leb k.max_score (last_max s.scores 0 0))) [
    | inl y ↦
        rw (z, y, end_phase, check_end_of_phase)
          (phase_end-IsValid k _ u (record {
            requests = v.requests;
            scored = v.scored;
            candidate_in = v.candidate_in;
            buffer_bounded = v.buffer_bounded;
            offsets = v.offsets;
          }))
    | inr w ↦
        rw (z, w, end_phase, check_end_of_phase)
          (
            s,
            refl,
            record {
              requests = v.requests;
              scored = v.scored;
              candidate_in = v.candidate_in;
              round_in = ground arith;
              buffer_bounded = v.buffer_bounded;
              offsets = v.offsets;
            },
          )
  ]
]

offset_prefetches-page :
    (page offset : ℕ) (offsets : List ℤ)
    → page < 2 ^ 52
    → (length (offset_prefetches page offset offsets) ≤ length offsets)
      × All (λ a. page_of a ≡ page) (offset_prefetches page offset offsets)
unfolding offset_prefetches
offset_prefetches-page page offset [] h = (omega arith, tt)
offset_prefetches-page page offset (o ∷ os) h =
    let f = signed32 ((offset + pattern32 o) % 2 ^ 32) in
    let rest = offset_prefetches-page page offset os h in
    elim (Bool-cases (not (ltb_ℤ f (pos 0)) && ltb_ℤ f (pos 64))) [
      | inl y ↦
          let small : pos_part f < 64 = ground arith in
          rw y (omega (arith, rest.0), (omega arith, rest.1))
      | inr z ↦ rw z (omega (arith, rest.0), rest.1)
    ]

length-drop-le : (n : ℕ) (xs : List ℕ) → length (drop n xs) ≤ length xs
length-drop-le zero xs = omega arith
length-drop-le (suc n) [] = omega arith
length-drop-le (suc n) (x ∷ xs) = omega (arith, length-drop-le n xs)

pub record Issued (k : Knobs) (address : ℕ) (r : BoPrefetcher × List ℕ) : Type 0 where
  pub valid : IsValid k r.0
  pub direct :
      k.enable_pref_buffer ≡ false
      → (length r.1 ≤ length r.0.best_offsets) × All (λ a. page_of a ≡ page_of address) r.1
  pub buffered : k.enable_pref_buffer ≡ true → length r.1 ≤ k.pref_degree

through_buffer-Issued :
    (b : Bool) (k : Knobs) (s : BoPrefetcher) (address : ℕ) (prefs : List ℕ)
    → k.enable_pref_buffer ≡ b
    → IsValid k s
    → (length prefs ≤ length s.best_offsets) × All (λ a. page_of a ≡ page_of address) prefs
    → Issued k address (count_issued (through_buffer b k s prefs))
unfolding through_buffer count_issued issue_prefetch buffer_prefetch
through_buffer-Issued true k s address prefs y v inside =
    let count = min (length prefs) (k.pref_buffer_size - length s.pref_buffer) in
    let put = s.pref_buffer ++ take count prefs in
    let fits : length put ≤ k.pref_buffer_size = omega (
      arith,
      length-append s.pref_buffer (take count prefs),
      length-take-le count prefs,
      v.buffer_bounded,
    ) in
    record {
      valid = record {
        requests = v.requests;
        scored = v.scored;
        candidate_in = v.candidate_in;
        round_in = v.round_in;
        buffer_bounded = omega (arith, length-drop-le k.pref_degree put, fits);
        offsets = v.offsets;
      };
      direct = λ n. absurd (cc (n, y));
      buffered = λ e. length-take-le k.pref_degree put;
    }
through_buffer-Issued false k s address prefs z v inside = record {
  valid = with_requests k s _ v v.requests refl refl refl refl refl;
  direct = λ e. inside;
  buffered = λ n. absurd (cc (n, z));
}

issue-Issued :
    (k : Knobs) (s : BoPrefetcher) (address : ℕ)
    → address < 2 ^ 64
    → IsValid k s
    → Issued k address (issue k s address)
unfolding issue
issue-Issued k s address word v =
    through_buffer-Issued k.enable_pref_buffer k s address _ refl v
      (offset_prefetches-page (page_of address) (offset_of address) s.best_offsets (omega arith))

-- When the knobs are set up, a call of the best-offset prefetcher for a 64-bit address returns
-- and keeps the invariant. Without the prefetch buffer its prefetches are lines of the accessed
-- page, at most one for a best offset; with the buffer they are at most `pref_degree`.
pub bop_lem :
    (k : Knobs) (s : BoPrefetcher) (address : ℕ)
    → IsSetUp k
    → address < 2 ^ 64
    → IsValid k s
    → Returns (invoke_prefetcher k s address) (Issued k address)
unfolding invoke_prefetcher
bop_lem k s address u word v =
    let (s', e, v') =
      end_phase-IsValid k (evaluate k s (block_of address)) u
        (evaluate-IsEvaluated k s (block_of address) u v) in
    (issue k s' address, rw (e, invoke_prefetcher) refl, issue-Issued k s' address word v')
