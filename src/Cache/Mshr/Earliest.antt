-- ===== src/Cache/Mshr/Earliest.antt =====
-- `update_fill_cycle` finds the completed register that is ready first.
use arishem.Base.{
  ℕ, zero, suc, ◌+◌, ◌≤◌, ◌<◌, ◌≡◌, refl, sym, List, arith, ltb, ◌==◌, if◌then◌else◌, true, ◌&&◌,
  inl, inr, ◌⊎◌, Bool-cases, uint64_max,
}
use mathlib.Core.Path.{subst}
use arishem.Packet.{Packet, packet_at}
use arishem.Cache.State.{Cache}
use arishem.Cache.Mshr.{is_completed, earliest, update_fill_cycle}

-- No completed register before `i` is ready before `cycle`; `index` is `none_index`, with the
-- cycle `bound`, or a register before `i` that is completed and ready at `cycle`.
pub record IsEarliest (entry : List Packet) (i bound none_index cycle index : ℕ) : Type 0 where
  pub least :
      (j : ℕ)
      → j < i
      → is_completed (packet_at entry j) ≡ true
      → (packet_at entry j).event_cycle < bound
      → cycle ≤ (packet_at entry j).event_cycle
  pub attained :
      ((index ≡ none_index) × (cycle ≡ bound))
      ⊎ ((index < i)
          × (is_completed (packet_at entry index) ≡ true)
          × ((packet_at entry index).event_cycle ≡ cycle)
          × (cycle < bound))
  pub at_most : cycle ≤ bound

IsEarliest-step :
    (entry : List Packet) (i bound none_index cycle index : ℕ)
    → IsEarliest entry i bound none_index cycle index
    → let e = packet_at entry i in
      let sooner = is_completed e && ltb e.event_cycle cycle in
      IsEarliest entry
        (i + 1)
        bound
        none_index
        (if sooner then e.event_cycle else cycle)
        (if sooner then i else index)
IsEarliest-step entry i bound none_index cycle index v =
    let e = packet_at entry i in
    elim (Bool-cases (is_completed e && ltb e.event_cycle cycle)) [
      | inl y ↦ rw y (record {
        least = λ j hj done small. elim (Bool-cases (i == j)) [
          | inl same ↦
              let ij : i ≡ j = ground arith in
              subst (λ k. e.event_cycle ≤ (packet_at entry k).event_cycle) ij (omega arith)
          | inr before ↦ let old = v.least j (ground arith) done small in ground arith
        ];
        attained = inr (omega arith, ground arith, refl, ground (arith, v.at_most));
        at_most = ground (arith, v.at_most);
      })
      | inr z ↦ rw z (record {
        least = λ j hj done small. elim (Bool-cases (i == j)) [
          | inl same ↦
              let ij : i ≡ j = ground arith in
              let done' = subst (λ k. is_completed (packet_at entry k) ≡ true) (sym ij) done in
              subst (λ k. cycle ≤ (packet_at entry k).event_cycle) ij (ground arith)
          | inr before ↦ v.least j (ground arith) done small
        ];
        attained = later i v.attained;
        at_most = v.at_most;
      })
    ]
  where
    later :
        (i : ℕ)
        → ((index ≡ none_index) × (cycle ≡ bound))
          ⊎ ((index < i)
              × (is_completed (packet_at entry index) ≡ true)
              × ((packet_at entry index).event_cycle ≡ cycle)
              × (cycle < bound))
        → ((index ≡ none_index) × (cycle ≡ bound))
          ⊎ ((index < i + 1)
              × (is_completed (packet_at entry index) ≡ true)
              × ((packet_at entry index).event_cycle ≡ cycle)
              × (cycle < bound))
    later i (inl h) = inl h
    later i (inr (a, b, c, d)) = inr (omega arith, b, c, d)

earliest-IsEarliest :
    (entry : List Packet) (i left bound none_index cycle index : ℕ)
    → IsEarliest entry i bound none_index cycle index
    → let (cycle', index') = earliest entry i left cycle index in
      IsEarliest entry (i + left) bound none_index cycle' index'
unfolding earliest
earliest-IsEarliest entry i zero bound none_index cycle index v =
    let z : i + 0 ≡ i = omega arith in rw z v
earliest-IsEarliest entry i (suc left) bound none_index cycle index v =
    let e = packet_at entry i in
    let sooner = is_completed e && ltb e.event_cycle cycle in
    let next : i + suc left ≡ i + 1 + left = omega arith in
    rw next (
      earliest-IsEarliest entry (i + 1) left bound none_index
        (if sooner then e.event_cycle else cycle) (if sooner then i else index)
        (IsEarliest-step entry i bound none_index cycle index v))

-- After `update_fill_cycle` the register that is to be filled next is a completed one with the
-- least ready cycle, or none (the index SIZE and the last cycle) when no completed register has a
-- cycle below the last. It changes no register.
pub update_fill_cycle_lem :
    (c : Cache)
    → let c' = update_fill_cycle c in
      IsEarliest c'.mshr.entry c'.mshr.size uint64_max c'.mshr.size c'.mshr.next_fill_cycle
        c'.mshr.next_fill_index
      × (c'.mshr.entry ≡ c.mshr.entry)
unfolding update_fill_cycle
update_fill_cycle_lem c =
    let start : IsEarliest c.mshr.entry 0 uint64_max c.mshr.size uint64_max c.mshr.size = record {
      least = λ j h done small. absurd (omega arith);
      attained = inl (refl, refl);
      at_most = omega arith;
    } in
    let z : 0 + c.mshr.size ≡ c.mshr.size = omega arith in
    let t =
      earliest-IsEarliest c.mshr.entry 0 c.mshr.size uint64_max c.mshr.size uint64_max c.mshr.size
        start in
    (rw z at t, refl)
