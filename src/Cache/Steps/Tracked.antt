-- ===== src/Cache/Steps/Tracked.antt =====
-- The steps that keep the miss-status registers a set of lines, and lose none of them.
use mathlib.Core.Path.{subst}
use arishem.Base.{
  ℕ, ◌<◌, ◌≡◌, ◌≢◌, ap, ◌∙◌, sym, Run, ok, abort, none, some, arith, ◌==◌, inl, inr, Bool-cases,
  length, length-set,
}
use arishem.Packet.{Packet, packet_at}
use arishem.PacketQueue.Tidy.{field-set}
use arishem.Cache.State.{Cache, Clock}
use arishem.Cache.Mshr.{
  has_address, check_mshr, add_mshr, stored_miss, return_data, noted_return, update_fill_cycle,
}
use arishem.Cache.Mshr.Registers.{IsTracked, Stored, add_mshr_lem, scan-some}
use arishem.Cache.Mshr.Returns.{ReturnedTo, return_data_lem, count_used-set_same}
use arishem.Cache.World.Keeps.{IsPreorder, Ends}
use arishem.Cache.Steps.{misses, queue_of, with_queue, entry_of, with_entry}

-- A register holds the line.
unfoldable pub HasRegister : Cache → ℕ → Type 0
HasRegister c a = (j : ℕ) × (j < c.mshr_size) × ((packet_at c.mshr.entry j).address ≡ a)

-- The lines that have a register keep one.
unfoldable pub Covers : Cache → Cache → Type 0
Covers c c' = (a : ℕ) → a ≢ 0 → HasRegister c a → HasRegister c' a

unfoldable pub Tracks : Cache → Cache → Type 0
Tracks c c' = IsTracked c → IsTracked c' × Covers c c'

pub Tracks-IsPreorder : IsPreorder Tracks
unfolding Tracks Covers
Tracks-IsPreorder = record {
  same = λ c t. (t, λ a ne h. h);
  after = λ c c' c'' h k t.
      let first = h t in
      let second = k first.0 in (second.0, λ a ne r. second.1 a ne (first.1 a ne r));
}

-- A step that leaves the registers alone.
pub Tracks-same : (c c' : Cache) → c'.mshr ≡ c.mshr → c'.mshr_size ≡ c.mshr_size → Tracks c c'
unfolding Tracks Covers HasRegister
Tracks-same c c' m s t = (
  record {
    places = rw (m, s) t.places;
    same_size = rw (m, s) t.same_size;
    small = rw s t.small;
    counted = rw m t.counted;
    unique = rw (m, s) t.unique;
  },
  rw (m, s) (λ a ne h. h),
)

-- A register that is written with the same line.
pub with_entry-Tracks :
    (c : Cache) (k : ℕ) (p : Packet)
    → k < c.mshr_size
    → p.address ≡ (entry_of misses k c).address
    → Tracks c (with_entry misses k p c)
unfolding Tracks Covers HasRegister with_entry with_queue queue_of entry_of
with_entry-Tracks c k p lt same t =
    let inside : k < length c.mshr.entry = omega (arith, lt, t.places) in
    let f = λ (j : ℕ). field-set (λ x. x.address) c.mshr.entry k j p inside same in
    (
      record {
        places = length-set c.mshr.entry k p ∙ t.places;
        same_size = t.same_size;
        small = t.small;
        counted = count_used-set_same c.mshr.entry k p inside same ∙ t.counted;
        unique =
            λ a b ha hb used eq. t.unique a b ha hb (λ z. used (f a ∙ z)) (sym (f a) ∙ eq ∙ f b);
      },
      λ a ne (j, lt', e). (j, lt', f j ∙ e),
    )

-- The register that `check_mshr` finds holds the line of the packet.
pub check_mshr-found :
    (c : Cache) (p : Packet) (k : ℕ)
    → check_mshr c p ≡ some k
    → (k < c.mshr_size) × ((packet_at c.mshr.entry k).address ≡ p.address)
unfolding check_mshr
check_mshr-found c p k e =
    let s = scan-some (has_address p.address) c.mshr.entry 0 c.mshr_size k e in
    (omega (arith, s.1), ground (arith, s.2))

Covers-ReturnedTo :
    (c : Cache) (p : Packet) (k : ℕ) (c' : Cache)
    → check_mshr c p ≡ some k
    → ReturnedTo c p k c'
    → c'.mshr_size ≡ c.mshr_size
    → Covers c c'
unfolding Covers HasRegister
Covers-ReturnedTo c p k c' e r s a ne (j, lt, h) = elim (Bool-cases (k == j)) [
  | inl y ↦
      let kj : k ≡ j = ground arith in
      let old =
        subst (λ m. (packet_at c.mshr.entry m).address ≡ p.address) kj
          (check_mshr-found c p k e).1 in
      let new = subst (λ m. (packet_at c'.mshr.entry m).address ≡ p.address) kj r.same_line in
      (j, omega (arith, s, lt), new ∙ sym old ∙ h)
  | inr z ↦
      (j, omega (arith, s, lt), ap (λ (x : Packet). x.address) (r.others j (ground arith)) ∙ h)
]

return_data-size :
    (clock : Clock) (c : Cache) (p : Packet)
    → Ends (λ (r : Cache). r.mshr_size ≡ c.mshr_size) (return_data clock c p)
unfolding return_data noted_return update_fill_cycle
return_data-size clock c p = ground arith

Ends-weaken :
    (P : Cache → Type 0) (H : Type 0) (run : Run Cache)
    → (H → Ends P run)
    → Ends (λ c'. H → P c') run
Ends-weaken P H abort h = tt
Ends-weaken P H (ok x) h = h

pub return_data-Tracks :
    (clock : Clock) (c : Cache) (p : Packet)
    → Ends (λ (r : Cache). Tracks c r) (return_data clock c p)
unfolding Tracks
return_data-Tracks clock c p =
    Ends-weaken (λ r. IsTracked r × Covers c r) (IsTracked c) (return_data clock c p)
      λ t. elim (return_data_lem clock c p t) [
        | inl (e, stopped) ↦ rw stopped tt
        | inr (k, e, (c', ends, r)) ↦
            let s = rw ends at (return_data-size clock c p) in
            rw ends (r.tracked, Covers-ReturnedTo c p k c' e r s)
      ]

-- What a new miss does: its line has a register.
unfoldable pub Notes : Packet → Cache → Cache → Type 0
Notes p c c' =
    p.address ≢ 0
    → check_mshr c p ≡ none
    → c.mshr.occupancy < c.mshr_size
    → IsTracked c
    → IsTracked c' × Covers c c' × HasRegister c' p.address

Covers-Stored :
    (c : Cache) (p : Packet) (c' : Cache) → Stored c p c' → c'.mshr_size ≡ c.mshr_size → Covers c c'
unfolding Covers HasRegister
Covers-Stored c p c' s size a ne (j, lt, h) = elim (Bool-cases (s.index == j)) [
  | inl y ↦
      let ij : s.index ≡ j = ground arith in
      absurd (ne (sym h ∙ subst (λ m. (packet_at c.mshr.entry m).address ≡ 0) ij s.was_free))
  | inr z ↦
      (j, omega (arith, size, lt), ap (λ (x : Packet). x.address) (s.others j (ground arith)) ∙ h)
]

add_mshr-size :
    (clock : Clock) (c : Cache) (p : Packet) → (add_mshr clock c p).0.mshr_size ≡ c.mshr_size
unfolding add_mshr stored_miss
add_mshr-size clock c p = ground arith

pub add_mshr-Notes : (clock : Clock) (c : Cache) (p : Packet) → Notes p c (add_mshr clock c p).0
unfolding Notes HasRegister
add_mshr-Notes clock c p ne absent room t =
    let s = add_mshr_lem clock c p t ne absent room in
    let at_index = check_mshr-found (add_mshr clock c p).0 p s.index s.found in
    (
      s.tracked,
      Covers-Stored c p (add_mshr clock c p).0 s (add_mshr-size clock c p),
      (s.index, at_index.0, at_index.1),
    )
