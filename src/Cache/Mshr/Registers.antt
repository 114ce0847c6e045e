-- ===== src/Cache/Mshr/Registers.antt =====
-- The miss-status registers as a set of lines: a new miss is stored whenever the occupancy is below
-- the number of registers, no line is stored twice, and the occupancy counts the lines.
use mathlib.Core.Path.{subst}
use arishem.Base.{
  ℕ, zero, suc, ◌+◌, ◌≤◌, ◌<◌, ◌^◌, ◌≡◌, ◌≢◌, refl, ap, ◌∙◌, sym, List, [], ◌∷◌, arith, ◌==◌,
  if◌then◌else◌, Bool, true, false, inl, inr, Bool-cases, none, some, Option-cases, length, set,
  length-set, get_or-set_self, get_or-set_ne, ==_refl,
}
use arishem.Packet.{Packet, packet_at, no_packet, inflight}
use arishem.PacketQueue.{scan}
use arishem.Cache.State.{Cache, Clock}
use arishem.Cache.Mshr.{has_address, check_mshr, add_mshr, registered, stored_miss}

-- The registers in use.
unfoldable pub count_used : List Packet → ℕ
count_used [] = 0
count_used (e ∷ es) = (if e.address == 0 then 0 else 1) + count_used es

pub record IsTracked (c : Cache) : Type 0 where
  pub places : length c.mshr.entry ≡ c.mshr_size
  pub same_size : c.mshr.size ≡ c.mshr_size
  pub small : c.mshr_size < 2 ^ 31
  pub counted : count_used c.mshr.entry ≡ c.mshr.occupancy
  pub unique :
      (i j : ℕ)
      → i < c.mshr_size
      → j < c.mshr_size
      → (packet_at c.mshr.entry i).address ≢ 0
      → (packet_at c.mshr.entry i).address ≡ (packet_at c.mshr.entry j).address
      → i ≡ j

count_used-le : (es : List Packet) → count_used es ≤ length es
unfolding count_used
count_used-le [] = omega arith
count_used-le (e ∷ es) = ground (arith, count_used-le es)

pub scan-some :
    (test : Packet → Bool) (es : List Packet) (i n k : ℕ)
    → scan test es i n ≡ some k
    → (i ≤ k) × (k < i + n) × (test (packet_at es k) ≡ true)
unfolding scan
scan-some test es i zero k h = absurd (cc)
scan-some test es i (suc n) k h = elim (Bool-cases (test (packet_at es i))) [
  | inl y ↦
      let e : i ≡ k = ground arith in
      (omega arith, omega arith, subst (λ j. test (packet_at es j) ≡ true) e y)
  | inr z ↦
      let t = scan-some test es (i + 1) n k (rw z at h) in
      (omega (arith, t.0), omega (arith, t.1), t.2)
]

scan-none :
    (test : Packet → Bool) (es : List Packet) (i n j : ℕ)
    → scan test es i n ≡ none
    → i ≤ j
    → j < i + n
    → test (packet_at es j) ≡ false
unfolding scan
scan-none test es i zero j h lo hi = absurd (omega arith)
scan-none test es i (suc n) j h lo hi = elim (Bool-cases (test (packet_at es i))) [
  | inl y ↦ absurd (cc (h, y))
  | inr z ↦ elim (Bool-cases (i == j)) [
    | inl e ↦ let e' : i ≡ j = ground arith in subst (λ k. test (packet_at es k) ≡ false) e' z
    | inr ne ↦ scan-none test es (i + 1) n j (rw z at h) (ground arith) (omega arith)
  ]
]

-- If every register is in use, the count is their number.
all_used :
    (es : List Packet)
    → ((j : ℕ) → j < length es → (packet_at es j).address ≢ 0)
    → count_used es ≡ length es
unfolding count_used
all_used [] h = refl
all_used (e ∷ es) h = ground (arith, h 0, all_used es (λ j lt. h (suc j) (omega arith)))

count_used-set :
    (es : List Packet) (i : ℕ) (e : Packet)
    → i < length es
    → (packet_at es i).address ≡ 0
    → e.address ≢ 0
    → count_used (set es i e) ≡ suc (count_used es)
unfolding count_used
count_used-set [] i e h z ne = absurd (omega arith)
count_used-set (x ∷ xs) zero e h z ne = ground arith
count_used-set (x ∷ xs) (suc i) e h z ne = ground (arith, count_used-set xs i e)

-- A register is free while the occupancy is below the number of registers.
free_register :
    (c : Cache)
    → IsTracked c
    → c.mshr.occupancy < c.mshr_size
    → (i : ℕ) × (scan (has_address 0) c.mshr.entry 0 c.mshr_size ≡ some i)
      × (i < c.mshr_size)
      × ((packet_at c.mshr.entry i).address ≡ 0)
free_register c t room = elim (Option-cases (scan (has_address 0) c.mshr.entry 0 c.mshr_size)) [
  | inr (i, e) ↦
      let s = scan-some (has_address 0) c.mshr.entry 0 c.mshr_size i e in
      (i, e, omega (arith, s.1), ground (arith, s.2))
  | inl e ↦
      let full = all_used c.mshr.entry (λ j lt.
        let z =
          scan-none (has_address 0) c.mshr.entry 0 c.mshr_size j e (omega arith)
            (omega (arith, t.places)) in
        ground arith) in
      absurd (omega (arith, t.counted, t.places))
]

scan-only :
    (test : Packet → Bool) (es : List Packet) (n i : ℕ)
    → i < n
    → test (packet_at es i) ≡ true
    → ((j : ℕ) → j < n → test (packet_at es j) ≡ true → j ≡ i)
    → scan test es 0 n ≡ some i
scan-only test es n i lt here only = elim (Option-cases (scan test es 0 n)) [
  | inr (k, e) ↦ let s = scan-some test es 0 n k e in e ∙ ap some (only k (omega (arith, s.1)) s.2)
  | inl e ↦ absurd (cc (scan-none test es 0 n i e (omega arith) (omega arith), here))
]

-- What a stored miss leaves.
pub record Stored (c : Cache) (p : Packet) (c' : Cache) : Type 0 where
  pub index : ℕ
  pub was_free : (packet_at c.mshr.entry index).address ≡ 0
  pub found : check_mshr c' p ≡ some index
  pub waiting : (packet_at c'.mshr.entry index).returned ≡ inflight
  pub others : (j : ℕ) → index ≢ j → packet_at c'.mshr.entry j ≡ packet_at c.mshr.entry j
  pub counts : c'.mshr.occupancy ≡ c.mshr.occupancy + 1
  pub tracked : IsTracked c'

module _ (clock : Clock) (c : Cache) (p : Packet) (t : IsTracked c) (ne : p.address ≢ 0)
    (absent : check_mshr c p ≡ none) (i : ℕ) (lt : i < c.mshr_size)
    (free : (packet_at c.mshr.entry i).address ≡ 0) where
  entry' : List Packet
  entry' = set c.mshr.entry i (registered clock p)

  self : packet_at entry' i ≡ registered clock p
  unfolding entry'
  self = get_or-set_self c.mshr.entry i (registered clock p) no_packet (omega (arith, t.places))

  self_address : (packet_at entry' i).address ≡ p.address
  unfolding registered
  self_address = ap (λ (x : Packet). x.address) self

  other : (j : ℕ) → i ≢ j → packet_at entry' j ≡ packet_at c.mshr.entry j
  unfolding entry'
  other j n = get_or-set_ne c.mshr.entry i j (registered clock p) no_packet n

  -- The line stands in no other register.
  alone : (j : ℕ) → j < c.mshr_size → (packet_at entry' j).address ≡ p.address → j ≡ i
  unfolding check_mshr
  alone j hj same = elim (Bool-cases (i == j)) [
    | inl y ↦ ground arith
    | inr n ↦
        let m =
          scan-none (has_address p.address) c.mshr.entry 0 c.mshr_size j absent (omega arith)
            (omega arith) in
        let o = ap (λ (x : Packet). x.address) (other j (ground arith)) in absurd (ground arith)
  ]

  unique_after :
      (a b : ℕ)
      → a < c.mshr_size
      → b < c.mshr_size
      → (packet_at entry' a).address ≢ 0
      → (packet_at entry' a).address ≡ (packet_at entry' b).address
      → a ≡ b
  unique_after a b ha hb used same = elim (Bool-cases (i == a)) [
    | inl y ↦
        let ia : i ≡ a = ground arith in
        let at_a = subst (λ k. (packet_at entry' k).address ≡ p.address) ia self_address in
        omega (arith, alone b hb (sym same ∙ at_a))
    | inr n ↦ elim (Bool-cases (i == b)) [
      | inl y ↦
          let ib : i ≡ b = ground arith in
          let at_b = subst (λ k. (packet_at entry' k).address ≡ p.address) ib self_address in
          omega (arith, alone a ha (same ∙ at_b))
      | inr n' ↦
          let oa = ap (λ (x : Packet). x.address) (other a (ground arith)) in
          let ob = ap (λ (x : Packet). x.address) (other b (ground arith)) in
          t.unique a b ha hb (λ z. used (oa ∙ z)) (sym oa ∙ same ∙ ob)
    ]
  ]

  stored_miss-Stored : c.mshr.occupancy < c.mshr_size → Stored c p (stored_miss clock c p i)
  unfolding stored_miss check_mshr entry' registered
  stored_miss-Stored room = record {
    index = i;
    was_free = free;
    found =
        scan-only (has_address p.address) entry' c.mshr_size i lt
          (rw self_address (==_refl p.address)) (λ j hj y. alone j hj (ground arith));
    waiting = ap (λ (x : Packet). x.returned) self;
    others = other;
    counts = omega (arith, t.small);
    tracked = record {
      places = length-set c.mshr.entry i (registered clock p) ∙ t.places;
      same_size = t.same_size;
      small = t.small;
      counted =
          count_used-set c.mshr.entry i (registered clock p) (omega (arith, t.places)) free ne
          ∙ omega (arith, t.counted, t.small);
      unique = unique_after;
    };
  }

-- A new miss of a line other than 0, with a register left, is stored in a free register, where
-- `check_mshr` then finds it in flight; the other registers are as before, and the registers stay
-- a set of lines that the occupancy counts.
pub add_mshr_lem :
    (clock : Clock) (c : Cache) (p : Packet)
    → IsTracked c
    → p.address ≢ 0
    → check_mshr c p ≡ none
    → c.mshr.occupancy < c.mshr_size
    → Stored c p (add_mshr clock c p).0
unfolding add_mshr
add_mshr_lem clock c p t ne absent room =
    let (i, e, lt, z) = free_register c t room in
    rw (add_mshr, e) (stored_miss-Stored clock c p t ne absent i lt z room)
