-- ===== src/PacketQueue/Find.antt =====
-- `check_queue` finds the oldest waiting packet of the same line, wherever the queue's two ends
-- stand in the array.
use mathlib.Core.Option
use arishem.Base.{
  ℕ, zero, suc, ◌+◌, ◌-◌, ◌≤◌, ◌<◌, ◌≡◌, refl, ap, ◌∙◌, sym, Bool, ◌&&◌, Option, none, some, List,
  [], ◌∷◌, arith, ltb, ◌==◌, if◌then◌else◌, length, inl, inr, Bool-cases, Option-cases,
}
use arishem.Packet.{Packet, packet_at, no_packet}
use arishem.PacketQueue.{PacketQueue, same_line, scan, or_else, check_queue}
use arishem.PacketQueue.Window.{wrap, window, length-window}
use arishem.PacketQueue.Refine.{IsValid, contents}

-- The position of the first element that passes a test.
unfoldable pub find_index {ℓ} : {A : Type ℓ} → (A → Bool) → List A → Option ℕ
find_index test [] = none
find_index test (x ∷ xs) = if test x then some 0 else Option.map suc (find_index test xs)

pub find_index-lt {ℓ} :
    {A : Type ℓ} (test : A → Bool) (xs : List A) (k : ℕ)
    → find_index test xs ≡ some k
    → k < length xs
unfolding find_index
find_index-lt test [] k h = absurd (cc)
find_index-lt test (x ∷ xs) k h = ground (arith, find_index-lt test xs (k - 1))

module _ (test : Packet → Bool) (entry : List Packet) (size : ℕ) where
  -- The first place that passes among `n` places of the circular array from `h` on.
  first_slot : ℕ → ℕ → Option ℕ
  first_slot h zero = none
  first_slot h (suc n) =
      if test (packet_at entry h) then some h else first_slot (wrap size (h + 1)) n

  scan-first_slot : (h n : ℕ) → h + n ≤ size → scan test entry h n ≡ first_slot h n
  unfolding scan first_slot
  scan-first_slot h zero e = refl
  scan-first_slot h (suc zero) e = refl
  scan-first_slot h (suc (suc n)) e =
      let w : wrap size (h + 1) ≡ h + 1 = ground arith in
      rw w (rw (scan-first_slot (h + 1) (suc n) (omega arith)))

  first_slot-append :
      (h a b : ℕ)
      → h + a ≡ size
      → 0 < a
      → first_slot h (a + b) ≡ or_else (scan test entry h a) (first_slot 0 b)
  unfolding scan first_slot
  first_slot-append h zero b e pos = absurd (omega arith)
  first_slot-append h (suc zero) b e pos =
      let n : 1 + b ≡ suc b = omega arith in
      let w : wrap size (h + 1) ≡ 0 = ground arith in
      elim (Bool-cases (test (packet_at entry h))) [
        | inl y ↦ rw n (rw y)
        | inr z ↦ rw n (rw (z, w))
      ]
  first_slot-append h (suc (suc a)) b e pos =
      let n : suc (suc a) + b ≡ suc (suc a + b) = omega arith in
      let w : wrap size (h + 1) ≡ h + 1 = ground arith in
      elim (Bool-cases (test (packet_at entry h))) [
        | inl y ↦ rw n (rw y)
        | inr z ↦ rw n (rw (z, w) (first_slot-append (h + 1) (suc a) b (omega arith) (omega arith)))
      ]

  bound : (h n k : ℕ) → find_index test (window no_packet size entry h n) ≡ some k → k < n
  bound h n k e = omega (
    arith,
    find_index-lt test (window no_packet size entry h n) k e,
    length-window no_packet size entry h n,
  )

  shift :
      (h n : ℕ) (o : Option ℕ)
      → h < size
      → suc n ≤ size
      → ((k : ℕ) → o ≡ some k → k < n)
      → Option.map (λ k. wrap size (wrap size (h + 1) + k)) o
        ≡ Option.map (λ k. wrap size (h + k)) (Option.map suc o)
  shift h n none hh nn lt = refl
  shift h n (some k) hh nn lt =
      let small : k < n = lt k refl in
      let e : wrap size (wrap size (h + 1) + k) ≡ wrap size (h + suc k) = ground arith in ap some e

  first_slot-window :
      (h n : ℕ)
      → h < size
      → n ≤ size
      → first_slot h n
        ≡ Option.map (λ k. wrap size (h + k)) (find_index test (window no_packet size entry h n))
  unfolding find_index first_slot
  first_slot-window h zero hh nn = refl
  first_slot-window h (suc n) hh nn = elim (Bool-cases (test (packet_at entry h))) [
    | inl y ↦ let w : wrap size (h + 0) ≡ h = ground arith in rw y (rw w)
    | inr z ↦
        let h' = wrap size (h + 1) in
        let ih = first_slot-window h' n (ground arith) (omega arith) in
        let found = find_index test (window no_packet size entry h' n) in
        rw z (ih ∙ shift h n found hh nn (λ k e. bound h' n k e))
  ]

-- `check_queue` on a valid queue returns the array index of the oldest waiting packet with the
-- same line as the given one, and nothing when no waiting packet has it.
pub check_queue-find_index :
    (q : PacketQueue) (p : Packet)
    → IsValid q
    → check_queue q p
      ≡ Option.map (λ k. wrap q.size (q.head + k)) (find_index (same_line q.name p) (contents q))
unfolding check_queue find_index
check_queue-find_index q p v =
    let test = same_line q.name p in
    let slots = first_slot-window test q.entry q.size q.head q.occupancy v.head_in v.within in
    elim (Bool-cases (q.head == q.tail && q.occupancy == 0)) [
      | inl idle ↦ let e : q.occupancy ≡ 0 = ground arith in rw (idle, e)
      | inr busy ↦ elim (Bool-cases (ltb q.head q.tail)) [
        | inl straight ↦
            let e : q.tail - q.head ≡ q.occupancy = ground arith in
            rw (busy, straight, e)
              (scan-first_slot test q.entry q.size q.head q.occupancy (ground arith) ∙ slots)
        | inr around ↦
            let e : q.occupancy ≡ (q.size - q.head) + q.tail = ground arith in
            let two =
              first_slot-append test q.entry q.size q.head (q.size - q.head) q.tail (omega arith)
                (omega arith) in
            rw (busy, around)
              (ap (or_else (scan test q.entry q.head (q.size - q.head)))
                  (scan-first_slot test q.entry q.size 0 q.tail (omega arith))
                ∙ sym two
                ∙ rw (← e) slots)
      ]
    ]

-- An index that `check_queue` returns is in the array, and the packet there has the same line.
pub check_queue-lt :
    (q : PacketQueue) (p : Packet) (i : ℕ) → IsValid q → check_queue q p ≡ some i → i < q.size
check_queue-lt q p i v h =
    let found = find_index (same_line q.name p) (contents q) in
    elim (Option-cases found) [
      | inl e ↦ absurd (cc (h, check_queue-find_index q p v, e))
      | inr (k, e) ↦
          let lt = find_index-lt (same_line q.name p) (contents q) k e in
          let len = length-window no_packet q.size q.entry q.head q.occupancy in
          let eq : some i ≡ some (wrap q.size (q.head + k)) =
            sym h
            ∙ check_queue-find_index q p v
            ∙ ap (Option.map (λ k. wrap q.size (q.head + k))) e in
          ground (arith, v.within, v.head_in)
    ]
