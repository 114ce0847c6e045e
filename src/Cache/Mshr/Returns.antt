-- ===== src/Cache/Mshr/Returns.antt =====
-- `return_data` completes the register that waits for the line, and keeps the registers a set of
-- lines.
use arishem.Base.{
  ℕ, zero, suc, ◌≤◌, ◌<◌, ◌≡◌, ◌≢◌, refl, ap, ◌∙◌, sym, List, [], ◌∷◌, arith, ltb, inl, inr, ◌⊎◌,
  Bool-cases, none, some, Option-cases, length, set, length-set, get_or-set_self, get_or-set_ne,
  inc32, abort, Returns, add64, uint64_max,
}
use arishem.Packet.{Packet, packet_at, no_packet, completed}
use arishem.PacketQueue.Tidy.{field-set}
use arishem.Cache.State.{Cache, Clock}
use arishem.Cache.Mshr.{
  has_address, check_mshr, update_fill_cycle, returned_entry, noted_return, return_data,
  is_completed,
}
use arishem.Cache.Mshr.Earliest.{update_fill_cycle_lem}
use arishem.Cache.Mshr.Registers.{IsTracked, count_used, scan-some}

pub count_used-set_same :
    (es : List Packet) (i : ℕ) (e : Packet)
    → i < length es
    → e.address ≡ (packet_at es i).address
    → count_used (set es i e) ≡ count_used es
unfolding count_used
count_used-set_same [] i e h same = refl
count_used-set_same (x ∷ xs) zero e h same = rw same refl
count_used-set_same (x ∷ xs) (suc i) e h same =
    omega (arith, count_used-set_same xs i e (omega arith) same)

add64-le : (a b : ℕ) → add64 a b ≤ uint64_max
add64-le a b = omega arith

-- What `return_data` leaves when the register `index` waited for the line.
pub record ReturnedTo (c : Cache) (p : Packet) (index : ℕ) (c' : Cache) : Type 0 where
  pub completes : (packet_at c'.mshr.entry index).returned ≡ completed
  pub brings : (packet_at c'.mshr.entry index).data_value ≡ p.data_value
  pub same_line : (packet_at c'.mshr.entry index).address ≡ p.address
  pub others : (j : ℕ) → index ≢ j → packet_at c'.mshr.entry j ≡ packet_at c.mshr.entry j
  pub counts : c'.mshr.num_returned ≡ inc32 c.mshr.num_returned
  pub not_later : c'.mshr.next_fill_cycle ≤ (packet_at c'.mshr.entry index).event_cycle
  pub tracked : IsTracked c'

module _ (clock : Clock) (c : Cache) (p : Packet) (i : ℕ) (t : IsTracked c)
    (lt : i < c.mshr_size) where
  old : Packet
  old = packet_at c.mshr.entry i

  new : Packet
  new = returned_entry clock c p old

  inside : i < length c.mshr.entry
  inside = omega (arith, t.places)

  entry' : List Packet
  entry' = set c.mshr.entry i new

  same_address : (j : ℕ) → (packet_at entry' j).address ≡ (packet_at c.mshr.entry j).address
  unfolding entry' new old returned_entry
  same_address j = field-set (λ x. x.address) c.mshr.entry i j new inside refl

  noted_return-IsTracked : IsTracked (noted_return clock c p i)
  unfolding noted_return entry' new old returned_entry
  noted_return-IsTracked = record {
    places = length-set c.mshr.entry i new ∙ t.places;
    same_size = t.same_size;
    small = t.small;
    counted = count_used-set_same c.mshr.entry i new inside refl ∙ t.counted;
    unique = λ a b ha hb used same.
        t.unique a b ha hb (λ z. used (same_address a ∙ z))
          (sym (same_address a) ∙ same ∙ same_address b);
  }

  self : packet_at entry' i ≡ new
  unfolding entry'
  self = get_or-set_self c.mshr.entry i new no_packet inside

  new-event_cycle : new.event_cycle ≤ uint64_max
  unfolding new old returned_entry
  new-event_cycle =
      let a = add64-le (clock p.cpu) c.latency in
      let b = add64-le (packet_at c.mshr.entry i).event_cycle c.latency in
      elim (Bool-cases (ltb (packet_at c.mshr.entry i).event_cycle (clock p.cpu))) [
        | inl y ↦ rw y a
        | inr z ↦ rw z b
      ]

  not_later :
      (update_fill_cycle (noted_return clock c p i)).mshr.next_fill_cycle
      ≤ (packet_at entry' i).event_cycle
  unfolding noted_return entry' new old update_fill_cycle returned_entry
  not_later =
      let v = (update_fill_cycle_lem (noted_return clock c p i)).0 in
      let bound : (packet_at entry' i).event_cycle ≤ uint64_max =
        rw (ap (λ (x : Packet). x.event_cycle) self) new-event_cycle in
      elim (Bool-cases (ltb (packet_at entry' i).event_cycle uint64_max)) [
        | inl y ↦ v.least i (omega (arith, t.same_size)) (ap is_completed self) (ground arith)
        | inr z ↦ ground (arith, v.at_most)
      ]

  returned :
      (packet_at c.mshr.entry i).address ≡ p.address
      → ReturnedTo c p i (update_fill_cycle (noted_return clock c p i))
  unfolding noted_return entry' new old update_fill_cycle returned_entry
  returned same =
      let d = noted_return-IsTracked in
      record {
        completes = ap (λ (x : Packet). x.returned) self;
        brings = ap (λ (x : Packet). x.data_value) self;
        same_line = same_address i ∙ same;
        others = λ j ne. get_or-set_ne c.mshr.entry i j new no_packet ne;
        counts = refl;
        not_later = not_later;
        tracked = record {
          places = d.places;
          same_size = d.same_size;
          small = d.small;
          counted = d.counted;
          unique = d.unique;
        };
      }

-- When the registers are a set of lines, `return_data` for a line that a register waits for
-- returns: that register is completed with the data of the packet, the others are as before, the
-- return is counted, the next fill is due no later than it, and the registers stay a set of
-- lines. For any other line it stops at the assertion.
pub return_data_lem :
    (clock : Clock) (c : Cache) (p : Packet)
    → IsTracked c
    → ((check_mshr c p ≡ none) × (return_data clock c p ≡ abort))
      ⊎ ((i : ℕ) × (check_mshr c p ≡ some i) × Returns (return_data clock c p) (ReturnedTo c p i))
unfolding return_data check_mshr
return_data_lem clock c p t = elim (Option-cases (check_mshr c p)) [
  | inl e ↦ inl (e, rw (e, return_data))
  | inr (i, e) ↦
      let s = scan-some (has_address p.address) c.mshr.entry 0 c.mshr_size i e in
      inr (
        i,
        e,
        (
          update_fill_cycle (noted_return clock c p i),
          rw (e, return_data),
          returned clock c p i t (omega (arith, s.1)) (ground (arith, s.2)),
        ),
      )
]
