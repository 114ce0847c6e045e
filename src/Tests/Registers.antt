-- ===== src/Tests/Registers.antt =====
-- Runs of the miss-status registers of src/cache.cc.
use arishem.Base.{
  ℕ, zero, suc, ◌<◌, ◌≡◌, ◌≢◌, ◌⊎◌, refl, arith, Returns, none, some, abort, [], ◌∷◌, uint64_max,
}
use arishem.Packet.{packet_at, completed, inflight}
use arishem.PacketQueue.{new_queue, scan}
use arishem.Cache.State.{Cache}
use arishem.Cache.Mshr.{check_mshr, add_mshr, update_fill_cycle, return_data}
use arishem.Cache.Mshr.Earliest.{IsEarliest, update_fill_cycle_lem}
use arishem.Cache.Mshr.Registers.{IsTracked, count_used, Stored, add_mshr_lem}
use arishem.Cache.Mshr.Returns.{ReturnedTo, return_data_lem}
use arishem.Tests.Data.{uninit, load_of, clock, l2c}

-- Line 3 waits in the first register, the second is free.
abbrev one_miss : Cache
one_miss = record l2c {
  mshr = record (new_queue uninit "L2C_MSHR" 2) {
    entry = record (load_of 3) { returned = inflight } ∷ load_of 0 ∷ [];
    occupancy = 1;
  };
}

one_line :
    (i j : ℕ)
    → i < 2
    → j < 2
    → (packet_at one_miss.mshr.entry i).address ≢ 0
    → (packet_at one_miss.mshr.entry i).address ≡ (packet_at one_miss.mshr.entry j).address
    → i ≡ j
one_line zero zero hi hj used same = refl
one_line zero (suc zero) hi hj used same = absurd (omega (arith, same))
one_line (suc zero) j hi hj used same = absurd (used refl)
one_line (suc (suc i)) j hi hj used same = absurd (omega arith)
one_line zero (suc (suc j)) hi hj used same = absurd (omega arith)

one_miss-IsTracked : IsTracked one_miss
unfolding new_queue count_used
one_miss-IsTracked = record {
  places = refl;
  same_size = refl;
  small = omega arith;
  counted = refl;
  unique = one_line;
}

add_mshr_lem_example : Stored one_miss (load_of 4) (add_mshr clock one_miss (load_of 4)).0
unfolding check_mshr scan
add_mshr_lem_example =
    add_mshr_lem clock one_miss (load_of 4) one_miss-IsTracked (λ e. absurd (omega arith)) refl
      (omega arith)

return_data_lem_example :
    ((check_mshr one_miss (load_of 3) ≡ none) × (return_data clock one_miss (load_of 3) ≡ abort))
    ⊎ ((i : ℕ) × (check_mshr one_miss (load_of 3) ≡ some i)
        × Returns (return_data clock one_miss (load_of 3)) (ReturnedTo one_miss (load_of 3) i))
return_data_lem_example = return_data_lem clock one_miss (load_of 3) one_miss-IsTracked

abbrev filling : Cache
filling = record l2c {
  mshr = record (new_queue uninit "L2C_MSHR" 2) {
    entry = record (load_of 3) { returned = completed } ∷ load_of 0 ∷ [];
  };
}

update_fill_cycle_lem_example :
    let c' = update_fill_cycle filling in
    IsEarliest c'.mshr.entry c'.mshr.size uint64_max c'.mshr.size c'.mshr.next_fill_cycle
      c'.mshr.next_fill_index
    × (c'.mshr.entry ≡ filling.mshr.entry)
update_fill_cycle_lem_example = update_fill_cycle_lem filling
