-- ===== src/Cache/Mshr.antt =====
-- The miss-status registers of src/cache.cc: `check_mshr`, `add_mshr`, `update_fill_cycle` and
-- `return_data`. The registers are an array of packets; address 0 marks a free one.
pub mod Earliest
pub mod Registers
pub mod Returns
use arishem.Base.{
  ℕ, zero, suc, ◌+◌, Bool, ◌&&◌, Run, ok, abort, ltb, ◌==◌, Option, none, some, if◌then◌else◌, List,
  set, inc32, uint64_max, add64,
}
use arishem.Packet.{Packet, packet_at, inflight, completed}
use arishem.PacketQueue.{PacketQueue, scan}
use arishem.Cache.State.{Cache, Clock}

abbrev pub has_address : ℕ → Packet → Bool
has_address a e = e.address == a

-- The result -1 is `none`.
unfoldable pub check_mshr : Cache → Packet → Option ℕ
check_mshr c packet = scan (has_address packet.address) c.mshr.entry 0 c.mshr_size

-- The packet as its register holds it while it is in flight.
unfoldable pub registered : Clock → Packet → Packet
registered clock packet = record packet { cycle_enqueued = clock packet.cpu; returned = inflight }

unfoldable pub stored_miss : Clock → Cache → Packet → ℕ → Cache
stored_miss clock c packet index = record c {
  mshr = record (c.mshr) {
    entry = set c.mshr.entry index (registered clock packet);
    occupancy = inc32 c.mshr.occupancy;
  };
}

-- The caller's packet is stamped with the cycle; it is returned beside the cache. With no free
-- register nothing is stored.
unfoldable pub add_mshr : Clock → Cache → Packet → Cache × Packet
add_mshr clock c packet =
    let stamped = record packet { cycle_enqueued = clock packet.cpu } in
    elim (scan (has_address 0) c.mshr.entry 0 c.mshr_size) [
      | some index ↦ (stored_miss clock c packet index, stamped)
      | none ↦ (c, stamped)
    ]

abbrev pub is_completed : Packet → Bool
is_completed e = e.returned == completed

-- The loop of `update_fill_cycle` over the `left` registers from `i` on: the least cycle so far
-- and its index.
unfoldable pub earliest : List Packet → ℕ → ℕ → ℕ → ℕ → ℕ × ℕ
earliest entry i zero min_cycle min_index = (min_cycle, min_index)
earliest entry i (suc left) min_cycle min_index =
    let e = packet_at entry i in
    let sooner = is_completed e && ltb e.event_cycle min_cycle in
    earliest entry (i + 1) left (if sooner then e.event_cycle else min_cycle)
      (if sooner then i else min_index)

unfoldable pub update_fill_cycle : Cache → Cache
update_fill_cycle c =
    let (min_cycle, min_index) = earliest c.mshr.entry 0 c.mshr.size uint64_max c.mshr.size in
    record c { mshr = record (c.mshr) { next_fill_cycle = min_cycle; next_fill_index = min_index } }

-- The register of a returned request. Its own core's clock is that of the returning packet.
unfoldable pub returned_entry : Clock → Cache → Packet → Packet → Packet
returned_entry clock c packet e = record e {
  returned = completed;
  data_value = packet.data_value;
  pf_metadata = packet.pf_metadata;
  event_cycle =
      if ltb e.event_cycle (clock packet.cpu)
      then add64 (clock packet.cpu) c.latency
      else add64 e.event_cycle c.latency;
}

-- The state of `return_data` before it looks for the next fill.
unfoldable pub noted_return : Clock → Cache → Packet → ℕ → Cache
noted_return clock c packet mshr_index = record c {
  mshr = record (c.mshr) {
    num_returned = inc32 c.mshr.num_returned;
    entry =
        set c.mshr.entry mshr_index
          (returned_entry clock c packet (packet_at c.mshr.entry mshr_index));
  };
}

-- `return_data` aborts when no register waits for the packet's line.
unfoldable pub return_data : Clock → Cache → Packet → Run Cache
return_data clock c packet = elim (check_mshr c packet) [
  | none ↦ abort
  | some mshr_index ↦ ok (update_fill_cycle (noted_return clock c packet mshr_index))
]
