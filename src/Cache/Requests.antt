-- ===== src/Cache/Requests.antt =====
-- What the requests of src/cache.cc share: the reply of a call, the latency of a queue, and the
-- answer that a waiting writeback gives. A packet comes by pointer, so it is returned as the call
-- leaves it.
pub mod Latency
use arishem.Base.{
  ℕ, ◌+◌, ◌-◌, ◌%◌, ◌/◌, ◌^◌, Bool, true, false, ◌&&◌, ◌||◌, not, List, [], ◌∷◌, Run, ok, abort,
  ◌>>=◌, ltb, leb, ◌==◌, Option, none, some, if◌then◌else◌, inc64, add64, block_of, page_of, set,
}
use arishem.Base.Int.{ℤ, pos, negsuc, ltb_ℤ, pos_part}
use arishem.FastSet
use arishem.Packet.{Packet, Uninit, new_packet, packet_at, rfo, prefetch}
use arishem.PacketQueue.{PacketQueue, check_queue, append_entry, add_queue}
use arishem.Cache.State.{Cache, Clock, Upcall, upcall, bump, is_itlb, is_dtlb, is_l1i, is_l1d}

-- What a call leaves: the cache, the packet, the returned number, and the calls made above.
pub record Reply : Type 0 where
  pub cache : Cache
  pub packet : Packet
  pub result : ℤ
  pub calls : List Upcall

-- The latency that an entry gets on its way into a queue.
unfoldable pub delayed : Clock → ℕ → Packet → Packet
delayed clock latency packet = record packet {
  event_cycle =
      if ltb packet.event_cycle (clock packet.cpu)
      then add64 (clock packet.cpu) latency
      else add64 packet.event_cycle latency;
}

-- A request that a waiting writeback answers: the data of the writeback goes up if the request
-- is to fill a level above.
unfoldable pub forwarded_packet : Cache → Packet → ℕ → Packet
forwarded_packet c packet wq_index =
    if ltb_ℤ packet.fill_level c.fill_level
    then record packet { data_value = (packet_at c.wq.entry wq_index).data_value }
    else packet

unfoldable pub forwarded_calls : Cache → Packet → ℕ → List Upcall
forwarded_calls c packet wq_index =
    if ltb_ℤ packet.fill_level c.fill_level
    then upcall (forwarded_packet c packet wq_index) ∷ []
    else []
