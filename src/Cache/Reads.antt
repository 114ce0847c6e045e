-- ===== src/Cache/Reads.antt =====
-- `add_rq` of src/cache.cc: a read request is answered by a waiting writeback, merged into a
-- waiting read of the same line, refused by a full queue, or appended.
pub mod Append
use arishem.Base.{
  ℕ, ◌+◌, ◌-◌, ◌%◌, ◌/◌, ◌^◌, Bool, true, false, ◌&&◌, ◌||◌, not, List, [], ◌∷◌, Run, ok, abort,
  ◌>>=◌, ltb, leb, ◌==◌, Option, none, some, if◌then◌else◌, inc64, add64, block_of, page_of, set,
}
use arishem.Base.Int.{ℤ, pos, negsuc, ltb_ℤ, pos_part}
use arishem.FastSet
use arishem.Packet.{Packet, Uninit, new_packet, packet_at, rfo, prefetch}
use arishem.PacketQueue.{PacketQueue, check_queue, append_entry, add_queue}
use arishem.Cache.Requests.{Reply, delayed, forwarded_packet, forwarded_calls}
use arishem.Cache.State.{Cache, Clock, Upcall, upcall, bump, is_itlb, is_dtlb, is_l1i, is_l1d}

-- `if (PROCESSED.occupancy < PROCESSED.SIZE) PROCESSED.add_queue(packet);` of a data read in L1D
unfoldable pub note_processed : Cache → Packet → Run PacketQueue
note_processed c packet =
    if c.cache_type == is_l1d
      && not (packet.type == prefetch)
      && ltb c.processed.occupancy c.processed.size
    then add_queue c.processed packet
    else ok c.processed

unfoldable pub forwarded_read : Cache → Packet → ℕ → PacketQueue → Reply
forwarded_read c packet wq_index processed' = record {
  cache = record c {
    processed = processed';
    hit = bump c.hit packet.type;
    access = bump c.access packet.type;
    wq = record (c.wq) { forward = inc64 c.wq.forward };
    rq = record (c.rq) { access = inc64 c.rq.access };
  };
  packet = forwarded_packet c packet wq_index;
  result = negsuc 0;
  calls = forwarded_calls c packet wq_index;
}

-- `add_rq` when the write queue holds the line; the instruction cache and the TLBs take no writes.
unfoldable pub add_rq_forwarded : Cache → Packet → ℕ → Run Reply
add_rq_forwarded c packet wq_index =
    if c.cache_type == is_itlb || c.cache_type == is_dtlb || c.cache_type == is_l1i
    then abort
    else note_processed c (forwarded_packet c packet wq_index) >>= λ processed'.
        ok (forwarded_read c packet wq_index processed')

-- An `int` as an `unsigned short`: its low 16 bits.
abbrev pub rob_number : ℤ → ℕ
rob_number (pos n) = n % 2 ^ 16
rob_number (negsuc n) = 2 ^ 16 - 1 - n % 2 ^ 16

-- The waiting read that a read of the same line is merged into. Only the low 16 bits of an index
-- go into the set, as `fastset` holds `unsigned short`s.
unfoldable pub merged_read : Packet → Packet → Packet
merged_read entry packet =
    if not (packet.instruction == 0)
    then record entry {
      rob_index_depend_on_me =
          FastSet.insert entry.rob_index_depend_on_me (rob_number packet.rob_index);
      instr_merged = 1;
    }
    else if packet.type == rfo
    then record entry {
      sq_index_depend_on_me = FastSet.insert entry.sq_index_depend_on_me (packet.sq_index % 2 ^ 16);
      store_merged = 1;
    }
    else record entry {
      lq_index_depend_on_me = FastSet.insert entry.lq_index_depend_on_me (packet.lq_index % 2 ^ 16);
      load_merged = 1;
    }

unfoldable pub add_rq_merged : Cache → Packet → ℕ → Reply
add_rq_merged c packet index = record {
  cache = record c {
    rq = record (c.rq) {
      entry = set c.rq.entry index (merged_read (packet_at c.rq.entry index) packet);
      merged = inc64 c.rq.merged;
      access = inc64 c.rq.access;
    };
  };
  packet = packet;
  result = pos index;
  calls = [];
}

-- A full queue: the caller has to try again.
unfoldable pub refused_read : Cache → Packet → Reply
refused_read c packet = record {
  cache = record c { rq = record (c.rq) { full = inc64 c.rq.full } };
  packet = packet;
  result = negsuc 1;
  calls = [];
}

unfoldable pub appended_read : Clock → Cache → Packet → Reply
appended_read clock c packet = record {
  cache = record c {
    rq = record (append_entry c.rq (delayed clock c.latency packet)) {
      to_cache = inc64 c.rq.to_cache;
      access = inc64 c.rq.access;
    };
  };
  packet = packet;
  result = negsuc 0;
  calls = [];
}

-- `add_rq` when nothing in the queues has the line: the queue is full, or the packet is appended.
-- The place must be empty, and the address must not be 0, which marks an empty place.
unfoldable pub add_rq_new : Clock → Cache → Packet → Run Reply
add_rq_new clock c packet =
    if c.rq.occupancy == c.rq_size
    then ok (refused_read c packet)
    else if not ((packet_at c.rq.entry c.rq.tail).address == 0) || packet.address == 0
    then abort
    else ok (appended_read clock c packet)

unfoldable pub add_rq : Clock → Cache → Packet → Run Reply
add_rq clock c packet = elim (check_queue c.wq packet) [
  | some wq_index ↦ add_rq_forwarded c packet wq_index
  | none ↦ elim (check_queue c.rq packet) [
    | some index ↦ ok (add_rq_merged c packet index)
    | none ↦ add_rq_new clock c packet
  ]
]
