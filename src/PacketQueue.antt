-- ===== src/PacketQueue.antt =====
-- The circular packet queue of inc/block.h and src/block.cc (`PACKET_QUEUE`). The debug output
-- under `DP` is compiled out. A packet that the source passes by a pointer into the queue is
-- passed by its index.
pub mod Window
pub mod Refine
pub mod Find
pub mod Tidy
use Prim.Native.String.{String}
use text.Mathlib.Text.{◌==◌ as str_eq}
use arishem.Base.{
  ℕ, zero, suc, ◌+◌, ◌-◌, Bool, ◌&&◌, not, Option, none, some, List, Run, ok, abort, ltb, leb, ◌==◌,
  if◌then◌else◌, set, replicate, inc32, dec32, uint64_max,
}
use arishem.Packet.{Packet, Uninit, new_packet, packet_at, no_packet}

pub record PacketQueue : Type 0 where
  pub name : String
  pub size : ℕ
  pub is_rq : ℕ
  pub is_wq : ℕ
  pub write_mode : ℕ
  pub cpu : ℕ
  pub head : ℕ
  pub tail : ℕ
  pub occupancy : ℕ
  pub num_returned : ℕ
  pub next_fill_index : ℕ
  pub next_schedule_index : ℕ
  pub next_process_index : ℕ
  pub next_fill_cycle : ℕ
  pub next_schedule_cycle : ℕ
  pub next_process_cycle : ℕ
  pub access : ℕ
  pub forward : ℕ
  pub merged : ℕ
  pub to_cache : ℕ
  pub row_buffer_hit : ℕ
  pub row_buffer_miss : ℕ
  pub full : ℕ
  pub entry : List Packet
  pub processed_packet : List Packet

-- `PACKET_QUEUE(string v1, uint32_t v2)`; `processed_packet` has `2 * MAX_READ_PER_CYCLE` places.
unfoldable pub new_queue : Uninit → String → ℕ → PacketQueue
new_queue u v1 v2 = record {
  name = v1;
  size = v2;
  is_rq = 0;
  is_wq = 0;
  write_mode = 0;
  cpu = 0;
  head = 0;
  tail = 0;
  occupancy = 0;
  num_returned = 0;
  next_fill_index = 0;
  next_schedule_index = 0;
  next_process_index = 0;
  next_fill_cycle = uint64_max;
  next_schedule_cycle = uint64_max;
  next_process_cycle = uint64_max;
  access = 0;
  forward = 0;
  merged = 0;
  to_cache = 0;
  row_buffer_hit = 0;
  row_buffer_miss = 0;
  full = 0;
  entry = replicate v2 (new_packet u);
  processed_packet = replicate 16 (new_packet u);
}

-- `NAME == "L1D_WQ"`
unfoldable pub is_l1d_wq : String → Bool
is_l1d_wq name = str_eq name "L1D_WQ"

-- What the loops of `check_queue` compare.
abbrev pub line_of : String → Packet → ℕ
line_of name e = if is_l1d_wq name then e.full_addr else e.address

unfoldable pub same_line : String → Packet → Packet → Bool
same_line name packet e = line_of name e == line_of name packet

-- One of its loops: the first place of `rounds` places from `i` on with a packet that passes.
unfoldable pub scan : (Packet → Bool) → List Packet → ℕ → ℕ → Option ℕ
scan test entry i zero = none
scan test entry i (suc rounds) =
    if test (packet_at entry i) then some i else scan test entry (i + 1) rounds

abbrev pub or_else : Option ℕ → Option ℕ → Option ℕ
or_else (some i) other = some i
or_else none other = other

-- The result -1 is `none`.
unfoldable pub check_queue : PacketQueue → Packet → Option ℕ
check_queue q packet =
    let test = same_line q.name packet in
    if q.head == q.tail && q.occupancy == 0
    then none
    else if ltb q.head q.tail
    then scan test q.entry q.head (q.tail - q.head)
    else or_else (scan test q.entry q.head (q.size - q.head)) (scan test q.entry 0 q.tail)

-- `tail++; if (tail >= SIZE) tail = 0;`
abbrev pub advance : ℕ → ℕ → ℕ
advance size i = if leb size (inc32 i) then 0 else inc32 i

-- `entry[tail] = *packet; occupancy++; tail++; if (tail >= SIZE) tail = 0;`
unfoldable pub append_entry : PacketQueue → Packet → PacketQueue
append_entry q packet = record q {
  entry = set q.entry q.tail packet;
  occupancy = inc32 q.occupancy;
  tail = advance q.size q.tail;
}

-- The assertion of `SANITY_CHECK` aborts on a full queue.
unfoldable pub add_queue : PacketQueue → Packet → Run PacketQueue
add_queue q packet =
    if not (q.occupancy == 0) && q.head == q.tail then abort else ok (append_entry q packet)

-- `*packet = empty_packet; occupancy--; head++; if (head >= SIZE) head = 0;`
unfoldable pub remove_entry : Uninit → PacketQueue → ℕ → PacketQueue
remove_entry u q i = record q {
  entry = set q.entry i (new_packet u);
  occupancy = dec32 q.occupancy;
  head = advance q.size q.head;
}

-- `remove_queue(&entry[i])`; the assertion of `SANITY_CHECK` aborts on an empty queue.
unfoldable pub remove_queue : Uninit → PacketQueue → ℕ → Run PacketQueue
remove_queue u q i = if q.occupancy == 0 && q.head == q.tail then abort else ok (remove_entry u q i)
