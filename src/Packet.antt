-- ===== src/Packet.antt =====
-- The message packets of inc/block.h (`PACKET`) and the access types of inc/memory_class.h.
use arishem.Base.{ℕ, List, get_or, uint64_max}
use arishem.Base.Int.{ℤ, pos, negsuc}
use arishem.FastSet
use arishem.FastSet.{FastSet}

-- `NUM_CPUS` of inc/defs.h, which marks a packet that belongs to no core.
abbrev pub num_cpus : ℕ
num_cpus = 1

-- The access types.
abbrev pub load : ℕ
load = 0

abbrev pub rfo : ℕ
rfo = 1

abbrev pub prefetch : ℕ
prefetch = 2

abbrev pub writeback : ℕ
writeback = 3

-- The values of `returned`.
abbrev pub inflight : ℕ
inflight = 1

abbrev pub completed : ℕ
completed = 2

-- The field `data` of the source is `data_value` here. Machine words are numbers, `int`s integers.
pub record Packet : Type 0 where
  pub instruction : ℕ
  pub tlb_access : ℕ
  pub scheduled : ℕ
  pub translated : ℕ
  pub fetched : ℕ
  pub prefetched : ℕ
  pub drc_tag_read : ℕ
  pub fill_level : ℤ
  pub pf_origin_level : ℤ
  pub rob_signal : ℤ
  pub rob_index : ℤ
  pub producer : ℤ
  pub delta : ℤ
  pub depth : ℤ
  pub signature : ℤ
  pub confidence : ℤ
  pub pf_metadata : ℕ
  pub is_producer : ℕ
  pub instr_merged : ℕ
  pub load_merged : ℕ
  pub store_merged : ℕ
  pub returned : ℕ
  pub asid_0 : ℕ
  pub asid_1 : ℕ
  pub type : ℕ
  pub rob_index_depend_on_me : FastSet
  pub lq_index_depend_on_me : FastSet
  pub sq_index_depend_on_me : FastSet
  pub cpu : ℕ
  pub data_index : ℕ
  pub lq_index : ℕ
  pub sq_index : ℕ
  pub address : ℕ
  pub full_addr : ℕ
  pub instruction_pa : ℕ
  pub data_pa : ℕ
  pub data_value : ℕ
  pub instr_id : ℕ
  pub ip : ℕ
  pub event_cycle : ℕ
  pub cycle_enqueued : ℕ

-- The three fields that the constructor leaves as the memory has them.
pub record Uninit : Type 0 where
  pub pf_origin_level : ℤ
  pub pf_metadata : ℕ
  pub data_pa : ℕ

-- `PACKET()`
abbrev pub new_packet : Uninit → Packet
new_packet u = record {
  instruction = 0;
  tlb_access = 0;
  scheduled = 0;
  translated = 0;
  fetched = 0;
  prefetched = 0;
  drc_tag_read = 0;
  fill_level = negsuc 0;
  pf_origin_level = u.pf_origin_level;
  rob_signal = negsuc 0;
  rob_index = negsuc 0;
  producer = negsuc 0;
  delta = pos 0;
  depth = pos 0;
  signature = pos 0;
  confidence = pos 0;
  pf_metadata = u.pf_metadata;
  is_producer = 0;
  instr_merged = 0;
  load_merged = 0;
  store_merged = 0;
  returned = 0;
  asid_0 = 255;
  asid_1 = 255;
  type = 0;
  rob_index_depend_on_me = FastSet.empty;
  lq_index_depend_on_me = FastSet.empty;
  sq_index_depend_on_me = FastSet.empty;
  cpu = num_cpus;
  data_index = 0;
  lq_index = 0;
  sq_index = 0;
  address = 0;
  full_addr = 0;
  instruction_pa = 0;
  data_pa = u.data_pa;
  data_value = 0;
  instr_id = 0;
  ip = 0;
  event_cycle = uint64_max;
  cycle_enqueued = 0;
}

-- What a read past the end of an array of packets gives; the source reads no such place.
abbrev pub no_packet : Packet
no_packet = new_packet (record { pf_origin_level = pos 0; pf_metadata = 0; data_pa = 0 })

abbrev pub packet_at : List Packet → ℕ → Packet
packet_at entry i = get_or entry i no_packet
