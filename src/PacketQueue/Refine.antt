-- ===== src/PacketQueue/Refine.antt =====
-- A valid packet queue is a bounded FIFO: `add_queue` appends, `remove_queue` at the head drops
-- the oldest packet, and the assertions fire on a full and on an empty queue only.
use Prim.Native.String.{String}
use arishem.Base.{
  ℕ, suc, ◌+◌, ◌-◌, ◌≤◌, ◌<◌, ◌^◌, ◌≡◌, refl, ap, ◌∙◌, List, [], ◌∷◌, ◌++◌, arith, length,
  length-set, length-replicate, Returns, abort, inc32, dec32, not, false, ◌&&◌, ◌==◌,
}
use arishem.Packet.{Packet, Uninit, new_packet, packet_at, no_packet}
use arishem.PacketQueue.{
  PacketQueue, new_queue, append_entry, add_queue, remove_entry, remove_queue, advance,
}
use arishem.PacketQueue.Window.{wrap, window, window-set_ahead, window-set_end}

-- The array has `size` places, indices are in it, and `tail` is `occupancy` places past `head`.
-- (`check_queue` returns an index as an `int`.)
pub record IsRing (size : ℕ) (entry : List Packet) (head tail occupancy : ℕ) : Type 0 where
  pub places : length entry ≡ size
  pub size_pos : 0 < size
  pub size_small : size < 2 ^ 31
  pub head_in : head < size
  pub tail_in : tail < size
  pub within : occupancy ≤ size
  pub tail_at : tail ≡ wrap size (head + occupancy)

abbrev pub IsValid : PacketQueue → Type 0
IsValid q = IsRing q.size q.entry q.head q.tail q.occupancy

-- The waiting packets, oldest first.
abbrev pub contents : PacketQueue → List Packet
contents q = window no_packet q.size q.entry q.head q.occupancy

pub new_queue-IsValid :
    (u : Uninit) (name : String) (size : ℕ)
    → 0 < size
    → size < 2 ^ 31
    → IsValid (new_queue u name size) × (contents (new_queue u name size) ≡ [])
unfolding new_queue
new_queue-IsValid u name size h k = (
  record {
    places = length-replicate size _;
    size_pos = h;
    size_small = k;
    head_in = h;
    tail_in = h;
    within = omega arith;
    tail_at = ground arith;
  },
  refl,
)

-- Writing at `tail` and moving it on appends, if there is room.
pub append_entry-IsValid :
    (q : PacketQueue) (p : Packet) → IsValid q → q.occupancy < q.size → IsValid (append_entry q p)
unfolding append_entry
append_entry-IsValid q p v room = record {
  places = length-set q.entry q.tail p ∙ v.places;
  size_pos = v.size_pos;
  size_small = v.size_small;
  head_in = v.head_in;
  tail_in = ground arith;
  within = ground arith;
  tail_at = ground arith;
}

pub contents-append_entry :
    (q : PacketQueue) (p : Packet)
    → IsValid q
    → q.occupancy < q.size
    → contents (append_entry q p) ≡ contents q ++ p ∷ []
unfolding append_entry
contents-append_entry q p v room =
    let e : inc32 q.occupancy ≡ suc q.occupancy = omega arith in
    let w =
      window-set_end no_packet q.size q.entry q.head q.occupancy q.tail p (omega (arith, v.places))
        v.head_in room v.tail_at in
    rw e w

-- On a well-formed queue with room `add_queue` returns and the queue stays well formed; the
-- packet stands at the end, the rest is as before.
pub add_queue_lem :
    (q : PacketQueue) (p : Packet)
    → IsValid q
    → q.occupancy < q.size
    → Returns (add_queue q p) λ q'. IsValid q' × (contents q' ≡ contents q ++ p ∷ [])
unfolding add_queue
add_queue_lem q p v room =
    let free : (not (q.occupancy == 0) && q.head == q.tail) ≡ false = ground arith in
    (append_entry q p, rw free, (append_entry-IsValid q p v room, contents-append_entry q p v room))

-- `add_queue` on a full queue stops at the assertion.
pub add_queue-full :
    (q : PacketQueue) (p : Packet) → IsValid q → q.occupancy ≡ q.size → add_queue q p ≡ abort
unfolding add_queue
add_queue-full q p v e = ground arith

-- Emptying the place at `head` and moving it on drops the oldest packet, if there is one.
pub remove_entry-IsValid :
    (u : Uninit) (q : PacketQueue) → IsValid q → 0 < q.occupancy → IsValid (remove_entry u q q.head)
unfolding remove_entry
remove_entry-IsValid u q v some_left = record {
  places = length-set q.entry q.head (new_packet u) ∙ v.places;
  size_pos = v.size_pos;
  size_small = v.size_small;
  head_in = ground arith;
  tail_in = v.tail_in;
  within = omega arith;
  tail_at = ground arith;
}

pub contents-remove_entry :
    (u : Uninit) (q : PacketQueue)
    → IsValid q
    → 0 < q.occupancy
    → contents q ≡ packet_at q.entry q.head ∷ contents (remove_entry u q q.head)
unfolding remove_entry
contents-remove_entry u q v some_left =
    let e : dec32 q.occupancy ≡ q.occupancy - 1 = omega arith in
    let h : advance q.size q.head ≡ wrap q.size (q.head + 1) = ground arith in
    let s : q.occupancy ≡ suc (q.occupancy - 1) = omega arith in
    let w =
      window-set_ahead no_packet q.size q.entry (wrap q.size (q.head + 1)) (q.occupancy - 1)
        (q.size - 1) q.head (new_packet u) (ground arith) (omega arith) (omega arith)
        (ground arith) in
    rw (e, h) (rw w (ap (window no_packet q.size q.entry q.head) s))

-- `remove_queue` of the oldest packet of a well-formed queue that is not empty returns, keeps the
-- queue well formed, and leaves the packets after it.
pub remove_queue_lem :
    (u : Uninit) (q : PacketQueue)
    → IsValid q
    → 0 < q.occupancy
    → Returns
        (remove_queue u q q.head)
        λ q'. IsValid q' × (contents q ≡ packet_at q.entry q.head ∷ contents q')
unfolding remove_queue
remove_queue_lem u q v some_left =
    let left : (q.occupancy == 0 && q.head == q.tail) ≡ false = ground arith in
    (
      remove_entry u q q.head,
      rw left,
      (remove_entry-IsValid u q v some_left, contents-remove_entry u q v some_left),
    )

-- `remove_queue` on an empty queue stops at the assertion.
pub remove_queue-empty :
    (u : Uninit) (q : PacketQueue) (i : ℕ)
    → IsValid q
    → q.occupancy ≡ 0
    → remove_queue u q i ≡ abort
unfolding remove_queue
remove_queue-empty u q i v e = ground arith
