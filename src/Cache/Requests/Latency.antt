-- ===== src/Cache/Requests/Latency.antt =====
-- The latency changes no line, and a request finds the place at the tail empty.
use Prim.Native.String.{String}
use arishem.Base.{ℕ, ◌<◌, ◌≡◌, refl, arith}
use arishem.Packet.{Packet, packet_at}
use arishem.PacketQueue.{PacketQueue, line_of}
use arishem.PacketQueue.Tidy.{IsTidy}
use arishem.Cache.State.{Clock}
use arishem.Cache.Requests.{delayed}

pub line_of-delayed :
    (name : String) (clock : Clock) (latency : ℕ) (p : Packet)
    → line_of name (delayed clock latency p) ≡ line_of name p
unfolding delayed
line_of-delayed name clock latency p = refl

-- The place at `tail` of a queue with room is empty.
pub empty_tail :
    (q : PacketQueue) → IsTidy q → q.occupancy < q.size → (packet_at q.entry q.tail).address ≡ 0
empty_tail q t room = rw t.ring.tail_at (t.empty_rest q.occupancy (omega arith) room)
