-- ===== src/McPacket/Messages/Wire.antt =====
-- A packet on its way: serialized (MCPacket/Packet.hpp, serializePacket), put in front of whatever
-- follows in the receiver's buffer, taken off it by the constructor from a buffer, and parsed.
use cerios_cluster.Common.{ℕ, ◌^◌, ◌<◌, List, ◌++◌, true, false, length, ◌≡◌}
use cerios_cluster.Common.Outcome.{Outcome, ok, ◌>>=◌}
use cerios_cluster.McPacket.Base.{Packet, packet_from_buffer}
use cerios_cluster.McPacket.Base.Header.{packet_from_buffer-encode}
use cerios_cluster.McPacket.VarInt.Encoding.{encode}

-- The payload of a serialized packet is its id and its body.
abbrev pub written : ℕ → List ℕ → Packet
written id body = record { packet_id = id; raw_payload = encode 4 id ++ body; compressed = false }

-- The packet in progress that a class is parsed from.
abbrev pub arrived : ℕ → List ℕ → Packet
arrived id body = record { packet_id = id; raw_payload = body; compressed = false }

-- The receiver parses the packet, and is left with what follows.
abbrev pub receive {ℓ} :
    {A : Type ℓ} → Packet → List ℕ → (Packet → Outcome A) → Outcome (A × List ℕ)
receive sent rest parse = do
  (p, left) ← packet_from_buffer (length sent.raw_payload) (sent.raw_payload ++ rest) true
  a ← parse p
  ok (a, left)

pub receive-written {ℓ} :
    {A : Type ℓ} (id : ℕ) (body rest : List ℕ) (parse : Packet → Outcome A)
    → id < 2 ^ 32
    → receive (written id body) rest parse ≡ (parse (arrived id body) >>= λ a. ok (a, rest))
receive-written id body rest parse h = rw (packet_from_buffer-encode id body rest true h)
