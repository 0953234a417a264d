-- ===== src/McPacket/Parse/Plain.antt =====
-- parsePacket of MCPacket/Packet.hpp on packets that are not compressed.
use cerios_cluster.Common.{
  ℕ, ◌^◌, ◌<◌, List, [], ◌∷◌, ◌++◌, Bool, true, false, length, ◌≡◌, refl, ◌∙◌, arith, length-append,
}
use cerios_cluster.Common.Outcome.{ok, undefined, ◌>>=◌}
use cerios_cluster.McPacket.Base.{Environment, Side, ClientState, packet_from_buffer}
use cerios_cluster.McPacket.Base.Header.{packet_from_buffer-encode}
use cerios_cluster.McPacket.VarInt.Encoding.{encode, length-encode}
use cerios_cluster.McPacket.VarInt.RoundTrip.{read-encode}
use cerios_cluster.McPacket.Registry.{instantiate_from_data}
use cerios_cluster.McPacket.Messages.Wire.{arrived}
use cerios_cluster.McPacket.Parse.{Zlib, parse_plain, parse_packet}

plain_if_any :
    (z : Zlib) (fuel : ℕ) (env : Environment) (side : Side) (len : ℕ) (buffer : List ℕ)
    (state : ClientState) (consume : Bool)
    → 0 < length buffer
    → parse_packet z fuel env side len buffer state false consume
      ≡ parse_plain env side len buffer state consume
unfolding parse_packet
plain_if_any z fuel env side len [] state consume h = absurd (omega arith)
plain_if_any z fuel env side len (b ∷ bs) state consume h = refl

encode_any : (id : ℕ) (rest : List ℕ) → 0 < length (encode 4 id ++ rest)
encode_any id rest = omega (arith, length-append (encode 4 id) rest, length-encode 4 id)

-- A packet in front of the buffer, its id and body of the given length, is the one that its class
-- makes of its body, and exactly its bytes are consumed.
pub parse_packet-encode :
    (z : Zlib) (fuel : ℕ) (env : Environment) (side : Side) (state : ClientState) (id : ℕ)
    (body rest : List ℕ)
    → id < 2 ^ 32
    → parse_packet z fuel env side
        (length (encode 4 id ++ body))
        ((encode 4 id ++ body) ++ rest)
        state
        false
        true
      ≡ (instantiate_from_data env side state (arrived id body) >>= λ m. ok (m, rest))
unfolding parse_plain
parse_packet-encode z fuel env side state id body rest h =
    plain_if_any z fuel env side _ ((encode 4 id ++ body) ++ rest) state true
      (omega (arith, length-append (encode 4 id ++ body) rest, encode_any id body))
    ∙ rw (packet_from_buffer-encode id body rest true h)

-- A length of 0 before a buffer that is not empty is undefined: the copy would end before it begins.
pub parse_packet_zero :
    (z : Zlib) (fuel : ℕ) (env : Environment) (side : Side) (state : ClientState) (id : ℕ)
    (rest : List ℕ) (consume : Bool)
    → id < 2 ^ 32
    → parse_packet z fuel env side 0 (encode 4 id ++ rest) state false consume ≡ undefined
unfolding parse_plain packet_from_buffer
parse_packet_zero z fuel env side state id rest consume h =
    plain_if_any z fuel env side 0 (encode 4 id ++ rest) state consume (encode_any id rest)
    ∙ rw (read-encode id rest false h) (ground (arith, length-encode 4 id))

-- So is a length beyond the end of the buffer, as a negative one from the wire becomes.
pub parse_packet_beyond :
    (z : Zlib) (fuel : ℕ) (env : Environment) (side : Side) (state : ClientState) (id len : ℕ)
    (rest : List ℕ) (consume : Bool)
    → id < 2 ^ 32
    → length (encode 4 id ++ rest) < len
    → parse_packet z fuel env side len (encode 4 id ++ rest) state false consume ≡ undefined
unfolding parse_plain packet_from_buffer
parse_packet_beyond z fuel env side state id len rest consume h beyond =
    plain_if_any z fuel env side len (encode 4 id ++ rest) state consume (encode_any id rest)
    ∙ rw (read-encode id rest false h) (ground arith)
