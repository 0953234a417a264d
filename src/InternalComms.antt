-- ===== src/InternalComms.antt =====
-- InternalComms/: the messages between the client gateway and the client servers.
--
-- The header is packed: two bytes, 36 of the player's UUID and the eight of a size_t, 46 together.
-- What the memory of a new header holds is an argument, since `newPacket` does not set all of it.
pub mod RoundTrip
pub mod Bounds
use cerios_cluster.Common.{
  ℕ, zero, suc, ◌+◌, ◌%◌, ◌^◌, List, [], ◌∷◌, ◌++◌, Bool, true, false, Option, none, some, ltb,
  ◌==◌, if◌then◌else◌, length, take, drop,
}
use cerios_cluster.Common.Outcome.{Outcome, ok, undefined, ◌>>=◌}
use cerios_cluster.McPacket.Base.{to_bytes, of_bytes}

-- An enum class over uint8_t holds any byte.
pub data MessageId : Type 0 where
  ack nak accept_client mc_packet : MessageId
  unnamed_message : ℕ → MessageId

unfoldable pub message_number : MessageId → ℕ
message_number ack = 0
message_number nak = 1
message_number accept_client = 2
message_number mc_packet = 3
message_number (unnamed_message n) = n

unfoldable pub message_id : ℕ → MessageId
message_id zero = ack
message_id (suc zero) = nak
message_id (suc (suc zero)) = accept_client
message_id (suc (suc (suc zero))) = mc_packet
message_id (suc (suc (suc (suc n)))) = unnamed_message (n + 4)

pub record Header : Type 0 where
  pub id : ℕ
  pub packet_number : ℕ
  pub player_uuid : List ℕ
  pub payload_length : ℕ

pub record Message : Type 0 where
  pub header : Header
  pub payload : List ℕ

abbrev pub uuid_size : ℕ
uuid_size = 36

-- `sizeof(MessagePacketHeader)`
abbrev pub header_size : ℕ
header_size = 46

-- `newPacket(messageType, playerId, payload)`: a UUID that is too long is cut off, and behind one
-- that is too short the old memory stays. So does the packet number.
unfoldable pub new_packet : Header → MessageId → List ℕ → List ℕ → Message
unfolding message_number
new_packet memory message_type player_id payload = record {
  header = record {
    id = message_number message_type % 2 ^ 8;
    packet_number = memory.packet_number;
    player_uuid =
        if ltb uuid_size (length player_id)
        then take uuid_size player_id
        else player_id ++ drop (length player_id) memory.player_uuid;
    payload_length = length payload;
  };
  payload = payload;
}

-- The overloads with fewer arguments
unfoldable pub new_packet_with_payload : Header → MessageId → List ℕ → Message
unfolding new_packet
new_packet_with_payload memory message_type payload = new_packet memory message_type [] payload

unfoldable pub new_packet_for_player : Header → MessageId → List ℕ → Message
unfolding new_packet
new_packet_for_player memory message_type player_id = new_packet memory message_type player_id []

unfoldable pub new_packet_empty : Header → MessageId → Message
unfolding new_packet_with_payload
new_packet_empty memory message_type = new_packet_with_payload memory message_type []

-- The bytes of a header
unfoldable pub header_bytes : Header → List ℕ
header_bytes h = h.id ∷ (h.packet_number ∷ (h.player_uuid ++ to_bytes 8 h.payload_length))

-- The header that lies over the first 46 bytes
unfoldable pub header_of : List ℕ → Header
header_of [] = record { id = 0; packet_number = 0; player_uuid = []; payload_length = 0 }
header_of (id ∷ []) = record { id = id; packet_number = 0; player_uuid = []; payload_length = 0 }
header_of (id ∷ number ∷ rest) = record {
  id = id;
  packet_number = number;
  player_uuid = take uuid_size rest;
  payload_length = of_bytes (take 8 (drop uuid_size rest));
}

-- serializeData appends to the output. It copies as many bytes as the header says, which is
-- undefined if the payload, which its owner can change, has become shorter.
unfoldable pub serialize_data : Message → List ℕ → Outcome (List ℕ)
serialize_data m output =
    if ltb 0 m.header.payload_length
    then (if ltb (length m.payload) m.header.payload_length
        then undefined
        else ok (output ++ (header_bytes m.header ++ take m.header.payload_length m.payload)))
    else ok (output ++ header_bytes m.header)

-- The size_t sum that `rawData.size()` is compared with
abbrev pub needed : Header → ℕ
needed h = (header_size + h.payload_length) % 2 ^ 64

-- fromData: the message, if it is complete, and the data afterwards. The header is copied before
-- any test of the size.
unfoldable pub from_data : List ℕ → Bool → Outcome (Option Message × List ℕ)
from_data raw_data consume =
    if ltb (length raw_data) header_size
    then undefined
    else if ltb (length raw_data) (needed (header_of raw_data))
    then ok (none, raw_data)
    else if ltb (length raw_data) (header_size + (header_of raw_data).payload_length)
    then undefined
    else ok (
      some (record {
        header = header_of raw_data;
        payload = take (header_of raw_data).payload_length (drop header_size raw_data);
      }),
      if consume
          then drop (header_size + (header_of raw_data).payload_length) raw_data
          else raw_data,
    )

unfoldable pub get_message_id : Message → MessageId
unfolding message_id
get_message_id m = message_id m.header.id

-- A std::string of all 36 bytes
unfoldable pub get_player_id : Message → List ℕ
get_player_id m = take uuid_size m.header.player_uuid

unfoldable pub get_payload : Message → List ℕ
get_payload m = m.payload

unfoldable pub set_packet_number : Message → ℕ → Message
set_packet_number m n = record m { header = record m.header { packet_number = n } }

unfoldable pub get_packet_number : Message → ℕ
get_packet_number m = m.header.packet_number
