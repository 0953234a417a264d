-- ===== src/McPacket/Base.antt =====
-- MCPacket/Packet.hpp and Packet.cpp: the base class `Packet`, its buffer, and the plain values in it.
--
-- A method that changes the object returns the new object. Plain values have the byte order of the
-- host, which is little endian on the machines that the project is built for. A float or double is
-- its bit pattern. What an uninitialised member holds is an argument (`Environment`).
pub mod Pod
pub mod Header
use cerios_cluster.Common.{
  ℕ, zero, suc, ◌+◌, ◌-◌, ◌*◌, ◌/◌, ◌%◌, ◌^◌, List, [], ◌∷◌, ◌++◌, Bool, true, false, ltb, leb,
  ◌||◌, if◌then◌else◌, length, take, drop,
}
use cerios_cluster.Common.Outcome.{Outcome, ok, undefined, ◌>>=◌}
use cerios_cluster.McPacket.VarInt.{
  VarIntRead, read_var_int_from_buffer, write_var_int_to_buffer, write_buffer_length_to_front,
}

pub data Side : Type 0 where
  client_bound server_bound bi_directional : Side

-- An enum class holds any int: `unnamed` is a value with no enumerator (below 2 ^ 32, from 4 on).
pub data ClientState : Type 0 where
  handshake status login play : ClientState
  unnamed : ℕ → ClientState

unfoldable pub client_state : ℕ → ClientState
client_state zero = handshake
client_state (suc zero) = status
client_state (suc (suc zero)) = login
client_state (suc (suc (suc zero))) = play
client_state (suc (suc (suc (suc n)))) = unnamed (n + 4)

pub record Packet : Type 0 where
  pub packet_id : ℕ
  pub raw_payload : List ℕ
  pub compressed : Bool

-- What a constructor finds: the time, the next random number, and the old contents of the members
-- that it leaves uninitialised. `wide_shift v k` is what the build makes of an int's `v << k` that is
-- too wide, which the language leaves undefined. `resolves` is whether the name of the session server
-- is found.
pub record Environment : Type 0 where
  pub time : ℕ
  pub random : ℕ
  pub stale : ℕ → ℕ
  pub wide_shift : ℕ → ℕ → ℕ
  pub resolves : Bool

-- `Packet(std::int32_t packetId)`
abbrev pub new_base : ℕ → Packet
new_base packet_id = record { packet_id = packet_id; raw_payload = []; compressed = false }

-- `Packet(std::shared_ptr<Packet> packetToCopy)` copies the id and the payload alone.
abbrev pub copy_base : Packet → Packet
copy_base p = record { packet_id = p.packet_id; raw_payload = p.raw_payload; compressed = false }

abbrev pub reset_buffer : Packet → Packet
reset_buffer p = record p { compressed = false; raw_payload = [] }

-- A number into the payload (writeVarIntToBuffer as a method).
unfoldable pub write_var_int : Packet → ℕ → Outcome Packet
write_var_int p input = do
  payload ← write_var_int_to_buffer p.raw_payload input
  ok (record p { raw_payload = payload })

-- `std::copy(…, std::back_inserter(this->rawPayload))`
abbrev pub append_bytes : Packet → List ℕ → Packet
append_bytes p bytes = record p { raw_payload = p.raw_payload ++ bytes }

-- The virtual serializePacket of the base class.
unfoldable pub serialize_base : Packet → Outcome Packet
unfolding write_var_int
serialize_base p = write_var_int (reset_buffer p) p.packet_id

-- framePacket
unfoldable pub frame_packet : Packet → Outcome Packet
frame_packet p = do
  payload ← write_buffer_length_to_front p.raw_payload
  ok (record p { raw_payload = payload })

-- The bytes of an object of `size` bytes, and back.
unfoldable pub to_bytes : ℕ → ℕ → List ℕ
to_bytes zero value = []
to_bytes (suc size) value = (value % 2 ^ 8) ∷ to_bytes size (value / 2 ^ 8)

unfoldable pub of_bytes : List ℕ → ℕ
of_bytes [] = 0
of_bytes (b ∷ bs) = b + 2 ^ 8 * of_bytes bs

-- writePODToBuffer<T>, for a T of `size` bytes
unfoldable pub write_pod : ℕ → Packet → ℕ → Packet
unfolding to_bytes
write_pod size p value = append_bytes p (to_bytes size value)

-- readPODFromBuffer<T>, for a T of `size` bytes
unfoldable pub read_pod : ℕ → Packet → ℕ → Bool → ℕ × Packet
unfolding of_bytes
read_pod size p default_return consume_data =
    if ltb (length p.raw_payload) size then (default_return, p) else (
      of_bytes (take size p.raw_payload),
      if consume_data then record p { raw_payload = drop size p.raw_payload } else p,
    )

-- A number out of the payload, consumed.
unfoldable pub read_var_int : Packet → Outcome (ℕ × Packet)
read_var_int p = do
  r ← read_var_int_from_buffer p.raw_payload true
  ok (r.value, record p { raw_payload = r.buffer })

-- An int32_t that is compared with a size_t, or added to one.
abbrev pub as_size : ℕ → ℕ
as_size w = if ltb w (2 ^ 31) then w else 2 ^ 64 - (2 ^ 32 - w)

-- `Packet(length, buffer, state, consumeData)`, and the buffer afterwards. A copy whose end lies
-- before its begin or behind the end of the buffer is undefined.
unfoldable pub packet_from_buffer : ℕ → List ℕ → Bool → Outcome (Packet × List ℕ)
packet_from_buffer len buffer consume_data = do
  id ← read_var_int_from_buffer buffer false
  if ltb len id.count || ltb (length buffer) len
      then undefined
      else ok (
        record {
          packet_id = id.value;
          raw_payload = drop id.count (take len buffer);
          compressed = false;
        },
        if consume_data then drop len buffer else buffer,
      )
