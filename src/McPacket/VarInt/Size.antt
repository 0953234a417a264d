-- ===== src/McPacket/VarInt/Size.antt =====
-- `getVarIntSize` and `writeBufferLengthToFront` of MCPacket/Packet.cpp.
use cerios_cluster.Common.{
  ℕ, ◌%◌, ◌^◌, ◌<◌, ◌≡◌, sym, ◌∙◌, List, ◌++◌, ltb, if◌then◌else◌, length, arith,
}
use cerios_cluster.Common.Outcome.{ok, throws, packet_too_large}
use cerios_cluster.McPacket.VarInt.{get_var_int_size, write_buffer_length_to_front}
use cerios_cluster.McPacket.VarInt.Encoding.{encode, high_bits}
use cerios_cluster.McPacket.VarInt.Write.{write_var_int_to_front_lem}

size_lem :
    (v : ℕ)
    → v < 2 ^ 64
    → get_var_int_size v ≡ (
        if ltb v (2 ^ 7)
        then 1
        else if ltb v (2 ^ 14)
        then 2
        else if ltb v (2 ^ 21)
        then 3
        else if ltb v (2 ^ 28)
        then 4
        else 5)
unfolding get_var_int_size
size_lem v h =
    ground (arith, high_bits 7 57 v, high_bits 14 50 v, high_bits 21 43 v, high_bits 28 36 v)

pub length_by_size :
    (v : ℕ)
    → length (encode 4 v) ≡ (
        if ltb v (2 ^ 7)
        then 1
        else if ltb v (2 ^ 14)
        then 2
        else if ltb v (2 ^ 21)
        then 3
        else if ltb v (2 ^ 28)
        then 4
        else 5)
unfolding encode
length_by_size v = ground arith

-- getVarIntSize counts the bytes that are written for the number.
pub get_var_int_size-length : (v : ℕ) → v < 2 ^ 64 → get_var_int_size v ≡ length (encode 4 v)
get_var_int_size-length v h = size_lem v h ∙ sym (length_by_size v)

-- A buffer below 2 MiB gets its length in front; a longer one is refused.
pub write_buffer_length_to_front_lem :
    (buffer : List ℕ)
    → length buffer < 2 ^ 64
    → write_buffer_length_to_front buffer ≡ (
        if ltb (length buffer) (2 ^ 21)
        then ok (encode 4 (length buffer) ++ buffer)
        else throws (packet_too_large (length (encode 4 (length buffer)))))
unfolding write_buffer_length_to_front
write_buffer_length_to_front_lem buffer h = ground (
  arith,
  size_lem (length buffer) h,
  length_by_size (length buffer),
  write_var_int_to_front_lem 5 buffer (length buffer % 2 ^ 32) (omega arith),
)
