-- ===== src/McPacket/VarInt.antt =====
-- MCPacket/Packet.cpp: variable-length integers, read from and written to a buffer.
--
-- A byte buffer is a list of numbers below 256. An int32_t, uint32_t or uint64_t is its bit pattern,
-- a number below 2 ^ 32 or 2 ^ 64. `&` and `|` are the native bit operations, `x >> 7` on an
-- unsigned number is `x / 2 ^ 7`, and a shift to the left keeps the low 32 bits.
-- The loops that write take fuel: `endless` means that it ran out.
pub mod Encoding
pub mod Write
pub mod Read
pub mod RoundTrip
pub mod Size
use cerios_cluster.Common.{
  ℕ, zero, suc, ◌+◌, ◌-◌, ◌*◌, ◌/◌, ◌%◌, ◌^◌, bit_and, bit_or, List, [], ◌∷◌, ◌++◌, ltb, ◌==◌,
  if◌then◌else◌, length, drop, Bool,
}
use cerios_cluster.Common.Outcome.{
  Outcome, ok, throws, endless, var_int_too_big, packet_too_large, ◌>>=◌,
}

-- `static_cast<std::uint8_t>((input & 127) | 128)`
abbrev pub group_byte : ℕ → ℕ
group_byte input = bit_or (bit_and input 127) 128 % 2 ^ 8

-- writeVarIntToBuffer: -128, converted to uint32_t, is 2 ^ 32 - 128.
unfoldable pub write_var_int_loop : ℕ → List ℕ → ℕ → Outcome (List ℕ)
write_var_int_loop zero payload input = endless
write_var_int_loop (suc fuel) payload input =
    let more = write_var_int_loop fuel (payload ++ (group_byte input ∷ [])) (input / 2 ^ 7) in
    if bit_and input (2 ^ 32 - 128) == 0 then ok (payload ++ (input % 2 ^ 8 ∷ [])) else more

-- writeVarIntToBuffer, with a round for each of the groups of 7 bits of a uint32_t.
unfoldable pub write_var_int_to_buffer : List ℕ → ℕ → Outcome (List ℕ)
unfolding write_var_int_loop
write_var_int_to_buffer payload input = write_var_int_loop 5 payload input

-- writeVarLongToBuffer
unfoldable pub write_var_long_loop : ℕ → List ℕ → ℕ → Outcome (List ℕ)
write_var_long_loop zero payload input = endless
write_var_long_loop (suc fuel) payload input =
    let more = write_var_long_loop fuel (payload ++ (group_byte input ∷ [])) (input / 2 ^ 7) in
    if bit_and input (2 ^ 64 - 128) == 0 then ok (payload ++ (input % 2 ^ 8 ∷ [])) else more

-- writeVarLongToBuffer, with a round for each of the groups of 7 bits of a uint64_t.
unfoldable pub write_var_long_to_buffer : List ℕ → ℕ → Outcome (List ℕ)
unfolding write_var_long_loop
write_var_long_to_buffer payload input = write_var_long_loop 10 payload input

-- `input >>= 7` on an int32_t copies the sign bit.
abbrev pub shift_right_signed : ℕ → ℕ
shift_right_signed input =
    if ltb input (2 ^ 31) then input / 2 ^ 7 else input / 2 ^ 7 + (2 ^ 32 - 2 ^ 25)

-- The loop of writeVarIntToFront over its local `bytes`; here `input` is an int32_t.
unfoldable pub write_front_loop : ℕ → List ℕ → ℕ → Outcome (List ℕ)
write_front_loop zero bytes input = endless
write_front_loop (suc fuel) bytes input =
    let more =
      write_front_loop fuel (bytes ++ (group_byte input ∷ [])) (shift_right_signed input) in
    if bit_and input (2 ^ 32 - 128) == 0
    then ok (bytes ++ (bit_and input 127 % 2 ^ 8 ∷ []))
    else more

-- writeVarIntToFront, run for at most `fuel` rounds. Since an int32_t keeps its sign when it is
-- shifted, no number of rounds is fixed here.
unfoldable pub write_var_int_to_front : ℕ → List ℕ → ℕ → Outcome (List ℕ)
write_var_int_to_front fuel buffer input = do
  bytes ← write_front_loop fuel [] input
  ok (bytes ++ buffer)

-- getVarIntSize: the test `(input & -1 << bytes * 7) == 0` on an int64_t, for one value of `bytes`.
abbrev pub fits_in : ℕ → ℕ → Bool
fits_in bytes input = bit_and input (2 ^ 64 - 2 ^ (bytes * 7)) == 0

unfoldable pub get_var_int_size : ℕ → ℕ
get_var_int_size input =
    if fits_in 1 input
    then 1
    else if fits_in 2 input
    then 2
    else if fits_in 3 input
    then 3
    else if fits_in 4 input
    then 4
    else 5

abbrev pub max_length_bytes : ℕ
max_length_bytes = 3

-- writeBufferLengthToFront; `static_cast<std::int32_t>` keeps the low 32 bits of the size.
unfoldable pub write_buffer_length_to_front : List ℕ → Outcome (List ℕ)
write_buffer_length_to_front buffer =
    if ltb max_length_bytes (get_var_int_size (length buffer))
    then throws (packet_too_large (get_var_int_size (length buffer)))
    else write_var_int_to_front 5 buffer (length buffer % 2 ^ 32)

-- readVarIntFromBuffer returns the number of bytes, and leaves the number in `*intOut`.
pub record VarIntRead : Type 0 where
  pub count : ℕ
  pub value : ℕ
  pub buffer : List ℕ

-- The loop, from `numByte` on; the list is what of the buffer it has not reached. An int8_t and the
-- uint8_t of the same bits agree under `& 127` and `& 128`. The sum in the sixth round, whose shift
-- is too wide for an int, is dropped by the `throw`.
unfoldable pub read_var_int_loop : List ℕ → ℕ → ℕ → Outcome (ℕ × ℕ)
read_var_int_loop [] num_byte int_out = ok (0, int_out)
read_var_int_loop (byte ∷ rest) num_byte int_out =
    let int_out' = bit_or int_out (bit_and byte 127 * 2 ^ (num_byte * 7) % 2 ^ 32) in
    let more = read_var_int_loop rest (num_byte + 1) int_out' in
    if ltb 5 (num_byte + 1)
    then throws var_int_too_big
    else if bit_and byte 128 == 128
    then more
    else ok (num_byte + 1, int_out')

-- Where the number is cut off, the count is 0 and nothing is consumed.
unfoldable pub read_var_int_from_buffer : List ℕ → Bool → Outcome VarIntRead
read_var_int_from_buffer [] consume = ok (record { count = 0; value = 0; buffer = [] })
read_var_int_from_buffer (byte ∷ rest) consume = do
  (count, value) ← read_var_int_loop (byte ∷ rest) 0 0
  ok (record {
    count = count;
    value = value;
    buffer = if consume then drop count (byte ∷ rest) else byte ∷ rest;
  })
