-- ===== src/McPacket/VarInt/Write.antt =====
-- What the three writing loops of MCPacket/Packet.cpp append, and that they end.
use cerios_cluster.Common.{
  ℕ, zero, suc, ◌+◌, ◌/◌, ◌%◌, ◌^◌, ◌≤◌, ◌<◌, ◌≡◌, refl, List, [], ◌∷◌, ◌++◌, append_assoc, arith,
}
use cerios_cluster.Common.Outcome.{ok, endless}
use cerios_cluster.McPacket.VarInt.{
  group_byte, write_var_int_loop, write_var_int_to_buffer, write_var_long_loop,
  write_var_long_to_buffer, shift_right_signed, write_front_loop, write_var_int_to_front,
}
use cerios_cluster.McPacket.VarInt.Encoding.{
  encode, low_seven, group_byte_lem, is_last_32, is_last_64,
}

pub write_var_int_loop_lem :
    (k : ℕ) (payload : List ℕ) (v : ℕ)
    → v < 2 ^ 32
    → v < 128 ^ suc k
    → write_var_int_loop (suc k) payload v ≡ ok (payload ++ encode k v)
unfolding write_var_int_loop encode
write_var_int_loop_lem zero payload v h hk = ground (arith, is_last_32 v)
write_var_int_loop_lem (suc k) payload v h hk = ground (
  arith,
  is_last_32 v,
  group_byte_lem v,
  write_var_int_loop_lem k (payload ++ ((v % 128 + 128) ∷ [])) (v / 128),
  append_assoc payload ((v % 128 + 128) ∷ []) (encode k (v / 128)),
)

pub write_var_int_to_buffer_lem :
    (payload : List ℕ) (v : ℕ)
    → v < 2 ^ 32
    → write_var_int_to_buffer payload v ≡ ok (payload ++ encode 4 v)
unfolding write_var_int_to_buffer
write_var_int_to_buffer_lem payload v h = write_var_int_loop_lem 4 payload v h (omega arith)

write_var_long_loop_lem :
    (k : ℕ) (payload : List ℕ) (v : ℕ)
    → v < 2 ^ 64
    → v < 128 ^ suc k
    → write_var_long_loop (suc k) payload v ≡ ok (payload ++ encode k v)
unfolding write_var_long_loop encode
write_var_long_loop_lem zero payload v h hk = ground (arith, is_last_64 v)
write_var_long_loop_lem (suc k) payload v h hk = ground (
  arith,
  is_last_64 v,
  group_byte_lem v,
  write_var_long_loop_lem k (payload ++ ((v % 128 + 128) ∷ [])) (v / 128),
  append_assoc payload ((v % 128 + 128) ∷ []) (encode k (v / 128)),
)

pub write_var_long_to_buffer_lem :
    (payload : List ℕ) (v : ℕ)
    → v < 2 ^ 64
    → write_var_long_to_buffer payload v ≡ ok (payload ++ encode 9 v)
unfolding write_var_long_to_buffer
write_var_long_to_buffer_lem payload v h = write_var_long_loop_lem 9 payload v h (omega arith)

write_front_loop_lem :
    (k fuel : ℕ) (bytes : List ℕ) (v : ℕ)
    → k < fuel
    → v < 2 ^ 31
    → v < 128 ^ suc k
    → write_front_loop fuel bytes v ≡ ok (bytes ++ encode k v)
unfolding write_front_loop encode
write_front_loop_lem k zero bytes v hf h hk = absurd (omega arith)
write_front_loop_lem zero (suc fuel) bytes v hf h hk = ground (arith, is_last_32 v, low_seven v)
write_front_loop_lem (suc k) (suc fuel) bytes v hf h hk = ground (
  arith,
  is_last_32 v,
  low_seven v,
  group_byte_lem v,
  write_front_loop_lem k fuel (bytes ++ ((v % 128 + 128) ∷ [])) (v / 128),
  append_assoc bytes ((v % 128 + 128) ∷ []) (encode k (v / 128)),
)

-- A number that is not negative goes in front of the buffer, whatever fuel from five on is given.
pub write_var_int_to_front_lem :
    (fuel : ℕ) (buffer : List ℕ) (v : ℕ)
    → 5 ≤ fuel
    → v < 2 ^ 31
    → write_var_int_to_front fuel buffer v ≡ ok (encode 4 v ++ buffer)
unfolding write_var_int_to_front
write_var_int_to_front_lem fuel buffer v hf h =
    rw (write_front_loop_lem 4 fuel [] v hf h (omega arith))

write_front_loop_negative :
    (fuel : ℕ) (bytes : List ℕ) (v : ℕ)
    → 2 ^ 31 ≤ v
    → v < 2 ^ 32
    → write_front_loop fuel bytes v ≡ endless
unfolding write_front_loop
write_front_loop_negative zero bytes v h hv = refl
write_front_loop_negative (suc fuel) bytes v h hv = ground (
  arith,
  is_last_32 v,
  write_front_loop_negative fuel (bytes ++ (group_byte v ∷ [])) (shift_right_signed v),
)

-- On a negative int32_t the sign bits keep coming in, and no number of rounds is enough.
pub write_var_int_to_front_negative :
    (fuel : ℕ) (buffer : List ℕ) (v : ℕ)
    → 2 ^ 31 ≤ v
    → v < 2 ^ 32
    → write_var_int_to_front fuel buffer v ≡ endless
unfolding write_var_int_to_front
write_var_int_to_front_negative fuel buffer v h hv = rw (write_front_loop_negative fuel [] v h hv)
