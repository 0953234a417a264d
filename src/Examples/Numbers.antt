-- ===== src/Examples/Numbers.antt =====
-- The properties of the variable-length integers and the bit fields, applied.
use cerios_cluster.Common.{
  ◌+◌, ◌-◌, ◌/◌, ◌^◌, [], ◌∷◌, ◌++◌, true, ltb, if◌then◌else◌, length, ◌≡◌, ◌⊎◌, refl, arith,
}
use cerios_cluster.Common.Outcome.{ok, ◌>>=◌}
use cerios_cluster.McPacket.VarInt.{
  write_var_int_to_buffer, read_var_int_from_buffer, get_var_int_size,
}
use cerios_cluster.McPacket.VarInt.Encoding.{encode}
use cerios_cluster.McPacket.VarInt.Read.{Reads, read_var_int_from_buffer_total}
use cerios_cluster.McPacket.VarInt.Size.{get_var_int_size-length}
use cerios_cluster.McPacket.VarInt.RoundTrip.{read-write}
use cerios_cluster.Examples.{an_environment}
use cerios_cluster.McPacket.BitField.Wide.{get_z-position, position_flat}
use cerios_cluster.McPacket.BitField.{position, get_x, get_y, get_z}
use cerios_cluster.ClientServer.GameState.{
  set_gamemode, set_hardcore_flag, gamemode, hardcore_flag, gamemode_byte,
}
use cerios_cluster.ClientServer.GameState.Mode.{set_hardcore_flag-set_gamemode}

read-write_example :
    (write_var_int_to_buffer [] 300 >>= λ payload.
    read_var_int_from_buffer (payload ++ (5 ∷ [])) true)
    ≡ ok (record { count = length (encode 4 300); value = 300; buffer = 5 ∷ [] })
read-write_example = read-write 300 (5 ∷ []) (omega arith)

read_var_int_from_buffer_total_example :
    Reads (172 ∷ (2 ∷ (5 ∷ []))) true (read_var_int_from_buffer (172 ∷ (2 ∷ (5 ∷ []))) true)
read_var_int_from_buffer_total_example = read_var_int_from_buffer_total (172 ∷ (2 ∷ (5 ∷ []))) true

get_z-position_example :
    (get_z (position an_environment 0 1 64 5) ≡ 0)
    ⊎ (get_z (position an_environment 0 1 64 5) ≡ 2 ^ 26 - 1)
get_z-position_example = get_z-position an_environment 0 1 64 5

position_flat_example :
    (get_x (position an_environment 0 7 40 0) ≡ 7)
    × (get_y (position an_environment 0 7 40 0) ≡ 40 + (if ltb 40 32 then 0 else 4032))
position_flat_example = position_flat an_environment 0 7 40 0 (omega arith) (omega arith) refl

set_hardcore_flag-set_gamemode_example :
    let both = set_hardcore_flag (set_gamemode an_environment 80 1) true in
    (set_gamemode an_environment (set_hardcore_flag 80 true) 1 ≡ both)
    × (gamemode both ≡ 1)
    × (hardcore_flag both ≡ true)
    × (gamemode_byte both ≡ 9)
    × (both / 16 ≡ 5)
set_hardcore_flag-set_gamemode_example =
    set_hardcore_flag-set_gamemode an_environment 80 1 true (omega arith)

get_var_int_size-length_example : get_var_int_size 300 ≡ length (encode 4 300)
get_var_int_size-length_example = get_var_int_size-length 300 (omega arith)
