-- ===== src/McPacket/Messages/World.antt =====
-- Packets of the play state: JoinGamePacket, SpawnPositionPacket and ChatMessagePacket of MCPacket/.
pub mod RoundTrip
use cerios_cluster.Common.{
  ℕ, zero, suc, ◌+◌, ◌-◌, ◌*◌, ◌/◌, ◌%◌, ◌^◌, ◌<◌, ◌≤◌, List, [], ◌∷◌, ◌++◌, Bool, true, false, ltb,
  leb, if◌then◌else◌, length, take, drop, ◌&&◌, ◌||◌, not, ◌==◌,
}
use cerios_cluster.Common.Outcome.{Outcome, ok, undefined, ◌>>=◌}
use cerios_cluster.McPacket.Base.{
  Packet, Environment, Side, client_bound, server_bound, bi_directional, as_size, append_bytes,
  reset_buffer, new_base, copy_base, write_var_int, read_var_int, serialize_base, read_pod,
  write_pod,
}
use cerios_cluster.McPacket.Messages.Text.{
  has_bytes, text_if_there, erase_if_there, text_unchecked, write_text,
}
use cerios_cluster.McPacket.BitField.{default_position, assign_flag}

pub record JoinGame : Type 0 where
  pub base : Packet
  pub player_entity_id : ℕ
  pub gamemode : ℕ
  pub dimension_id : ℕ
  pub difficulty : ℕ
  pub max_players_on_player_list : ℕ
  pub level_type : List ℕ
  pub reduced_debug_info : ℕ

-- "default"
abbrev pub default_level : List ℕ
default_level = b'd' ∷ b'e' ∷ b'f' ∷ b'a' ∷ b'u' ∷ b'l' ∷ b't' ∷ []

unfoldable pub make_join_game : JoinGame
make_join_game = record {
  base = new_base 0x01;
  player_entity_id = 0;
  gamemode = 0;
  dimension_id = 0;
  difficulty = 0;
  max_players_on_player_list = 255;
  level_type = default_level;
  reduced_debug_info = 0;
}

-- A bool is read as the byte that stands for it.
unfoldable pub parse_join_game : Packet → Outcome JoinGame
parse_join_game in_progress = do
  let entity = read_pod 4 (copy_base in_progress) 0 true
  let mode = read_pod 1 entity.1 0 true
  let dimension = read_pod 1 mode.1 0 true
  let hardness = read_pod 1 dimension.1 0 true
  let players = read_pod 1 hardness.1 255 true
  (level_length, p) ← read_var_int players.1
  let debug = read_pod 1 (erase_if_there p level_length) 0 true
  ok (record {
    base = reset_buffer debug.1;
    player_entity_id = entity.0;
    gamemode = mode.0;
    dimension_id = dimension.0;
    difficulty = hardness.0;
    max_players_on_player_list = players.0;
    level_type = text_if_there p level_length;
    reduced_debug_info = debug.0;
  })

unfoldable pub serialize_join_game : JoinGame → Outcome JoinGame
serialize_join_game m = do
  b ← serialize_base m.base
  let b₁ = write_pod 4 b m.player_entity_id
  let b₂ = write_pod 1 b₁ m.gamemode
  let b₃ = write_pod 1 b₂ m.dimension_id
  let b₄ = write_pod 1 b₃ m.difficulty
  let b₅ = write_pod 1 b₄ m.max_players_on_player_list
  b₆ ← write_text b₅ m.level_type
  ok (record m { base = write_pod 1 b₆ m.reduced_debug_info })

pub record SpawnPosition : Type 0 where
  pub base : Packet
  pub spawn_position : ℕ

unfoldable pub make_spawn_position : Environment → SpawnPosition
make_spawn_position env = record {
  base = new_base 0x05;
  spawn_position = default_position env (env.stale 0);
}

-- The value that is read is not assigned: the position stays the default.
unfoldable pub parse_spawn_position : Environment → Packet → SpawnPosition
parse_spawn_position env in_progress =
    let position = default_position env (env.stale 0) in
    let ignored = read_pod 8 (copy_base in_progress) position true in
    record { base = reset_buffer ignored.1; spawn_position = position }

unfoldable pub serialize_spawn_position : SpawnPosition → Outcome SpawnPosition
serialize_spawn_position m = do
  b ← serialize_base m.base
  ok (record m { base = write_pod 8 b m.spawn_position })

pub record ChatMessage : Type 0 where
  pub base : Packet
  pub json_chat_data : List ℕ
  pub chat_position : ℕ

-- The id of a chat message sent in the given direction
unfoldable pub chat_id : Side → ℕ
chat_id server_bound = 0x01
chat_id client_bound = 0x02
chat_id bi_directional = 0x02

unfoldable pub make_chat_message : Environment → Side → ChatMessage
unfolding chat_id
make_chat_message env side = record {
  base = new_base (chat_id side);
  json_chat_data = [];
  chat_position = env.stale 0;
}

-- `if (side == CLIENT_BOUND)`: one more byte is read, and not assigned.
unfoldable pub skip_position : Environment → Side → Packet → Packet
skip_position env client_bound p = (read_pod 1 p (env.stale 0) true).1
skip_position env server_bound p = p
skip_position env bi_directional p = p

unfoldable pub parse_chat_message : Environment → Side → Packet → Outcome ChatMessage
unfolding skip_position
parse_chat_message env side in_progress = do
  (data_length, p) ← read_var_int (copy_base in_progress)
  ok (record {
    base = reset_buffer (skip_position env side (erase_if_there p data_length));
    json_chat_data = text_if_there p data_length;
    chat_position = env.stale 0;
  })

unfoldable pub write_position : Side → ℕ → Packet → Packet
write_position client_bound position b = write_pod 1 b position
write_position server_bound position b = b
write_position bi_directional position b = b

unfoldable pub serialize_chat_message : Side → ChatMessage → Outcome ChatMessage
unfolding write_position
serialize_chat_message side m = do
  b ← serialize_base m.base
  b' ← write_text b m.json_chat_data
  ok (record m { base = write_position side m.chat_position b' })
