-- ===== src/McPacket/Messages/World/RoundTrip.antt =====
-- Sending and parsing the packets of MCPacket/ that are used in play.
use cerios_cluster.Common.{
  ℕ, ◌^◌, ◌<◌, List, [], ◌++◌, append_assoc, append-nil, length, ◌≡◌, arith,
}
use cerios_cluster.Common.Outcome.{ok, ◌>>=◌}
use cerios_cluster.McPacket.Base.{
  Packet, Side, client_bound, server_bound, bi_directional, to_bytes, write_pod,
}
use cerios_cluster.McPacket.Base.Pod.{read_pod-to_bytes}
use cerios_cluster.McPacket.Base.Header.{serialize_base_lem}
use cerios_cluster.McPacket.Messages.Text.{
  coded, write_text_lem, text_if_there-append, erase_if_there-append, read_coded,
}
use cerios_cluster.McPacket.Messages.Wire.{written, arrived, receive, receive-written}
use cerios_cluster.McPacket.Messages.World.{
  JoinGame, serialize_join_game, parse_join_game, ChatMessage, serialize_chat_message,
  write_position,
}

-- The five plain values in front of a join-game packet's text.
abbrev pub join_values : JoinGame → List ℕ → List ℕ
join_values m rest =
    to_bytes 4 m.player_entity_id
    ++ (to_bytes 1 m.gamemode
        ++ (to_bytes 1 m.dimension_id
            ++ (to_bytes 1 m.difficulty ++ (to_bytes 1 m.max_players_on_player_list ++ rest))))

abbrev pub join_body : JoinGame → List ℕ
join_body m = join_values m (coded m.level_type ++ to_bytes 1 m.reduced_debug_info)

-- The members fit their C++ types.
pub record IsJoinGame (m : JoinGame) : Type 0 where
  pub id_fits : m.base.packet_id < 2 ^ 32
  pub entity_fits : m.player_entity_id < 2 ^ 32
  pub mode_fits : m.gamemode < 2 ^ 8
  pub dimension_fits : m.dimension_id < 2 ^ 8
  pub difficulty_fits : m.difficulty < 2 ^ 8
  pub players_fit : m.max_players_on_player_list < 2 ^ 8
  pub level_fits : length m.level_type < 2 ^ 31
  pub debug_fits : m.reduced_debug_info < 2 ^ 8

pub serialize_join_game_lem :
    (m : JoinGame)
    → IsJoinGame m
    → serialize_join_game m ≡ ok (record m { base = written m.base.packet_id (join_body m) })
unfolding serialize_join_game write_pod
serialize_join_game_lem m v =
    rw (serialize_base_lem m.base v.id_fits, write_text_lem _ m.level_type (omega arith))
      (simp append_assoc)

pub parse_join_game_lem :
    (m : JoinGame)
    → IsJoinGame m
    → parse_join_game (arrived m.base.packet_id (join_body m))
      ≡ ok (record m { base = arrived m.base.packet_id [] })
unfolding parse_join_game
parse_join_game_lem m v =
    let p : Packet = arrived m.base.packet_id [] in
    let tail : List ℕ = coded m.level_type ++ to_bytes 1 m.reduced_debug_info in
    let r₄ : List ℕ = to_bytes 1 m.max_players_on_player_list ++ tail in
    let r₃ : List ℕ = to_bytes 1 m.difficulty ++ r₄ in
    let r₂ : List ℕ = to_bytes 1 m.dimension_id ++ r₃ in
    rw (
      read_pod-to_bytes 4 m.player_entity_id 0 p (to_bytes 1 m.gamemode ++ r₂) (omega arith),
      read_pod-to_bytes 1 m.gamemode 0 p r₂ (omega arith),
      read_pod-to_bytes 1 m.dimension_id 0 p r₃ (omega arith),
      read_pod-to_bytes 1 m.difficulty 0 p r₄ (omega arith),
      read_pod-to_bytes 1 m.max_players_on_player_list 255 p tail (omega arith),
      read_coded p m.level_type (to_bytes 1 m.reduced_debug_info) v.level_fits,
      text_if_there-append p m.level_type (to_bytes 1 m.reduced_debug_info) v.level_fits,
      erase_if_there-append p m.level_type (to_bytes 1 m.reduced_debug_info) v.level_fits,
      ← append-nil (to_bytes 1 m.reduced_debug_info),
      read_pod-to_bytes 1 m.reduced_debug_info 0 p [] (omega arith),
    )

-- A join-game packet arrives as it was sent.
pub receive-serialize_join_game :
    (m : JoinGame) (rest : List ℕ)
    → IsJoinGame m
    → (do sent ← serialize_join_game m; receive sent.base rest parse_join_game)
      ≡ ok (record m { base = arrived m.base.packet_id [] }, rest)
receive-serialize_join_game m rest v = rw (
  serialize_join_game_lem m v,
  receive-written m.base.packet_id (join_body m) rest parse_join_game v.id_fits,
  parse_join_game_lem m v,
)

-- The byte behind the text, for the client alone.
abbrev pub position_byte : Side → ChatMessage → List ℕ
position_byte client_bound m = to_bytes 1 m.chat_position
position_byte server_bound m = []
position_byte bi_directional m = []

pub serialize_chat_message_lem :
    (side : Side) (m : ChatMessage)
    → m.base.packet_id < 2 ^ 32
    → length m.json_chat_data < 2 ^ 32
    → serialize_chat_message side m
      ≡ ok (record m {
        base = written m.base.packet_id (coded m.json_chat_data ++ position_byte side m);
      })
unfolding serialize_chat_message write_position write_pod
serialize_chat_message_lem client_bound m hid hj =
    rw (serialize_base_lem m.base hid, write_text_lem _ m.json_chat_data hj) (simp append_assoc)
serialize_chat_message_lem server_bound m hid hj =
    rw (serialize_base_lem m.base hid, write_text_lem _ m.json_chat_data hj)
      (simp (append_assoc, append-nil))
serialize_chat_message_lem bi_directional m hid hj =
    rw (serialize_base_lem m.base hid, write_text_lem _ m.json_chat_data hj)
      (simp (append_assoc, append-nil))
