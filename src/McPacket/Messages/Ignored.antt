-- ===== src/McPacket/Messages/Ignored.antt =====
-- Constructors of MCPacket/ that read values and drop them: SpawnPositionPacket.cpp,
-- PlayerPositionAndLookPacket.cpp, PlayerAbilitiesPacket.cpp and the position of ChatMessagePacket.cpp.
use cerios_cluster.Common.{ℕ, ◌<◌, ◌^◌, List, [], ◌++◌, Bool, true, length, ◌≡◌, refl, arith}
use cerios_cluster.Common.Outcome.{ok}
use cerios_cluster.McPacket.Base.{
  Packet, Environment, Side, client_bound, server_bound, bi_directional, read_pod, reset_buffer,
}
use cerios_cluster.McPacket.Messages.Text.{coded, text_if_there-append, read_coded, erase_if_there}
use cerios_cluster.McPacket.Messages.Wire.{arrived}
use cerios_cluster.McPacket.Messages.World.{
  parse_spawn_position, make_spawn_position, parse_chat_message, skip_position,
}
use cerios_cluster.McPacket.Messages.Player.{parse_player_position_and_look, parse_player_abilities}

-- Reading a value changes the payload alone.
reset-read_pod :
    (size other : ℕ) (p : Packet) (consume : Bool)
    → reset_buffer (read_pod size p other consume).1 ≡ reset_buffer p
unfolding read_pod
reset-read_pod size other p consume = ground arith

-- A spawn position is parsed to the default position whatever the packet says.
pub parse_spawn_position_ignores :
    (env : Environment) (p : Packet)
    → parse_spawn_position env p
      ≡ record (make_spawn_position env) { base = arrived p.packet_id [] }
unfolding parse_spawn_position make_spawn_position
parse_spawn_position_ignores env p = rw (reset-read_pod 8)

-- Two abilities packets of one id are parsed alike whatever they say.
pub parse_player_abilities_ignores :
    (env : Environment) (id : ℕ) (said other : List ℕ)
    → parse_player_abilities env (arrived id said) ≡ parse_player_abilities env (arrived id other)
unfolding parse_player_abilities
parse_player_abilities_ignores env id said other = simp reset-read_pod

-- So are two position-and-look packets.
pub parse_player_position_and_look_ignores :
    (env : Environment) (id : ℕ) (said other : List ℕ)
    → parse_player_position_and_look env (arrived id said)
      ≡ parse_player_position_and_look env (arrived id other)
unfolding parse_player_position_and_look
parse_player_position_and_look_ignores env id said other = simp reset-read_pod

reset-skip_position :
    (env : Environment) (side : Side) (p : Packet)
    → reset_buffer (skip_position env side p) ≡ reset_buffer p
unfolding skip_position
reset-skip_position env client_bound p = reset-read_pod 1 (env.stale 0) p true
reset-skip_position env server_bound p = refl
reset-skip_position env bi_directional p = refl

reset-erase : (p : Packet) (len : ℕ) → reset_buffer (erase_if_there p len) ≡ reset_buffer p
unfolding erase_if_there
reset-erase p len = ground arith

-- The text of a chat message arrives; its position is what the memory held, for either side and
-- whatever follows the text.
pub parse_chat_message_lem :
    (env : Environment) (side : Side) (id : ℕ) (text extra : List ℕ)
    → length text < 2 ^ 31
    → parse_chat_message env side (arrived id (coded text ++ extra))
      ≡ ok (record { base = arrived id []; json_chat_data = text; chat_position = env.stale 0 })
unfolding parse_chat_message
parse_chat_message_lem env side id text extra h = rw (
  read_coded (arrived id []) text extra h,
  text_if_there-append (arrived id []) text extra h,
  reset-skip_position,
  reset-erase,
)
