-- ===== src/McPacket/Classes.antt =====
-- The packet classes of MCPacket/ as one type, and the calls that depend on the class.
--
-- A std::shared_ptr<Packet> is a value of `AnyPacket`: the constructor is the dynamic type, and a
-- dynamic_pointer_cast is a match. A pair of the pointers &D::newPacket and &D::parsePacket is the
-- `Class` D that they belong to.
use cerios_cluster.Common.Outcome.{Outcome, ok, ◌>>=◌}
use cerios_cluster.McPacket.Base.{Packet, Environment, Side}
use cerios_cluster.McPacket.Messages.Session.{
  Handshake, make_handshake, parse_handshake, serialize_handshake, ServerStatus, make_server_status,
  parse_server_status, serialize_server_status, Ping, make_ping, parse_ping, serialize_ping,
  KeepAlive, make_keep_alive, parse_keep_alive, serialize_keep_alive,
}
use cerios_cluster.McPacket.Messages.Login.{
  LoginStart, make_login_start, parse_login_start, serialize_login_start, Encryption,
  make_encryption, parse_encryption, serialize_encryption, LoginSuccess, make_login_success,
  parse_login_success, serialize_login_success, SetCompression, make_set_compression,
  parse_set_compression, serialize_set_compression,
}
use cerios_cluster.McPacket.Messages.World.{
  JoinGame, make_join_game, parse_join_game, serialize_join_game, SpawnPosition,
  make_spawn_position, parse_spawn_position, serialize_spawn_position, ChatMessage,
  make_chat_message, parse_chat_message, serialize_chat_message,
}
use cerios_cluster.McPacket.Messages.Player.{
  PlayerPositionAndLook, make_player_position_and_look, parse_player_position_and_look,
  serialize_player_position_and_look, PlayerAbilities, make_player_abilities,
  parse_player_abilities, serialize_player_abilities,
}

pub data Class : Type 0 where
  handshake_packet server_status_packet ping_packet login_start_packet encryption_packet : Class
  login_success_packet set_compression_packet keep_alive_packet join_game_packet : Class
  chat_message_packet spawn_position_packet player_position_and_look_packet : Class
  player_abilities_packet : Class

pub data AnyPacket : Type 0 where
  a_handshake : Handshake → AnyPacket
  a_server_status : ServerStatus → AnyPacket
  a_ping : Ping → AnyPacket
  a_login_start : LoginStart → AnyPacket
  an_encryption : Encryption → AnyPacket
  a_login_success : LoginSuccess → AnyPacket
  a_set_compression : SetCompression → AnyPacket
  a_keep_alive : KeepAlive → AnyPacket
  a_join_game : JoinGame → AnyPacket
  a_chat_message : ChatMessage → AnyPacket
  a_spawn_position : SpawnPosition → AnyPacket
  a_player_position_and_look : PlayerPositionAndLook → AnyPacket
  a_player_abilities : PlayerAbilities → AnyPacket

-- The part of the object that the base class owns
unfoldable pub base_of : AnyPacket → Packet
base_of (a_handshake m) = m.base
base_of (a_server_status m) = m.base
base_of (a_ping m) = m.base
base_of (a_login_start m) = m.base
base_of (an_encryption m) = m.base
base_of (a_login_success m) = m.base
base_of (a_set_compression m) = m.base
base_of (a_keep_alive m) = m.base
base_of (a_join_game m) = m.base
base_of (a_chat_message m) = m.base
base_of (a_spawn_position m) = m.base
base_of (a_player_position_and_look m) = m.base
base_of (a_player_abilities m) = m.base

-- `D::newPacket(side)`
unfoldable pub make : Environment → Class → Side → AnyPacket
unfolding make_handshake make_server_status make_ping make_login_start make_encryption
    make_login_success make_set_compression make_keep_alive make_join_game make_chat_message
    make_spawn_position make_player_position_and_look make_player_abilities
make env handshake_packet side = a_handshake (make_handshake env)
make env server_status_packet side = a_server_status make_server_status
make env ping_packet side = a_ping (make_ping env)
make env login_start_packet side = a_login_start make_login_start
make env encryption_packet side = an_encryption (make_encryption env)
make env login_success_packet side = a_login_success make_login_success
make env set_compression_packet side = a_set_compression make_set_compression
make env keep_alive_packet side = a_keep_alive (make_keep_alive env)
make env join_game_packet side = a_join_game make_join_game
make env chat_message_packet side = a_chat_message (make_chat_message env side)
make env spawn_position_packet side = a_spawn_position (make_spawn_position env)
make env player_position_and_look_packet side =
    a_player_position_and_look (make_player_position_and_look env)
make env player_abilities_packet side = a_player_abilities (make_player_abilities env)

-- `D::parsePacket(side, packetInProgress)`
unfoldable pub parse : Environment → Class → Side → Packet → Outcome AnyPacket
parse env handshake_packet side p = do m ← parse_handshake p; ok (a_handshake m)
parse env server_status_packet side p = ok (a_server_status (parse_server_status p))
parse env ping_packet side p = ok (a_ping (parse_ping env p))
parse env login_start_packet side p = do m ← parse_login_start p; ok (a_login_start m)
parse env encryption_packet side p = do m ← parse_encryption env side p; ok (an_encryption m)
parse env login_success_packet side p = do m ← parse_login_success p; ok (a_login_success m)
parse env set_compression_packet side p = do m ← parse_set_compression p; ok (a_set_compression m)
parse env keep_alive_packet side p = do m ← parse_keep_alive p; ok (a_keep_alive m)
parse env join_game_packet side p = do m ← parse_join_game p; ok (a_join_game m)
parse env chat_message_packet side p = do m ← parse_chat_message env side p; ok (a_chat_message m)
parse env spawn_position_packet side p = ok (a_spawn_position (parse_spawn_position env p))
parse env player_position_and_look_packet side p =
    ok (a_player_position_and_look (parse_player_position_and_look env p))
parse env player_abilities_packet side p = ok (a_player_abilities (parse_player_abilities env p))

-- The virtual serializePacket
unfoldable pub serialize : Side → AnyPacket → Outcome AnyPacket
serialize side (a_handshake m) = do m' ← serialize_handshake m; ok (a_handshake m')
serialize side (a_server_status m) = do m' ← serialize_server_status m; ok (a_server_status m')
serialize side (a_ping m) = do m' ← serialize_ping m; ok (a_ping m')
serialize side (a_login_start m) = do m' ← serialize_login_start m; ok (a_login_start m')
serialize side (an_encryption m) = do m' ← serialize_encryption side m; ok (an_encryption m')
serialize side (a_login_success m) = do m' ← serialize_login_success m; ok (a_login_success m')
serialize side (a_set_compression m) = do
  m' ← serialize_set_compression m
  ok (a_set_compression m')
serialize side (a_keep_alive m) = do m' ← serialize_keep_alive m; ok (a_keep_alive m')
serialize side (a_join_game m) = do m' ← serialize_join_game m; ok (a_join_game m')
serialize side (a_chat_message m) = do m' ← serialize_chat_message side m; ok (a_chat_message m')
serialize side (a_spawn_position m) = do m' ← serialize_spawn_position m; ok (a_spawn_position m')
serialize side (a_player_position_and_look m) = do
  m' ← serialize_player_position_and_look m
  ok (a_player_position_and_look m')
serialize side (a_player_abilities m) = do
  m' ← serialize_player_abilities m
  ok (a_player_abilities m')
