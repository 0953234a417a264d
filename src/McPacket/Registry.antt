-- ===== src/McPacket/Registry.antt =====
-- MCPacket/Packet.hpp and Packet.cpp: the registry of packet classes, and the lookups in it.
pub mod Keys
use cerios_cluster.Common.{
  ℕ, List, [], ◌∷◌, Bool, true, false, Option, none, some, ◌&&◌, ◌==◌, if◌then◌else◌,
}
use cerios_cluster.Common.Outcome.{Outcome, ok, ◌>>=◌}
use cerios_cluster.McPacket.Base.{
  Packet, Environment, Side, client_bound, server_bound, bi_directional, ClientState, handshake,
  status, login, play, unnamed,
}
use cerios_cluster.McPacket.Classes.{
  Class, handshake_packet, server_status_packet, ping_packet, login_start_packet, encryption_packet,
  login_success_packet, set_compression_packet, keep_alive_packet, join_game_packet,
  chat_message_packet, spawn_position_packet, player_position_and_look_packet,
  player_abilities_packet, AnyPacket, make, parse,
}

pub record Key : Type 0 where
  pub side : Side
  pub state : ClientState
  pub id : ℕ

unfoldable pub side_eq : Side → Side → Bool
side_eq client_bound client_bound = true
side_eq server_bound server_bound = true
side_eq bi_directional bi_directional = true
side_eq _ _ = false

unfoldable pub state_eq : ClientState → ClientState → Bool
state_eq handshake handshake = true
state_eq status status = true
state_eq login login = true
state_eq play play = true
state_eq (unnamed m) (unnamed n) = m == n
state_eq _ _ = false

unfoldable pub key_eq : Key → Key → Bool
unfolding side_eq state_eq
key_eq a b = side_eq a.side b.side && state_eq a.state b.state && a.id == b.id

abbrev pub Registry : Type 0
Registry = List (Key × Class)

-- `registry().find(key)`
unfoldable pub find : Key → Registry → Option Class
unfolding key_eq
find k [] = none
find k ((j, c) ∷ r) = if key_eq j k then some c else find k r

-- `registry()[key] = …`
unfoldable pub registrate : Key → Class → Registry → Registry
unfolding key_eq
registrate k c [] = (k, c) ∷ []
registrate k c ((j, d) ∷ r) = if key_eq j k then (k, c) ∷ r else (j, d) ∷ registrate k c r

abbrev pub key : Side → ClientState → ℕ → Key
key side state id = record { side = side; state = state; id = id }

unfoldable pub registrate_all : List (Key × Class) → Registry → Registry
unfolding registrate
registrate_all [] r = r
registrate_all ((k, c) ∷ rest) r = registrate_all rest (registrate k c r)

-- The static registrars of Packet.cpp, in their order.
abbrev pub registrars : List (Key × Class)
registrars =
    (key server_bound handshake 0x00, handshake_packet)
    ∷ (key bi_directional status 0x00, server_status_packet)
    ∷ (key bi_directional status 0x01, ping_packet)
    ∷ (key server_bound login 0x00, login_start_packet)
    ∷ (key bi_directional login 0x01, encryption_packet)
    ∷ (key client_bound login 0x02, login_success_packet)
    ∷ (key client_bound login 0x03, set_compression_packet)
    ∷ (key bi_directional play 0x00, keep_alive_packet)
    ∷ (key client_bound play 0x01, join_game_packet)
    ∷ (key client_bound play 0x02, chat_message_packet)
    ∷ (key server_bound play 0x01, chat_message_packet)
    ∷ (key client_bound play 0x05, spawn_position_packet)
    ∷ (key client_bound play 0x08, player_position_and_look_packet)
    ∷ (key client_bound play 0x39, player_abilities_packet)
    ∷ (key client_bound play 0x46, set_compression_packet)
    ∷ []

unfoldable pub registry : Registry
unfolding registrate_all
registry = registrate_all registrars []

-- The search under the side, and then under both sides.
unfoldable pub lookup : Side → ClientState → ℕ → Option Class
unfolding find registry
lookup side state id = elim (find (key side state id) registry) [
  | some c ↦ some c
  | none ↦ find (key bi_directional state id) registry
]

-- instantiateFromData
unfoldable pub instantiate_from_data :
    Environment → Side → ClientState → Packet → Outcome (Option AnyPacket)
unfolding lookup parse
instantiate_from_data env side state in_progress = elim (lookup side state in_progress.packet_id) [
  | none ↦ ok none
  | some c ↦ parse env c side in_progress >>= λ m. ok (some m)
]

-- instantiateNew
unfoldable pub instantiate_new : Environment → Side → ClientState → ℕ → Option AnyPacket
unfolding lookup make
instantiate_new env side state packet_id = elim (lookup side state packet_id) [
  | none ↦ none
  | some c ↦ some (make env c side)
]
