-- ===== src/Examples/Servers.antt =====
-- The properties of the relay and the login server, applied.
use cerios_cluster.Common.{
  replicate, ℕ, ◌^◌, ◌<◌, List, [], ◌∷◌, ◌++◌, true, none, some, length, ◌≡◌, refl, arith,
}
use cerios_cluster.Common.Outcome.{ok, undefined}
use cerios_cluster.McPacket.Base.{login, play}
use cerios_cluster.Examples.{an_environment, a_host, a_turn}
use cerios_cluster.McPacket.VarInt.Encoding.{encode}
use cerios_cluster.InternalComms.{Message, get_message_id, get_player_id, get_payload, message_id}
use cerios_cluster.Gateway.Pointers.{entry, put, touch, pointer, erase}
use cerios_cluster.Gateway.Client.{client_server, async_write, emit}
use cerios_cluster.Gateway.Client.Login.{same_bytes}
use cerios_cluster.Gateway.Relay.{
  Clients, is_mc_packet, send_shutdown_signal, on_data_received, handle_message,
}
use cerios_cluster.Gateway.Relay.Messages.{handle_message_unknown, handle_message_clear}
use cerios_cluster.Gateway.Relay.Welcome.{welcomed}
use cerios_cluster.ClientServer.{send_to, gateway_port, send_node_packet}
use cerios_cluster.ClientServer.Listen.{node_packet_reaches_player}
use cerios_cluster.Gateway.LoginServer.{same_handle, set_owner, hand_off_client}
use cerios_cluster.Gateway.LoginServer.HandOff.{hand_off_client_clear}

abbrev a_relayed : Message
a_relayed = record {
  header = record { id = 3; packet_number = 0; player_uuid = b'x' ∷ []; payload_length = 2 };
  payload = 0 ∷ 7 ∷ [];
}

abbrev no_clients : Clients (Unit {0})
no_clients = []

abbrev one_client : Clients (Unit {0})
one_client = (b'x' ∷ [], some (a_turn play)) ∷ []

nobody_there : entry same_bytes (get_player_id a_relayed) no_clients ≡ none
unfolding entry
nobody_there = refl

handle_message_unknown_example :
    (handle_message a_host 9 no_clients a_relayed
      ≡ ok (touch same_bytes (get_player_id a_relayed) no_clients))
    × (send_shutdown_signal (touch same_bytes (get_player_id a_relayed) no_clients) ≡ undefined)
handle_message_unknown_example = handle_message_unknown a_host 9 no_clients a_relayed nobody_there

found_there : pointer same_bytes (get_player_id a_relayed) one_client ≡ some (a_turn play)
unfolding pointer same_bytes get_player_id
found_there = refl

relays_packet : is_mc_packet (get_message_id a_relayed) ≡ true
unfolding is_mc_packet get_message_id message_id
relays_packet = refl

payload_small : length (get_payload a_relayed) < 2 ^ 21
unfolding get_payload
payload_small = omega arith

handle_message_clear_example :
    handle_message a_host 9 one_client a_relayed
    ≡ ok (
        put same_bytes
          (get_player_id a_relayed)
          (some (
            emit
              (a_turn play)
              (async_write (encode 4 (length (get_payload a_relayed)) ++ get_payload a_relayed))))
          (touch same_bytes (get_player_id a_relayed) one_client))
handle_message_clear_example =
    handle_message_clear a_host 9 one_client a_relayed (a_turn play) found_there relays_packet
      (refl, refl, refl) payload_small

pending_there : pointer same_handle 4 ((4, some (a_turn login)) ∷ []) ≡ some (a_turn login)
unfolding pointer
pending_there = refl

hand_off_client_clear_example :
    hand_off_client a_host 9 an_environment ((4, some (a_turn login)) ∷ []) no_clients 4
    ≡ ok (
      erase same_handle 4 ((4, some (a_turn login)) ∷ []),
      put same_bytes
          (a_turn login).client.userid
          (some (welcomed a_host 9 an_environment (set_owner (a_turn login) client_server)))
          no_clients,
    )
hand_off_client_clear_example =
    hand_off_client_clear a_host 9 an_environment ((4, some (a_turn login)) ∷ []) no_clients 4
      (a_turn login) pending_there (refl, refl, refl)

abbrev a_game_message : Message
a_game_message = record {
  header = record {
    id = 3;
    packet_number = 0;
    player_uuid = replicate 36 b'a';
    payload_length = 2;
  };
  payload = 0 ∷ 7 ∷ [];
}

abbrev the_player : Clients (Unit {0})
the_player = (replicate 36 b'a', some (a_turn play)) ∷ []

player_there : pointer same_bytes (get_player_id a_game_message) the_player ≡ some (a_turn play)
unfolding pointer same_bytes get_player_id
player_there = refl

is_game_message : is_mc_packet (get_message_id a_game_message) ≡ true
unfolding is_mc_packet get_message_id message_id
is_game_message = refl

game_message_small : length (get_payload a_game_message) < 2 ^ 21
unfolding get_payload
game_message_small = omega arith

node_packet_reaches_player_example :
    (bytes : List ℕ) × ((send_node_packet [] a_game_message 7
        ≡ ok (send_to 7 gateway_port bytes ∷ []))
      × (on_data_received a_host 9 the_player bytes
          ≡ ok (
              put same_bytes
                (get_player_id a_game_message)
                (some (
                  emit (a_turn play) (
                    async_write (
                      encode 4 (length (get_payload a_game_message))
                      ++ get_payload a_game_message))))
                (touch same_bytes (get_player_id a_game_message) the_player))))
node_packet_reaches_player_example =
    node_packet_reaches_player a_host 9 the_player [] a_game_message 7 (a_turn play)
      (record { uuid_fits = refl; counts = refl; fits = omega arith }) is_game_message
      game_message_small player_there (refl, refl, refl)
