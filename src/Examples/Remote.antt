-- ===== src/Examples/Remote.antt =====
-- The login of a player from elsewhere that knows the token of its client, call by call: from the
-- constructor to the hand-off.
use cerios_cluster.Gateway.Client.Auth.{auth_with_mojang, connect_for, auth_request}
use cerios_cluster.Gateway.Client.Login.{
  accept_token, by_state, check_token, copy_token, finish_encryption, in_handshake, in_login,
  on_packet_received, received_message, received_other, same_bytes, set_keys, start_login,
  on_has_joined_post_complete,
}
use cerios_cluster.Gateway.Client.Receive.{
  caught, handle_parsed, next_message, parse_next, take_data, on_length_receive,
}
use cerios_cluster.Gateway.Client.Send.{on_player_login, send_packet}
use cerios_cluster.Gateway.Digest.{hex_str, hexmap, session_hash, strip_zeros}
use cerios_cluster.Gateway.Uuid.{all_xdigits, dashed, format_uuid, matches_uuid}
use cerios_cluster.McPacket.Base.{
  client_state, frame_packet, packet_from_buffer, read_pod, read_var_int, serialize_base, login,
  play,
}
use cerios_cluster.McPacket.Classes.{base_of, serialize}
use cerios_cluster.McPacket.Messages.Login.{
  Encryption, parse_encryption, parse_login_start, serialize_encryption, serialize_login_success,
  stale_token,
}
use cerios_cluster.McPacket.Messages.Session.{parse_handshake}
use cerios_cluster.McPacket.Messages.Text.{text_if_there, text_unchecked, write_text}
use cerios_cluster.McPacket.Parse.{parse_packet, parse_plain}
use cerios_cluster.McPacket.Registry.{instantiate_from_data, instantiate_new}
use cerios_cluster.McPacket.VarInt.Encoding.{encode}
use cerios_cluster.McPacket.VarInt.{
  get_var_int_size, read_var_int_from_buffer, read_var_int_loop, write_buffer_length_to_front,
  write_front_loop, write_var_int_to_buffer, write_var_int_to_front,
}
use cerios_cluster.Common.{ℕ, List, [], ◌∷◌, ◌++◌, true, false, some, replicate, ◌≡◌, refl, arith}
use cerios_cluster.Common.Text.{codes}
use cerios_cluster.Common.Outcome.{ok}
use cerios_cluster.Examples.{an_environment, a_host, a_packet}
use cerios_cluster.Gateway.Host.{Host}
use cerios_cluster.Gateway.Client.{
  Turn, Effect, login_server, new_client, start_read, async_write, async_write_freed, https_connect,
  emit, https_handshake, https_write, https_read_header, https_read_body, timer_wait, hand_off,
}
use cerios_cluster.Gateway.Client.Https.{
  connected_to_mojang, ssl_handshake_complete, send_http_request_done, read_http_header,
  split_colon, has_reason, is_space,
}
use cerios_cluster.Gateway.Client.Https.Length.{answer, read_http_header_ok}
use cerios_cluster.Gateway.Client.Login.Loopback.{success_frame}
use cerios_cluster.Gateway.Session.{
  Reachable, here, next, received, connected, shaken, requested, header_read, answered,
}
use cerios_cluster.Gateway.Session.Safety.{Reachable-IsSession}
use cerios_cluster.Gateway.Session.Facts.{IsSession}

-- A host at which the session server knows Bob
abbrev a_server : Host
a_server = record a_host { player_info = λ bytes. some (replicate 32 b'a', codes "Bob") }

abbrev remote_turn : Turn (Unit {0})
remote_turn = new_client {Cipher = Unit {0}} login_server false 95 []

abbrev asked_login : Turn (Unit {0})
asked_login = record {
  client = record remote_turn.client { state = login };
  effects = start_read ∷ start_read ∷ [];
}

abbrev named_turn : Turn (Unit {0})
named_turn = record {
  client = record asked_login.client {
    requested_username = codes "Bob";
    verify_token = 4 ∷ 5 ∷ 6 ∷ 7 ∷ [];
  };
  effects = asked_login.effects ++ (async_write (1 ∷ 1 ∷ []) ∷ start_read ∷ []);
}

abbrev a_hash : List ℕ
a_hash = codes "-37fefefefefefefefefefefefefefefefefefeff"

abbrev a_request : List ℕ
a_request = auth_request (codes "Bob") a_hash

abbrev question_turn : Turn (Unit {0})
question_turn = record {
  client = record named_turn.client { encrypt_context = some tt; decrypt_context = some tt };
  effects = named_turn.effects ++ (https_connect a_request ∷ start_read ∷ []);
}

step_handshake :
    on_length_receive a_server 9 an_environment remote_turn
      (6 ∷ 0 ∷ 47 ∷ 0 ∷ 99 ∷ 221 ∷ 2 ∷ [])
      false
    ≡ ok asked_login
unfolding new_client on_length_receive take_data next_message read_var_int_from_buffer
    read_var_int_loop parse_next parse_packet parse_plain packet_from_buffer instantiate_from_data
    parse_handshake read_var_int text_unchecked read_pod handle_parsed caught received_message
    received_other on_packet_received by_state in_handshake client_state
step_handshake = refl

step_name :
    on_length_receive a_server 9 an_environment asked_login (5 ∷ 0 ∷ 3 ∷ codes "Bob") false
    ≡ ok named_turn
unfolding new_client on_length_receive take_data next_message read_var_int_from_buffer
    read_var_int_loop parse_next parse_packet parse_plain packet_from_buffer instantiate_from_data
    parse_login_start read_var_int handle_parsed caught received_message received_other
    on_packet_received by_state in_login start_login instantiate_new send_packet serialize
    serialize_encryption serialize_base write_var_int_to_buffer frame_packet
    write_buffer_length_to_front get_var_int_size base_of write_var_int_to_front write_front_loop
    text_if_there
step_name = refl

step_question :
    on_length_receive a_server 9 an_environment named_turn
      (23 ∷ 1 ∷ 16 ∷ (replicate 16 8 ++ (4 ∷ 4 ∷ 5 ∷ 6 ∷ 7 ∷ [])))
      false
    ≡ ok question_turn
unfolding new_client on_length_receive take_data next_message read_var_int_from_buffer
    read_var_int_loop parse_next parse_packet parse_plain packet_from_buffer instantiate_from_data
    parse_encryption read_var_int text_unchecked handle_parsed caught received_message
    received_other on_packet_received by_state in_login finish_encryption check_token copy_token
    accept_token same_bytes stale_token set_keys session_hash strip_zeros hex_str hexmap
    auth_with_mojang connect_for
step_question = refl

-- The exchange with the session server
abbrev connected_turn : Turn (Unit {0})
connected_turn = emit question_turn (https_handshake a_request)

abbrev shaken_turn : Turn (Unit {0})
shaken_turn = emit connected_turn (https_write a_request)

abbrev requested_turn : Turn (Unit {0})
requested_turn = emit shaken_turn https_read_header

abbrev header_turn : Turn (Unit {0})
header_turn = emit requested_turn (https_read_body 120 [])

abbrev bobs_id : List ℕ
bobs_id = codes "aaaaaaaa-aaaa-aaaa-aaaa-aaaaaaaaaaaa"

-- What the client has asked for before the hand-off
abbrev before_hand_off : List Effect
before_hand_off =
    header_turn.effects
    ++ (async_write_freed (success_frame bobs_id (codes "Bob")) ∷ timer_wait ∷ [])

abbrev joined_turn : Turn (Unit {0})
joined_turn = record {
  client = record question_turn.client {
    userid = bobs_id;
    encrypted = true;
    state = play;
    last_seen = 100;
  };
  effects = before_hand_off ++ (hand_off login_server ∷ []);
}

abbrev an_answer : List ℕ
an_answer = answer (codes "200") (codes "OK" ++ (13 ∷ [])) [] (codes "120") [] []

step_header : read_http_header requested_turn an_answer false ≡ ok header_turn
unfolding new_client split_colon has_reason is_space
step_header =
    read_http_header_ok requested_turn (codes "200") (codes "OK" ++ (13 ∷ [])) [] (codes "120") []
      [] refl refl (omega arith) refl refl refl refl tt tt tt refl (omega arith) (omega arith)

step_joined :
    on_has_joined_post_complete a_server 9 an_environment header_turn [] true true 0
    ≡ ok joined_turn
unfolding new_client on_has_joined_post_complete on_player_login instantiate_new serialize
    serialize_login_success serialize_base write_var_int_to_buffer write_text format_uuid
    matches_uuid all_xdigits dashed frame_packet write_buffer_length_to_front get_var_int_size
    base_of write_var_int_to_front write_front_loop encode
step_joined = refl

joined_turn-Reachable : Reachable a_server joined_turn
unfolding connected_to_mojang ssl_handshake_complete send_http_request_done
joined_turn-Reachable = (
  login_server,
  false,
  95,
  [],
  next
      (next
        (next
          (next
            (next
              (next
                (next
                  (next here (
                    received 9 an_environment (6 ∷ 0 ∷ 47 ∷ 0 ∷ 99 ∷ 221 ∷ 2 ∷ []) false
                      step_handshake))
                  (received 9 an_environment (5 ∷ 0 ∷ 3 ∷ codes "Bob") false step_name))
                (received 9 an_environment
                  (23 ∷ 1 ∷ 16 ∷ (replicate 16 8 ++ (4 ∷ 4 ∷ 5 ∷ 6 ∷ 7 ∷ []))) false step_question))
              (connected a_request false refl))
            (shaken a_request false refl))
          (requested false refl))
        (header_read an_answer false refl step_header))
      (answered 9 an_environment [] true true 0 refl step_joined),
)

Reachable-IsSession_example : IsSession false joined_turn
Reachable-IsSession_example = Reachable-IsSession a_server joined_turn joined_turn-Reachable

-- The answer with Bob's token
abbrev the_answer : Encryption
the_answer = record {
  base = a_packet 1;
  server_id = [];
  public_key = [];
  clear_verify_token = 0 ∷ 0 ∷ 0 ∷ 0 ∷ [];
  clear_shared_secret = [];
  sealed_verify_token = 4 ∷ 5 ∷ 6 ∷ 7 ∷ [];
  sealed_shared_secret = replicate 16 8;
}
