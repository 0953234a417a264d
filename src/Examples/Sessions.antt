-- ===== src/Examples/Sessions.antt =====
-- The properties of a session, applied: a player of the loopback address that logs in.
use cerios_cluster.Common.{
  false, ℕ, ◌^◌, List, [], ◌∷◌, ◌++◌, true, ◌<◌, length, arith, ap, ◌≡◌, refl, ◌⊎◌,
}
use cerios_cluster.Common.Outcome.{ok, ◌>>=◌, Outcome}
use cerios_cluster.McPacket.Base.{
  login, packet_from_buffer, read_var_int, read_pod, client_state, server_bound,
}
use cerios_cluster.Examples.{an_environment, a_host}
use cerios_cluster.McPacket.VarInt.{read_var_int_from_buffer, read_var_int_loop}
use cerios_cluster.McPacket.Messages.Wire.{arrived}
use cerios_cluster.McPacket.Messages.Login.{LoginStart, parse_login_start}
use cerios_cluster.Gateway.Uuid.{offline_id, format_uuid, matches_uuid, all_xdigits, dashed}
use cerios_cluster.Gateway.Client.Login.Loopback.{named, logged_in, received_login_start_loopback}
use cerios_cluster.McPacket.VarInt.Encoding.{encode}
use cerios_cluster.Gateway.Digest.{make_hex_string}
use cerios_cluster.Gateway.Client.{
  with_client, on_write_complete, https_read_body, socket_cancel, Turn, login_server, new_client,
  start_read, set_state, emit,
}
use cerios_cluster.Gateway.Client.Receive.Framing.{frame}
use cerios_cluster.Gateway.Session.{Reachable, here, next, received}
use cerios_cluster.McPacket.Messages.Text.{coded, text_unchecked, text_if_there}
use cerios_cluster.Gateway.Session.Progress.{login_frame_hands_off}
use cerios_cluster.Gateway.Session.Safety.{receive_frame}
use cerios_cluster.Gateway.Session.Liveness.{reads_last, on_length_receive_goes_on}
use cerios_cluster.Common.Text.{codes}
use cerios_cluster.Gateway.Client.Https.{
  read_http_header, split_colon, has_reason, is_space, trim, skip_spaces, drop_last_spaces,
}
use cerios_cluster.Gateway.Client.Login.{
  same_bytes, received_message, received_other, by_state, in_handshake, on_packet_received,
}
use cerios_cluster.Gateway.Client.Https.Length.{answer, read_http_header_ok}
use cerios_cluster.Gateway.Client.Https.Status.{status_head, read_http_header_status}
use cerios_cluster.McPacket.Parse.{parse_packet, parse_plain}
use cerios_cluster.McPacket.Registry.{instantiate_from_data}
use cerios_cluster.McPacket.Messages.Session.{parse_handshake}
use cerios_cluster.Gateway.Client.Receive.{
  on_length_receive, take_data, next_message, parse_next, handle_parsed, caught,
}

-- A connection from the loopback address, and the same after a handshake that asks for a login
abbrev pub a_new_turn : Turn (Unit {0})
a_new_turn = new_client {Cipher = Unit {0}} login_server true 95 []

abbrev pub a_login_turn : Turn (Unit {0})
a_login_turn = record {
  client = record a_new_turn.client { state = login };
  effects = start_read ∷ start_read ∷ [];
}

abbrev pub a_handshake_frame : List ℕ
a_handshake_frame = 6 ∷ 0 ∷ 47 ∷ 0 ∷ 99 ∷ 221 ∷ 2 ∷ []

pub handshake_received :
    on_length_receive a_host 9 an_environment a_new_turn a_handshake_frame false ≡ ok a_login_turn
unfolding new_client on_length_receive take_data next_message read_var_int_from_buffer
    read_var_int_loop parse_next parse_packet parse_plain packet_from_buffer instantiate_from_data
    parse_handshake read_var_int text_unchecked read_pod handle_parsed caught received_message
    received_other by_state in_handshake set_state on_packet_received client_state
handshake_received = refl

abbrev pub bob : List ℕ
bob = b'B' ∷ b'o' ∷ b'b' ∷ []

abbrev pub a_login_frame : List ℕ
a_login_frame = 5 ∷ 0 ∷ 3 ∷ bob

abbrev a_login_start_of_bob : LoginStart
a_login_start_of_bob = record { base = arrived 0 []; player_name = bob }

pub bobs_id_short : length (offline_id (a_host.sha256 bob)) < 2 ^ 20
unfolding offline_id format_uuid make_hex_string matches_uuid all_xdigits dashed
bobs_id_short = omega arith

abbrev pub a_logged_in_turn : Turn (Unit {0})
a_logged_in_turn =
    emit (logged_in a_host an_environment (named a_host a_login_turn bob) login_server) start_read

pub login_received :
    on_length_receive a_host 9 an_environment a_login_turn a_login_frame false ≡ ok a_logged_in_turn
unfolding on_length_receive take_data next_message read_var_int_from_buffer read_var_int_loop
    parse_next parse_packet parse_plain packet_from_buffer instantiate_from_data parse_login_start
    read_var_int text_unchecked read_pod handle_parsed caught new_client text_if_there
login_received =
    ap (λ (r : Outcome (Turn (Unit {0}))). caught a_login_turn r)
      (received_login_start_loopback a_host 9 an_environment a_login_turn a_login_start_of_bob
        login_server refl refl refl (refl, refl, refl) bobs_id_short (omega arith))

-- The connection from its constructor to the hand-off
a_logged_in_turn-Reachable : Reachable a_host a_logged_in_turn
a_logged_in_turn-Reachable = (
  login_server,
  true,
  95,
  [],
  next (next here (received 9 an_environment a_handshake_frame false handshake_received))
      (received 9 an_environment a_login_frame false login_received),
)

-- A connection whose write has failed
abbrev a_failed_turn : Turn (Unit {0})
a_failed_turn = on_write_complete a_new_turn true

on_length_receive_goes_on_example :
    (reads_last a_logged_in_turn.effects ≡ true) ⊎ (a_logged_in_turn.client.alive ≡ false)
on_length_receive_goes_on_example =
    on_length_receive_goes_on a_host 9 an_environment a_login_turn a_logged_in_turn a_login_frame
      false login_received

frame_small : length (encode 4 0 ++ bob) < 2 ^ 31
unfolding encode
frame_small = omega arith

receive_frame_example :
    on_length_receive a_host 9 an_environment a_new_turn (frame 0 bob ++ (7 ∷ [])) false ≡ (
      instantiate_from_data an_environment server_bound a_new_turn.client.state (arrived 0 bob)
      >>= λ m.
          handle_parsed a_host 9 an_environment
            (with_client a_new_turn (record a_new_turn.client { buffer = 7 ∷ [] }))
            m)
unfolding new_client
receive_frame_example =
    receive_frame a_host 9 an_environment a_new_turn (frame 0 bob ++ (7 ∷ [])) 0 bob (7 ∷ [])
      (login_server, true, 95, [], here) (refl, refl) refl (omega arith) frame_small

-- Two headers, and the reason with the end of its line
abbrev a_date : List ℕ × List ℕ
a_date = (codes "Date", codes " Thu, 01 Jan 1970 00:00:00 GMT")

abbrev a_server_name : List ℕ × List ℕ
a_server_name = (codes "Server", codes " Restlet")

abbrev ok_reason : List ℕ
ok_reason = codes "OK" ++ (13 ∷ [])

read_http_header_ok_example :
    read_http_header a_new_turn
      (answer (codes "200") ok_reason (a_date ∷ []) (codes "120") (a_server_name ∷ []) (codes "{"))
      false
    ≡ ok (emit a_new_turn (https_read_body 120 (codes "{")))
unfolding new_client split_colon has_reason is_space same_bytes trim skip_spaces drop_last_spaces
read_http_header_ok_example =
    read_http_header_ok a_new_turn (codes "200") ok_reason (a_date ∷ []) (codes "120")
      (a_server_name ∷ []) (codes "{") refl refl (omega arith) refl refl refl refl
      ((refl, refl, refl), tt) ((refl, refl, refl), tt) (refl, tt) refl (omega arith) (omega arith)

read_http_header_status_example :
    read_http_header a_new_turn (status_head (codes "204") (codes "No Content") ++ (10 ∷ [])) false
    ≡ ok (emit a_new_turn socket_cancel)
unfolding new_client split_colon has_reason is_space
read_http_header_status_example =
    read_http_header_status a_new_turn (codes "204") (codes "No Content") [] refl refl (omega arith)
      refl refl refl (omega arith) (omega arith)

a_login_turn-Reachable : Reachable a_host a_login_turn
a_login_turn-Reachable = (
  login_server,
  true,
  95,
  [],
  next here (received 9 an_environment a_handshake_frame false handshake_received),
)

login_frame_hands_off_example :
    on_length_receive a_host 9 an_environment a_login_turn (frame 0 (coded bob) ++ []) false
    ≡ ok (
        emit
          (logged_in a_host an_environment (named a_host a_login_turn bob) login_server)
          start_read)
unfolding new_client
login_frame_hands_off_example =
    login_frame_hands_off a_host 9 an_environment a_login_turn (frame 0 (coded bob) ++ []) bob []
      login_server a_login_turn-Reachable (refl, refl) refl refl refl refl bobs_id_short
      (omega arith)
