-- ===== src/Examples/Connection.antt =====
-- The properties of a connection, applied.
use cerios_cluster.Common.{
  ℕ, ◌^◌, ◌<◌, List, [], ◌∷◌, ◌++◌, false, length, replicate, ◌≡◌, refl, arith,
}
use cerios_cluster.Common.Outcome.{ok, ◌>>=◌}
use cerios_cluster.McPacket.Base.{status, login}
use cerios_cluster.Examples.{an_environment, a_host, a_turn, a_packet}
use cerios_cluster.McPacket.VarInt.{read_var_int_from_buffer, read_var_int_loop}
use cerios_cluster.McPacket.VarInt.Encoding.{encode}
use cerios_cluster.McPacket.Messages.Wire.{written}
use cerios_cluster.McPacket.Messages.Text.{coded}
use cerios_cluster.McPacket.Messages.Session.{ServerStatus}
use cerios_cluster.McPacket.Messages.Session.RoundTrip.{serialize_server_status_lem}
use cerios_cluster.McPacket.Messages.Login.{Encryption}
use cerios_cluster.McPacket.Classes.{a_server_status, an_encryption, serialize, base_of}
use cerios_cluster.Gateway.Client.{Turn, start_read, async_write, emit}
use cerios_cluster.Gateway.Client.Send.{send_packet, get_side}
use cerios_cluster.Gateway.Client.Send.Frames.{send_packet_clear, send_packet_encryption}
use cerios_cluster.Gateway.Client.Receive.{on_length_receive}
use cerios_cluster.Gateway.Client.Receive.Framing.{IsPartial, with_bytes, on_length_receive-append}

abbrev a_turn_with : List ℕ → Turn (Unit {0})
a_turn_with bytes = with_bytes (a_turn login) bytes

-- The first byte of a frame of 20 bytes
a_piece-IsPartial : IsPartial a_host (a_turn_with (20 ∷ [])).client
unfolding read_var_int_from_buffer read_var_int_loop
a_piece-IsPartial = (record { count = 1; value = 20; buffer = 20 ∷ [] }, refl, refl)

on_length_receive-append_example :
    (on_length_receive a_host 9 an_environment (a_turn login) (20 ∷ []) false >>= λ t'.
    on_length_receive a_host 9 an_environment t' (0 ∷ []) false)
    ≡ on_length_receive a_host 9 an_environment (emit (a_turn login) start_read) (20 ∷ 0 ∷ []) false
on_length_receive-append_example =
    on_length_receive-append a_host 9 an_environment (a_turn login) (20 ∷ []) (0 ∷ []) (refl, refl)
      a_piece-IsPartial

abbrev a_status : ServerStatus
a_status = record { base = a_packet 0; json_encoded_server_status = b'O' ∷ b'K' ∷ [] }

abbrev a_status_sent : ServerStatus
a_status_sent = record a_status { base = written 0 (coded a_status.json_encoded_server_status) }

a_status_serialized :
    serialize get_side (a_server_status a_status) ≡ ok (a_server_status a_status_sent)
unfolding serialize
a_status_serialized = rw (serialize_server_status_lem a_status (omega arith) (omega arith))

a_status_short : length (base_of (a_server_status a_status_sent)).raw_payload < 2 ^ 21
unfolding base_of encode
a_status_short = omega arith

send_packet_clear_example :
    send_packet a_host 9 (a_turn status) (a_server_status a_status)
    ≡ ok (
        emit (a_turn status) (
          async_write (
            encode 4 (length (base_of (a_server_status a_status_sent)).raw_payload)
            ++ (base_of (a_server_status a_status_sent)).raw_payload)))
send_packet_clear_example =
    send_packet_clear a_host 9 (a_turn status) (a_server_status a_status)
      (a_server_status a_status_sent) (refl, refl, refl) a_status_serialized a_status_short

abbrev an_encryption_request : Encryption
an_encryption_request = record {
  base = a_packet 1;
  server_id = [];
  public_key = 1 ∷ 2 ∷ 3 ∷ [];
  clear_verify_token = 9 ∷ 9 ∷ 9 ∷ 9 ∷ [];
  clear_shared_secret = [];
  sealed_verify_token = 9 ∷ 9 ∷ 9 ∷ 9 ∷ [];
  sealed_shared_secret = replicate 16 5;
}

send_packet_encryption_example :
    send_packet a_host 9 (a_turn login) (an_encryption an_encryption_request)
    ≡ ok (emit (a_turn login) (async_write (encode 4 (length (encode 4 1)) ++ encode 4 1)))
send_packet_encryption_example =
    send_packet_encryption a_host 9 (a_turn login) an_encryption_request (refl, refl, refl)
      (omega arith) (omega arith) (omega arith) (omega arith)
