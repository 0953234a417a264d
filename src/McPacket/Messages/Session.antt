-- ===== src/McPacket/Messages/Session.antt =====
-- The packets of the handshake and status states, and the keep-alive: HandshakePacket,
-- ServerStatusPacket, PingPacket and KeepAlivePacket of MCPacket/.
pub mod RoundTrip
use cerios_cluster.Common.{
  ℕ, zero, suc, ◌+◌, ◌-◌, ◌*◌, ◌/◌, ◌%◌, ◌^◌, ◌<◌, ◌≤◌, List, [], ◌∷◌, ◌++◌, Bool, true, false, ltb,
  leb, if◌then◌else◌, length, take, drop, ◌&&◌, ◌||◌, not, ◌==◌,
}
use cerios_cluster.Common.Outcome.{Outcome, ok, undefined, ◌>>=◌}
use cerios_cluster.McPacket.Base.{
  Packet, Environment, Side, client_bound, server_bound, bi_directional, as_size, append_bytes,
  reset_buffer, new_base, copy_base, write_var_int, read_var_int, serialize_base, read_pod,
  write_pod,
}
use cerios_cluster.McPacket.Messages.Text.{
  has_bytes, text_if_there, erase_if_there, text_unchecked, write_text,
}

pub record Handshake : Type 0 where
  pub base : Packet
  pub protocol_version : ℕ
  pub server_address : List ℕ
  pub server_port : ℕ
  pub requested_next_state : ℕ

unfoldable pub make_handshake : Environment → Handshake
make_handshake env = record {
  base = new_base 0x00;
  protocol_version = env.stale 0;
  server_address = [];
  server_port = env.stale 1;
  requested_next_state = env.stale 2;
}

unfoldable pub parse_handshake : Packet → Outcome Handshake
parse_handshake in_progress = do
  (protocol_version, p₁) ← read_var_int (copy_base in_progress)
  (string_length, p₂) ← read_var_int p₁
  (server_address, p₃) ← text_unchecked p₂ string_length
  let port = read_pod 2 p₃ 25565 true
  (next_state, p₄) ← read_var_int port.1
  ok (record {
    base = reset_buffer p₄;
    protocol_version = protocol_version;
    server_address = server_address;
    server_port = port.0;
    requested_next_state = next_state;
  })

-- HandshakePacket does not override serializePacket.
unfoldable pub serialize_handshake : Handshake → Outcome Handshake
serialize_handshake m = do b ← serialize_base m.base; ok (record m { base = b })

pub record ServerStatus : Type 0 where
  pub base : Packet
  pub json_encoded_server_status : List ℕ

unfoldable pub make_server_status : ServerStatus
make_server_status = record { base = new_base 0x00; json_encoded_server_status = [] }

unfoldable pub parse_server_status : Packet → ServerStatus
parse_server_status in_progress = record {
  base = reset_buffer (copy_base in_progress);
  json_encoded_server_status = [];
}

unfoldable pub serialize_server_status : ServerStatus → Outcome ServerStatus
serialize_server_status m = do
  b ← serialize_base m.base
  b' ← write_text b m.json_encoded_server_status
  ok (record m { base = b' })

pub record Ping : Type 0 where
  pub base : Packet
  pub unix_epoch : ℕ

unfoldable pub make_ping : Environment → Ping
make_ping env = record { base = new_base 0x01; unix_epoch = env.time }

unfoldable pub parse_ping : Environment → Packet → Ping
parse_ping env in_progress =
    let epoch = read_pod 8 (copy_base in_progress) env.time true in
    record { base = reset_buffer epoch.1; unix_epoch = epoch.0 }

unfoldable pub serialize_ping : Ping → Outcome Ping
serialize_ping m = do b ← serialize_base m.base; ok (record m { base = write_pod 8 b m.unix_epoch })

pub record KeepAlive : Type 0 where
  pub base : Packet
  pub keep_alive_id : ℕ

unfoldable pub make_keep_alive : Environment → KeepAlive
make_keep_alive env = record { base = new_base 0x00; keep_alive_id = env.random }

unfoldable pub parse_keep_alive : Packet → Outcome KeepAlive
parse_keep_alive in_progress = do
  (id, p) ← read_var_int (copy_base in_progress)
  ok (record { base = reset_buffer p; keep_alive_id = id })

unfoldable pub serialize_keep_alive : KeepAlive → Outcome KeepAlive
serialize_keep_alive m = do
  b ← serialize_base m.base
  b' ← write_var_int b m.keep_alive_id
  ok (record m { base = b' })
