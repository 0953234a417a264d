-- ===== src/McPacket/Messages/Session/RoundTrip.antt =====
-- Sending and parsing the packets of MCPacket/ that open a session.
use cerios_cluster.Common.{ℕ, ◌^◌, ◌<◌, List, [], ◌++◌, append-nil, length, ◌≡◌, arith}
use cerios_cluster.Common.Outcome.{ok, undefined, ◌>>=◌}
use cerios_cluster.McPacket.Base.{Environment, as_size, to_bytes, write_pod}
use cerios_cluster.McPacket.Base.Pod.{read_pod-to_bytes}
use cerios_cluster.McPacket.Base.Header.{serialize_base_lem, write_var_int_lem, read_var_int-encode}
use cerios_cluster.McPacket.VarInt.Encoding.{encode}
use cerios_cluster.McPacket.Messages.Text.{
  coded, write_text_lem, text_unchecked-append, read_coded, text_unchecked_beyond,
}
use cerios_cluster.McPacket.Messages.Wire.{written, arrived, receive, receive-written}
use cerios_cluster.McPacket.Messages.Session.{
  parse_handshake, ServerStatus, serialize_server_status, Ping, serialize_ping, parse_ping,
  KeepAlive, serialize_keep_alive, parse_keep_alive,
}

-- The body of a handshake as the parser takes it: the port has the byte order of the host.
abbrev pub handshake_body : (version : ℕ) (address : List ℕ) (port next : ℕ) → List ℕ
handshake_body version address port next =
    encode 4 version ++ (coded address ++ (to_bytes 2 port ++ encode 4 next))

pub parse_handshake_lem :
    (id version port next : ℕ) (address : List ℕ)
    → version < 2 ^ 32
    → length address < 2 ^ 31
    → port < 2 ^ 16
    → next < 2 ^ 32
    → parse_handshake (arrived id (handshake_body version address port next))
      ≡ ok (record {
        base = arrived id [];
        protocol_version = version;
        server_address = address;
        server_port = port;
        requested_next_state = next;
      })
unfolding parse_handshake
parse_handshake_lem id version port next address hv ha hp hn =
    rw
      (
        read_var_int-encode (arrived id []) version
            (coded address ++ (to_bytes 2 port ++ encode 4 next)) hv,
        read_coded (arrived id []) address (to_bytes 2 port ++ encode 4 next) ha,
        text_unchecked-append (arrived id []) address (to_bytes 2 port ++ encode 4 next) ha,
        read_pod-to_bytes 2 port 25565 (arrived id []) (encode 4 next) (omega arith),
      )
      (rw (← append-nil (encode 4 next), read_var_int-encode (arrived id []) next [] hn))

-- A handshake that says its address is longer than what follows, or negative, makes the server read
-- beyond the end of its buffer.
pub parse_handshake_overrun :
    (id version said : ℕ) (held : List ℕ)
    → version < 2 ^ 32
    → said < 2 ^ 32
    → length held < as_size said
    → parse_handshake (arrived id (encode 4 version ++ (encode 4 said ++ held))) ≡ undefined
unfolding parse_handshake
parse_handshake_overrun id version said held hv hs h = rw (
  read_var_int-encode (arrived id []) version (encode 4 said ++ held) hv,
  read_var_int-encode (arrived id []) said held hs,
  text_unchecked_beyond (arrived id held) said h,
)

pub serialize_server_status_lem :
    (m : ServerStatus)
    → m.base.packet_id < 2 ^ 32
    → length m.json_encoded_server_status < 2 ^ 32
    → serialize_server_status m
      ≡ ok (record m { base = written m.base.packet_id (coded m.json_encoded_server_status) })
unfolding serialize_server_status
serialize_server_status_lem m hid hj =
    rw (serialize_base_lem m.base hid, write_text_lem _ m.json_encoded_server_status hj)

pub serialize_ping_lem :
    (m : Ping)
    → m.base.packet_id < 2 ^ 32
    → serialize_ping m ≡ ok (record m { base = written m.base.packet_id (to_bytes 8 m.unix_epoch) })
unfolding serialize_ping write_pod
serialize_ping_lem m hid = rw (serialize_base_lem m.base hid)

pub parse_ping_lem :
    (env : Environment) (id epoch : ℕ)
    → epoch < 2 ^ 64
    → parse_ping env (arrived id (to_bytes 8 epoch))
      ≡ record { base = arrived id []; unix_epoch = epoch }
unfolding parse_ping
parse_ping_lem env id epoch h = rw (
  ← append-nil (to_bytes 8 epoch),
  read_pod-to_bytes 8 epoch env.time (arrived id []) [] (omega arith),
)

-- A ping comes back with the time that was put in, whatever the receiver's clock says.
pub receive-serialize_ping :
    (env : Environment) (m : Ping) (rest : List ℕ)
    → m.base.packet_id < 2 ^ 32
    → m.unix_epoch < 2 ^ 64
    → (do sent ← serialize_ping m; receive sent.base rest (λ p. ok (parse_ping env p)))
      ≡ ok (record m { base = arrived m.base.packet_id [] }, rest)
receive-serialize_ping env m rest hid he = rw (
  serialize_ping_lem m hid,
  receive-written m.base.packet_id (to_bytes 8 m.unix_epoch) rest (λ p. ok (parse_ping env p)) hid,
  parse_ping_lem env m.base.packet_id m.unix_epoch he,
)

pub serialize_keep_alive_lem :
    (m : KeepAlive)
    → m.base.packet_id < 2 ^ 32
    → m.keep_alive_id < 2 ^ 32
    → serialize_keep_alive m
      ≡ ok (record m { base = written m.base.packet_id (encode 4 m.keep_alive_id) })
unfolding serialize_keep_alive
serialize_keep_alive_lem m hid hk =
    rw (serialize_base_lem m.base hid, write_var_int_lem _ m.keep_alive_id hk)

pub parse_keep_alive_lem :
    (id keep : ℕ) (extra : List ℕ)
    → keep < 2 ^ 32
    → parse_keep_alive (arrived id (encode 4 keep ++ extra))
      ≡ ok (record { base = arrived id []; keep_alive_id = keep })
unfolding parse_keep_alive
parse_keep_alive_lem id keep extra h = rw (read_var_int-encode (arrived id []) keep extra h)
