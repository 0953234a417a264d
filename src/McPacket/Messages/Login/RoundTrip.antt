-- ===== src/McPacket/Messages/Login/RoundTrip.antt =====
-- Serializing, sending and parsing the login packets of MCPacket/.
use cerios_cluster.Common.{
  ℕ, ◌^◌, ◌<◌, List, [], ◌++◌, append_assoc, append-nil, Bool, ltb, if◌then◌else◌, length, ◌≡◌,
  arith, ◌||◌, ◌==◌,
}
use cerios_cluster.Common.Outcome.{ok, ◌>>=◌}
use cerios_cluster.McPacket.Base.Header.{serialize_base_lem, write_var_int_lem, read_var_int-encode}
use cerios_cluster.McPacket.VarInt.Encoding.{encode}
use cerios_cluster.McPacket.Messages.Text.{
  coded, write_text_lem, text_if_there-append, erase_if_there-append, read_coded,
  text_unchecked_whole,
}
use cerios_cluster.McPacket.Messages.Wire.{arrived, written, receive, receive-written}
use cerios_cluster.McPacket.Messages.Login.{
  LoginStart, parse_login_start, serialize_login_start, LoginSuccess, parse_login_success,
  serialize_login_success, name_passes, SetCompression, parse_set_compression,
  serialize_set_compression,
}

pub serialize_login_start_lem :
    (m : LoginStart)
    → m.base.packet_id < 2 ^ 32
    → length m.player_name < 2 ^ 32
    → serialize_login_start m
      ≡ ok (record m { base = written m.base.packet_id (coded m.player_name) })
unfolding serialize_login_start
serialize_login_start_lem m hid hn =
    rw (serialize_base_lem m.base hid, write_text_lem _ m.player_name hn)

-- What follows the text in the payload is ignored.
pub parse_login_start_lem :
    (id : ℕ) (name extra : List ℕ)
    → length name < 2 ^ 31
    → parse_login_start (arrived id (coded name ++ extra))
      ≡ ok (record { base = arrived id []; player_name = name })
unfolding parse_login_start
parse_login_start_lem id name extra h =
    rw (read_coded (arrived id []) name extra h, text_if_there-append (arrived id []) name extra h)

-- A name that was serialized arrives, and the receiver is left with what follows the packet.
pub receive-serialize_login_start :
    (m : LoginStart) (rest : List ℕ)
    → m.base.packet_id < 2 ^ 32
    → length m.player_name < 2 ^ 31
    → (do sent ← serialize_login_start m; receive sent.base rest parse_login_start)
      ≡ ok (record m { base = arrived m.base.packet_id [] }, rest)
receive-serialize_login_start m rest hid hn = rw (
  serialize_login_start_lem m hid (omega arith),
  receive-written m.base.packet_id (coded m.player_name) rest parse_login_start hid,
  ← append-nil (coded m.player_name),
  parse_login_start_lem m.base.packet_id m.player_name [] hn,
)

pub serialize_login_success_lem :
    (m : LoginSuccess)
    → m.base.packet_id < 2 ^ 32
    → length m.uuid < 2 ^ 32
    → length m.username < 2 ^ 32
    → serialize_login_success m
      ≡ ok (record m { base = written m.base.packet_id (coded m.uuid ++ coded m.username) })
unfolding serialize_login_success
serialize_login_success_lem m hid hu hn =
    rw (serialize_base_lem m.base hid, write_text_lem _ m.uuid hu, write_text_lem _ m.username hn)
      (rw (append_assoc (encode 4 m.base.packet_id) (coded m.uuid) (coded m.username)))

-- Whether the name behind a UUID is taken: the test subtracts the length of the UUID, which is
-- gone from the payload, once more.
abbrev pub name_arrives : (uuid username : List ℕ) → Bool
name_arrives uuid username = length uuid == 0 || ltb (length username) (length uuid)

name_passes-name_arrives :
    (id : ℕ) (uuid username : List ℕ)
    → length uuid < 2 ^ 31
    → length username < 2 ^ 31
    → name_passes (arrived id username) (length uuid) (length username) ≡ name_arrives uuid username
name_passes-name_arrives id uuid username hu hn = ground arith

pub parse_login_success_lem :
    (id : ℕ) (uuid username : List ℕ)
    → length uuid < 2 ^ 31
    → length username < 2 ^ 31
    → parse_login_success (arrived id (coded uuid ++ coded username))
      ≡ ok (record {
        base = arrived id [];
        uuid = uuid;
        username = if name_arrives uuid username then username else [];
      })
unfolding parse_login_success
parse_login_success_lem id uuid username hu hn =
    rw
      (
        read_coded (arrived id []) uuid (coded username) hu,
        text_if_there-append (arrived id []) uuid (coded username) hu,
        erase_if_there-append (arrived id []) uuid (coded username) hu,
        read_var_int-encode (arrived id []) (length username) username (omega arith),
      )
      (ground (
        arith,
        name_passes-name_arrives id uuid username hu hn,
        text_unchecked_whole (arrived id []) username hn,
      ))

-- A client that parses what the server serialized has the UUID, and the name exactly if the UUID is
-- empty or longer than the name; otherwise its name is empty.
pub receive-serialize_login_success :
    (m : LoginSuccess) (rest : List ℕ)
    → m.base.packet_id < 2 ^ 32
    → length m.uuid < 2 ^ 31
    → length m.username < 2 ^ 31
    → (do sent ← serialize_login_success m; receive sent.base rest parse_login_success)
      ≡ ok (
        record {
          base = arrived m.base.packet_id [];
          uuid = m.uuid;
          username = if name_arrives m.uuid m.username then m.username else [];
        },
        rest,
      )
receive-serialize_login_success m rest hid hu hn = rw (
  serialize_login_success_lem m hid (omega arith) (omega arith),
  receive-written m.base.packet_id (coded m.uuid ++ coded m.username) rest parse_login_success hid,
  parse_login_success_lem m.base.packet_id m.uuid m.username hu hn,
)

pub serialize_set_compression_lem :
    (m : SetCompression)
    → m.base.packet_id < 2 ^ 32
    → m.compression_threshold < 2 ^ 32
    → serialize_set_compression m
      ≡ ok (record m { base = written m.base.packet_id (encode 4 m.compression_threshold) })
unfolding serialize_set_compression
serialize_set_compression_lem m hid ht =
    rw (serialize_base_lem m.base hid, write_var_int_lem _ m.compression_threshold ht)

pub parse_set_compression_lem :
    (id threshold : ℕ) (extra : List ℕ)
    → threshold < 2 ^ 32
    → parse_set_compression (arrived id (encode 4 threshold ++ extra))
      ≡ ok (record { base = arrived id []; compression_threshold = threshold })
unfolding parse_set_compression
parse_set_compression_lem id threshold extra h =
    rw (read_var_int-encode (arrived id []) threshold extra h)

-- Every threshold arrives, the negative ones included.
pub receive-serialize_set_compression :
    (m : SetCompression) (rest : List ℕ)
    → m.base.packet_id < 2 ^ 32
    → m.compression_threshold < 2 ^ 32
    → (do sent ← serialize_set_compression m; receive sent.base rest parse_set_compression)
      ≡ ok (record m { base = arrived m.base.packet_id [] }, rest)
receive-serialize_set_compression m rest hid ht = rw (
  serialize_set_compression_lem m hid ht,
  receive-written m.base.packet_id (encode 4 m.compression_threshold) rest parse_set_compression
      hid,
  ← append-nil (encode 4 m.compression_threshold),
  parse_set_compression_lem m.base.packet_id m.compression_threshold [] ht,
)
