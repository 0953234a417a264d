-- ===== src/McPacket/Messages/Login/Bounds.antt =====
-- The encryption packet of MCPacket/EncryptionPacket.cpp: its layout, and the lengths in it.
use cerios_cluster.Common.{ℕ, ◌^◌, ◌<◌, List, [], ◌++◌, append_assoc, append-nil, length, ◌≡◌}
use cerios_cluster.Common.Outcome.{ok, undefined}
use cerios_cluster.McPacket.Base.{
  Environment, Side, client_bound, server_bound, bi_directional, as_size,
}
use cerios_cluster.McPacket.Base.Header.{serialize_base_lem, read_var_int-encode}
use cerios_cluster.McPacket.VarInt.Encoding.{encode}
use cerios_cluster.McPacket.Messages.Text.{
  coded, write_text_lem, text_unchecked-append, read_coded, read_coded_whole, text_unchecked_whole,
  text_unchecked_beyond,
}
use cerios_cluster.McPacket.Messages.Wire.{written, arrived}
use cerios_cluster.McPacket.Messages.Login.{
  Encryption, serialize_encryption, serialize_encryption_body, make_encryption, parse_encryption,
  parse_encryption_response,
}

-- What an encryption request holds: the server id, the public key and the token, each behind its length.
abbrev pub request_body : Encryption → List ℕ
request_body m = coded m.server_id ++ (coded m.public_key ++ coded m.clear_verify_token)

-- The body that serializePacket writes for a side.
abbrev pub body_for : Side → Encryption → List ℕ
body_for client_bound m = request_body m
body_for server_bound m = []
body_for bi_directional m = []

-- A request for the client has all three parts; for any other side nothing follows the id.
pub serialize_encryption_lem :
    (side : Side) (m : Encryption)
    → m.base.packet_id < 2 ^ 32
    → length m.server_id < 2 ^ 32
    → length m.public_key < 2 ^ 32
    → length m.clear_verify_token < 2 ^ 32
    → serialize_encryption side m
      ≡ ok (record m { base = written m.base.packet_id (body_for side m) })
unfolding serialize_encryption serialize_encryption_body
serialize_encryption_lem client_bound m hid hs hk ht =
    rw
      (
        serialize_base_lem m.base hid,
        write_text_lem _ m.server_id hs,
        write_text_lem _ m.public_key hk,
        write_text_lem _ m.clear_verify_token ht,
      )
      (rw (
        append_assoc (encode 4 m.base.packet_id ++ coded m.server_id) (coded m.public_key)
            (coded m.clear_verify_token),
        append_assoc (encode 4 m.base.packet_id) (coded m.server_id)
            (coded m.public_key ++ coded m.clear_verify_token),
      ))
serialize_encryption_lem server_bound m hid hs hk ht =
    rw (serialize_base_lem m.base hid) (rw (append-nil (encode 4 m.base.packet_id)))
serialize_encryption_lem bi_directional m hid hs hk ht =
    rw (serialize_base_lem m.base hid) (rw (append-nil (encode 4 m.base.packet_id)))

-- The server takes the two sealed texts of a response that has both.
pub parse_encryption_response_lem :
    (env : Environment) (id : ℕ) (secret token : List ℕ)
    → length secret < 2 ^ 31
    → length token < 2 ^ 31
    → parse_encryption env server_bound (arrived id (coded secret ++ coded token))
      ≡ ok (record (make_encryption env) {
        base = arrived id [];
        sealed_shared_secret = secret;
        sealed_verify_token = token;
      })
unfolding parse_encryption parse_encryption_response
parse_encryption_response_lem env id secret token hs ht = rw (
  read_coded (arrived id []) secret (coded token) hs,
  text_unchecked-append (arrived id []) secret (coded token) hs,
  read_coded_whole (arrived id []) token ht,
  text_unchecked_whole (arrived id []) token ht,
)

-- A response that says its secret is longer than what it holds, or negative, makes the server read
-- beyond the end of its buffer.
pub parse_encryption_response_overrun :
    (env : Environment) (id said : ℕ) (held : List ℕ)
    → said < 2 ^ 32
    → length held < as_size said
    → parse_encryption env server_bound (arrived id (encode 4 said ++ held)) ≡ undefined
unfolding parse_encryption parse_encryption_response
parse_encryption_response_overrun env id said held hs h = rw (
  read_var_int-encode (arrived id []) said held hs,
  text_unchecked_beyond (arrived id held) said h,
)
