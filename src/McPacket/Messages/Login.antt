-- ===== src/McPacket/Messages/Login.antt =====
-- The packets of the login state: LoginStartPacket, EncryptionPacket, LoginSuccessPacket and
-- SetCompressionPacket of MCPacket/.
pub mod RoundTrip
pub mod Bounds
use cerios_cluster.Common.{
  ℕ, zero, suc, ◌+◌, ◌-◌, ◌*◌, ◌/◌, ◌%◌, ◌^◌, ◌<◌, ◌≤◌, List, [], ◌∷◌, ◌++◌, Bool, true, false, ltb,
  leb, if◌then◌else◌, length, take, drop, ◌&&◌, ◌||◌, not, ◌==◌,
}
use cerios_cluster.Common.Outcome.{Outcome, ok, undefined, ◌>>=◌}
use cerios_cluster.McPacket.Base.{
  Packet, Environment, Side, client_bound, server_bound, bi_directional, as_size, append_bytes,
  reset_buffer, new_base, copy_base, write_var_int, read_var_int, serialize_base, read_pod,
  write_pod,
}
use cerios_cluster.McPacket.Messages.Text.{
  has_bytes, text_if_there, erase_if_there, text_unchecked, write_text,
}

pub record LoginStart : Type 0 where
  pub base : Packet
  pub player_name : List ℕ

unfoldable pub make_login_start : LoginStart
make_login_start = record { base = new_base 0x00; player_name = [] }

unfoldable pub parse_login_start : Packet → Outcome LoginStart
parse_login_start in_progress = do
  (string_length, p) ← read_var_int (copy_base in_progress)
  ok (record { base = reset_buffer p; player_name = text_if_there p string_length })

unfoldable pub serialize_login_start : LoginStart → Outcome LoginStart
serialize_login_start m = do
  b ← serialize_base m.base
  b' ← write_text b m.player_name
  ok (record m { base = b' })

pub record Encryption : Type 0 where
  pub base : Packet
  pub server_id : List ℕ
  pub public_key : List ℕ
  pub clear_verify_token : List ℕ
  pub clear_shared_secret : List ℕ
  pub sealed_verify_token : List ℕ
  pub sealed_shared_secret : List ℕ

-- The four bytes of a std::array that no constructor sets.
unfoldable pub stale_token : Environment → List ℕ
stale_token env =
    env.stale 0 % 2 ^ 8 ∷ env.stale 1 % 2 ^ 8 ∷ env.stale 2 % 2 ^ 8 ∷ env.stale 3 % 2 ^ 8 ∷ []

unfoldable pub make_encryption : Environment → Encryption
make_encryption env = record {
  base = new_base 0x01;
  server_id = [];
  public_key = [];
  clear_verify_token = stale_token env;
  clear_shared_secret = [];
  sealed_verify_token = [];
  sealed_shared_secret = [];
}

-- A packet on its way to the client: only the server id is read.
unfoldable pub parse_encryption_request : Environment → Packet → Outcome Encryption
unfolding make_encryption
parse_encryption_request env in_progress = do
  (string_length, p) ← read_var_int (copy_base in_progress)
  ok (record (make_encryption env) {
    base = reset_buffer p;
    server_id = text_if_there p string_length;
  })

-- A packet from the client. The lengths in it are not tested.
unfoldable pub parse_encryption_response : Environment → Packet → Outcome Encryption
unfolding make_encryption
parse_encryption_response env in_progress = do
  (shared_secret_length, p₁) ← read_var_int (copy_base in_progress)
  (secret, p₂) ← text_unchecked p₁ shared_secret_length
  (verify_token_length, p₃) ← read_var_int p₂
  (token, _) ← text_unchecked p₃ verify_token_length
  ok (record (make_encryption env) {
    base = record p₃ { raw_payload = [] };
    sealed_shared_secret = secret;
    sealed_verify_token = token;
  })

unfoldable pub parse_encryption : Environment → Side → Packet → Outcome Encryption
unfolding parse_encryption_request parse_encryption_response
parse_encryption env client_bound in_progress = parse_encryption_request env in_progress
parse_encryption env server_bound in_progress = parse_encryption_response env in_progress
parse_encryption env bi_directional in_progress = parse_encryption_response env in_progress

-- The body is written for the client alone.
unfoldable pub serialize_encryption_body : Encryption → Packet → Outcome Packet
serialize_encryption_body m b = do
  b₁ ← write_text b m.server_id
  b₂ ← write_text b₁ m.public_key
  write_text b₂ m.clear_verify_token

unfoldable pub serialize_encryption : Side → Encryption → Outcome Encryption
unfolding serialize_encryption_body
serialize_encryption client_bound m = do
  b ← serialize_base m.base
  b' ← serialize_encryption_body m b
  ok (record m { base = b' })
serialize_encryption server_bound m = do b ← serialize_base m.base; ok (record m { base = b })
serialize_encryption bi_directional m = do b ← serialize_base m.base; ok (record m { base = b })

pub record LoginSuccess : Type 0 where
  pub base : Packet
  pub uuid : List ℕ
  pub username : List ℕ

unfoldable pub make_login_success : LoginSuccess
make_login_success = record { base = new_base 0x02; uuid = []; username = [] }

-- `this->rawPayload.size() - uuidLength >= usernameLength`, a size_t that wraps
abbrev pub name_passes : Packet → (uuid_length username_length : ℕ) → Bool
name_passes p uuid_length username_length =
    leb (as_size username_length) ((length p.raw_payload + (2 ^ 64 - as_size uuid_length)) % 2 ^ 64)

unfoldable pub parse_login_success : Packet → Outcome LoginSuccess
parse_login_success in_progress = do
  (uuid_length, p₁) ← read_var_int (copy_base in_progress)
  (username_length, p₂) ← read_var_int (erase_if_there p₁ uuid_length)
  name ←
      (if name_passes p₂ uuid_length username_length
        then text_unchecked p₂ username_length
        else ok ([], p₂))
  ok (record { base = reset_buffer p₂; uuid = text_if_there p₁ uuid_length; username = name.0 })

unfoldable pub serialize_login_success : LoginSuccess → Outcome LoginSuccess
serialize_login_success m = do
  b ← serialize_base m.base
  b₁ ← write_text b m.uuid
  b₂ ← write_text b₁ m.username
  ok (record m { base = b₂ })

pub record SetCompression : Type 0 where
  pub base : Packet
  pub compression_threshold : ℕ

-- The threshold -1, on packet id 1.
unfoldable pub make_set_compression : SetCompression
make_set_compression = record { base = new_base 0x01; compression_threshold = 2 ^ 32 - 1 }

unfoldable pub parse_set_compression : Packet → Outcome SetCompression
parse_set_compression in_progress = do
  (threshold, p) ← read_var_int (copy_base in_progress)
  ok (record { base = reset_buffer p; compression_threshold = threshold })

unfoldable pub serialize_set_compression : SetCompression → Outcome SetCompression
serialize_set_compression m = do
  b ← serialize_base m.base
  b' ← write_var_int b m.compression_threshold
  ok (record m { base = b' })
