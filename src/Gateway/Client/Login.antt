-- ===== src/Gateway/Client/Login.antt =====
-- Client Gateway/Client.cpp: receivedMessage, and what ends the login of a player.
pub mod States
pub mod Loopback
pub mod Token
use cerios_cluster.Common.{
  ℕ, zero, suc, ◌+◌, ◌-◌, ◌*◌, ◌/◌, ◌%◌, ◌^◌, ◌<◌, ◌≤◌, List, [], ◌∷◌, ◌++◌, Bool, true, false,
  ◌&&◌, ◌||◌, not, ltb, leb, ◌==◌, Option, none, some, if◌then◌else◌, length, take, drop, replicate,
}
use cerios_cluster.Common.Outcome.{Outcome, ok, throws, undefined, endless, length_error, ◌>>=◌}
use cerios_cluster.McPacket.Base.{
  Packet, Environment, Side, client_bound, server_bound, bi_directional, ClientState, handshake,
  status, login, play, client_state, frame_packet, as_size,
}
use cerios_cluster.McPacket.Base
use cerios_cluster.Gateway.Host.{Host}
use cerios_cluster.McPacket.Messages.Login.{Encryption}
use cerios_cluster.McPacket.Classes.{
  AnyPacket, a_handshake, a_server_status, a_ping, a_login_start, an_encryption, a_keep_alive,
}
use cerios_cluster.McPacket.Registry.{instantiate_new}
use cerios_cluster.Common.Text.{codes}
use cerios_cluster.Gateway.Client.Auth.{auth_with_mojang}
use cerios_cluster.Gateway.Digest.{session_hash}
use cerios_cluster.Gateway.Uuid.{offline_id, format_uuid}
use cerios_cluster.Gateway.Client.{
  Client, Turn, Owner, login_server, client_server, Effect, socket_cancel, emit, with_client,
  disconnect, set_state,
}
use cerios_cluster.Gateway.Client.Send.{send_packet, on_player_login}

-- `owner->onPacketReceived(side, this, packet)`: the virtual method of ClientOwner. Neither owner
-- overrides it; the method of ClientServer that has the name takes other arguments.
unfoldable pub on_packet_received : Owner → Bool
on_packet_received login_server = false
on_packet_received client_server = false

-- The JSON text of the server's status, in its bytes
abbrev pub status_json : List ℕ
status_json =
    codes "{\"version\": {    \"name\": \"1.8.8\",    \"protocol\": 47},"
    ++ (codes "\"players\": {    \"max\": 10000,    \"online\": 0},"
        ++ codes "\"description\": {    \"text\": \"Hello World!\"}}")

-- The four bytes of the generator
unfoldable pub fresh_token : Environment → List ℕ
fresh_token env =
    env.stale 4 % 2 ^ 8 ∷ env.stale 5 % 2 ^ 8 ∷ env.stale 6 % 2 ^ 8 ∷ env.stale 7 % 2 ^ 8 ∷ []

-- `std::copy_n(token.data(), token.size(), clearVerifyToken.data())` into an array of four
unfoldable pub copy_token : List ℕ → List ℕ → Outcome (List ℕ)
copy_token token clear =
    if ltb 4 (length token) then undefined else ok (token ++ drop (length token) clear)

-- `this->verifyToken != clearVerifyToken`, negated
unfoldable pub same_bytes : List ℕ → List ℕ → Bool
same_bytes [] [] = true
same_bytes [] (b ∷ bs) = false
same_bytes (a ∷ as') [] = false
same_bytes (a ∷ as') (b ∷ bs) = a == b && same_bytes as' bs

unfoldable pub is_status : ClientState → Bool
is_status status = true
is_status _ = false

-- The result of a read: whether the handler gives up
unfoldable pub joined_error : (error is_eof : Bool) → (data_size len : ℕ) → Bool
joined_error false is_eof data_size len = false
joined_error true false data_size len = true
joined_error true true data_size len = ltb data_size len

module _ (h : Host) where
  open h use {Cipher, cipher_init, sha1, sha256, rsa_decrypt, public_key, player_info}

  -- The request for encryption that answers a login from elsewhere; a null pointer is undefined.
  unfoldable pub encryption_request : Client Cipher → Option AnyPacket → Outcome AnyPacket
  encryption_request c (some (an_encryption m)) =
      ok (an_encryption (record m { public_key = public_key; clear_verify_token = c.verify_token }))
  encryption_request c _ = undefined

  unfoldable pub start_login :
      ℕ → Environment → Turn Cipher → (player_name : List ℕ) → Outcome (Turn Cipher)
  unfolding encryption_request fresh_token
  start_login fuel env t player_name =
      let named = with_client t (record t.client { requested_username = player_name }) in
      elim t.client.is_loopback [
        | true ↦ on_player_login h fuel env (
            with_client t (record t.client {
              requested_username = player_name;
              userid = offline_id (sha256 player_name);
            }))
        | false ↦
            let c = record named.client { verify_token = fresh_token env } in
            encryption_request c (instantiate_new env client_bound login 0x01) >>= λ m.
            send_packet h fuel (with_client named c) m
      ]

  -- The keys are set up with the shared secret, which must have the 16 bytes of a key.
  unfoldable pub set_keys : Client Cipher → List ℕ → Outcome (Client Cipher)
  set_keys c secret =
      if ltb (length secret) 16
      then undefined
      else ok (record c {
        encrypt_context = some (cipher_init secret);
        decrypt_context = some (cipher_init secret);
      })

  -- The keys, and the question to the session server, where the tokens agree
  unfoldable pub accept_token :
      Environment → Turn Cipher → Encryption → (secret : List ℕ) → Bool → Outcome (Turn Cipher)
  accept_token env t m secret false = ok t
  accept_token env t m secret true = do
    c ← set_keys t.client secret
    hash ← session_hash (sha1 (m.server_id ++ (secret ++ public_key)))
    auth_with_mojang env (with_client t c) hash

  -- From the decrypted token and secret on
  unfoldable pub check_token :
      Environment → Turn Cipher → Encryption → (token secret : List ℕ) → Outcome (Turn Cipher)
  check_token env t m token secret = do
    clear ← copy_token token m.clear_verify_token
    accept_token env t m secret (same_bytes t.client.verify_token clear)

  -- The answer to the encryption request
  unfoldable pub finish_encryption : Environment → Turn Cipher → Encryption → Outcome (Turn Cipher)
  finish_encryption env t m = elim (rsa_decrypt m.sealed_verify_token) [
    | none ↦ ok t
    | some token ↦ elim (rsa_decrypt m.sealed_shared_secret) [
      | none ↦ ok t
      | some secret ↦ check_token env t m token secret
    ]
  ]

  -- The three parts of receivedMessage that depend on the state
  unfoldable pub in_handshake : Turn Cipher → AnyPacket → Outcome (Turn Cipher)
  unfolding set_state
  in_handshake t (a_handshake m) = ok (set_state t (client_state m.requested_next_state))
  in_handshake t _ = ok t

  unfoldable pub in_status : ℕ → Turn Cipher → AnyPacket → Outcome (Turn Cipher)
  in_status fuel t (a_server_status m) =
      send_packet h fuel t (a_server_status (record m { json_encoded_server_status = status_json }))
  in_status fuel t _ = ok t

  unfoldable pub in_login : ℕ → Environment → Turn Cipher → AnyPacket → Outcome (Turn Cipher)
  in_login fuel env t (a_login_start m) = start_login fuel env t m.player_name
  in_login fuel env t (an_encryption m) =
      if length t.client.requested_username == 0 then ok t else finish_encryption env t m
  in_login fuel env t _ = ok t

  unfoldable pub by_state :
      ℕ → Environment → Turn Cipher → ClientState → AnyPacket → Outcome (Turn Cipher)
  by_state fuel env t handshake m = in_handshake t m
  by_state fuel env t status m = in_status fuel t m
  by_state fuel env t login m = in_login fuel env t m
  by_state fuel env t _ m = ok t

  -- A packet that is neither a ping nor a keep-alive
  unfoldable pub received_other :
      ℕ → Environment → Turn Cipher → Option Owner → AnyPacket → Outcome (Turn Cipher)
  received_other fuel env t none m = ok (disconnect t)
  received_other fuel env t (some o) m =
      if on_packet_received o then ok t else by_state fuel env t t.client.state m

  -- receivedMessage
  unfoldable pub received_message :
      ℕ → Environment → Turn Cipher → AnyPacket → Outcome (Turn Cipher)
  received_message fuel env t (a_ping m) = do
    t' ← send_packet h fuel t (a_ping m)
    ok (if is_status t'.client.state then emit t' socket_cancel else t')
  received_message fuel env t (a_keep_alive m) =
      ok (with_client t (record t.client { last_seen = env.time }))
  received_message fuel env t m = received_other fuel env t t.client.owner m

  -- What onHasJoinedPostComplete does with the answer of the session server
  unfoldable pub joined :
      ℕ → Environment → Turn Cipher → Option (List ℕ × List ℕ) → Outcome (Turn Cipher)
  joined fuel env t none = undefined
  joined fuel env t (some (id, name)) = on_player_login h fuel env (
      with_client t (record t.client {
        userid = format_uuid id;
        requested_username = name;
        encrypted = true;
        buffer = [];
      }))

  -- onHasJoinedPostComplete
  unfoldable pub on_has_joined_post_complete :
      ℕ
      → Environment
      → Turn Cipher
      → List ℕ
      → (error is_eof : Bool) → (len : ℕ) → Outcome (Turn Cipher)
  unfolding joined joined_error
  on_has_joined_post_complete fuel env t body error is_eof len =
      if joined_error error is_eof (length body) len
      then ok t
      else joined fuel env t (player_info (take len body))
