-- ===== src/Gateway/Session/Logins.antt =====
-- The facts of a session over receivedMessage and onHasJoinedPostComplete.
use cerios_cluster.Common.{
  Bool-cases, Option-cases, inl, inr, ℕ, List, [], ◌++◌, Bool, true, false, ltb, Option, none, some,
  ◌==◌, length, take, ◌≡◌, refl, arith, if_elim,
}
use cerios_cluster.McPacket.Base.{Environment, ClientState, client_bound, login, client_state}
use cerios_cluster.McPacket.Classes.{
  AnyPacket, a_handshake, a_server_status, a_ping, a_login_start, an_encryption, a_keep_alive,
}
use cerios_cluster.McPacket.Messages.Login.{Encryption}
use cerios_cluster.McPacket.Registry.{instantiate_new}
use cerios_cluster.Gateway.Host.{Host}
use cerios_cluster.Gateway.Digest.{session_hash}
use cerios_cluster.Gateway.Uuid.{offline_id, format_uuid}
use cerios_cluster.Gateway.Client.{Client, Turn, Owner, socket_cancel, with_client, set_state}
use cerios_cluster.Gateway.Client.Auth.{connect_for, auth_request, auth_with_mojang}
use cerios_cluster.Gateway.Client.Send.{send_packet}
use cerios_cluster.Gateway.Client.Login.{
  encryption_request, fresh_token, copy_token, same_bytes, start_login, set_keys, accept_token,
  check_token, finish_encryption, in_handshake, in_status, in_login, by_state, received_other,
  received_message, joined, joined_error, on_has_joined_post_complete, on_packet_received,
  is_status, status_json,
}
use cerios_cluster.Gateway.Session.{is_stage, any_effect}
use cerios_cluster.Gateway.Session.Facts.{
  IsSession, EnsuresSession, Ensures, Ensures-bind, Ensures-any, has_keys,
}
use cerios_cluster.Gateway.Session.Emits.{emit_benign, emit_connect, rekey, encrypt}
use cerios_cluster.Gateway.Session.Sends.{
  disconnect-IsSession, send_packet-IsSession, on_player_login-IsSession,
}

connect_for-IsSession :
    {seen : Bool} {Cipher : Type 0} (env : Environment) (t : Turn Cipher) (o : Option Owner)
    (request : List ℕ)
    → IsSession seen t
    → has_keys t.client ≡ true
    → EnsuresSession seen (connect_for env t o request)
unfolding connect_for
connect_for-IsSession env t none request v k = v
connect_for-IsSession {seen} env t (some o) request v k =
    if_elim (EnsuresSession seen) env.resolves (λ a. emit_connect v request k) (λ a. tt)

auth_with_mojang-IsSession :
    {seen : Bool} {Cipher : Type 0} (env : Environment) (t : Turn Cipher) (hash : List ℕ)
    → IsSession seen t
    → has_keys t.client ≡ true
    → EnsuresSession seen (auth_with_mojang env t hash)
unfolding auth_with_mojang
auth_with_mojang-IsSession env t hash v k =
    connect_for-IsSession env t t.client.owner (auth_request t.client.requested_username hash) v k

set_state-IsSession :
    {seen : Bool} {Cipher : Type 0} (t : Turn Cipher) (s : ClientState)
    → IsSession seen t
    → IsSession seen (set_state t s)
unfolding set_state
set_state-IsSession t s v = v

module _ {seen : Bool} (h : Host) where
  open h use {Cipher, cipher_init, sha1, sha256, rsa_decrypt, public_key, player_info}

  start_login-IsSession :
      (fuel : ℕ) (env : Environment) (t : Turn Cipher) (player_name : List ℕ)
      → IsSession seen t
      → EnsuresSession seen (start_login h fuel env t player_name)
  unfolding start_login
  start_login-IsSession fuel env t player_name v = elim (Bool-cases t.client.is_loopback) [
    | inl p ↦
        rw (p, start_login)
          (on_player_login-IsSession h fuel env
            (with_client t (record t.client {
              requested_username = player_name;
              userid = offline_id (sha256 player_name);
            }))
            (v, ground (arith, p)))
    | inr p ↦
        rw (p, start_login)
          (Ensures-any (λ (t' : Turn Cipher). IsSession seen t')
            (encryption_request h
              (record t.client { requested_username = player_name; verify_token = fresh_token env })
              (instantiate_new env client_bound login 0x01))
            _
            (λ m.
              send_packet-IsSession h fuel
                (with_client t (record t.client {
                  requested_username = player_name;
                  verify_token = fresh_token env;
                }))
                m v))
  ]

  set_keys-IsSession :
      (t : Turn Cipher) (secret : List ℕ)
      → IsSession seen t
      → Ensures
          (λ (c : Client Cipher). IsSession seen (with_client t c) × (has_keys c ≡ true))
          (set_keys h t.client secret)
  unfolding set_keys
  set_keys-IsSession t secret v =
      if_elim
        (Ensures (λ (c : Client Cipher). IsSession seen (with_client t c) × (has_keys c ≡ true)))
        (ltb (length secret) 16) (λ a. tt) (λ a. (rekey v, refl))

  accept_token-IsSession :
      (env : Environment) (t : Turn Cipher) (m : Encryption) (secret : List ℕ) (is_same : Bool)
      → IsSession seen t
      → EnsuresSession seen (accept_token h env t m secret is_same)
  unfolding accept_token
  accept_token-IsSession env t m secret false v = v
  accept_token-IsSession env t m secret true v =
      Ensures-bind (λ (c : Client Cipher). IsSession seen (with_client t c) × (has_keys c ≡ true))
        (λ (t' : Turn Cipher). IsSession seen t') (set_keys h t.client secret) _
        (set_keys-IsSession t secret v)
        (λ c (w, k).
          Ensures-any (λ (t' : Turn Cipher). IsSession seen t')
            (session_hash (sha1 (m.server_id ++ (secret ++ public_key)))) _
            (λ hash. auth_with_mojang-IsSession env (with_client t c) hash w k))

  check_token-IsSession :
      (env : Environment) (t : Turn Cipher) (m : Encryption) (token secret : List ℕ)
      → IsSession seen t
      → EnsuresSession seen (check_token h env t m token secret)
  unfolding check_token
  check_token-IsSession env t m token secret v =
      Ensures-any (λ (t' : Turn Cipher). IsSession seen t') (copy_token token m.clear_verify_token)
        _
        (λ clear. accept_token-IsSession env t m secret (same_bytes t.client.verify_token clear) v)

  in_handshake-IsSession :
      (t : Turn Cipher) (m : AnyPacket)
      → IsSession seen t
      → EnsuresSession seen (in_handshake h t m)
  unfolding in_handshake
  in_handshake-IsSession t (a_handshake m) v =
      set_state-IsSession t (client_state m.requested_next_state) v
  in_handshake-IsSession t _ v = v

  in_status-IsSession :
      (fuel : ℕ) (t : Turn Cipher) (m : AnyPacket)
      → IsSession seen t
      → EnsuresSession seen (in_status h fuel t m)
  unfolding in_status
  in_status-IsSession fuel t (a_server_status m) v =
      send_packet-IsSession h fuel t
        (a_server_status (record m { json_encoded_server_status = status_json })) v
  in_status-IsSession fuel t _ v = v

  finish_encryption-IsSession :
      (env : Environment) (t : Turn Cipher) (m : Encryption)
      → IsSession seen t
      → EnsuresSession seen (finish_encryption h env t m)
  unfolding finish_encryption
  finish_encryption-IsSession env t m v = elim (Option-cases (rsa_decrypt m.sealed_verify_token)) [
    | inl p ↦ rw (p, finish_encryption) v
    | inr (token, p) ↦ elim (Option-cases (rsa_decrypt m.sealed_shared_secret)) [
      | inl q ↦ rw (p, q, finish_encryption) v
      | inr (secret, q) ↦
          rw (p, q, finish_encryption) (check_token-IsSession env t m token secret v)
    ]
  ]

  in_login-IsSession :
      (fuel : ℕ) (env : Environment) (t : Turn Cipher) (m : AnyPacket)
      → IsSession seen t
      → EnsuresSession seen (in_login h fuel env t m)
  unfolding in_login
  in_login-IsSession fuel env t (a_login_start m) v =
      start_login-IsSession fuel env t m.player_name v
  in_login-IsSession fuel env t (an_encryption m) v =
      if_elim (EnsuresSession seen) (length t.client.requested_username == 0) (λ a. v)
        (λ a. finish_encryption-IsSession env t m v)
  in_login-IsSession fuel env t _ v = v

  by_state-IsSession :
      (fuel : ℕ) (env : Environment) (t : Turn Cipher) (s : ClientState) (m : AnyPacket)
      → IsSession seen t
      → EnsuresSession seen (by_state h fuel env t s m)
  unfolding by_state
  by_state-IsSession fuel env t ClientState.handshake m v = in_handshake-IsSession t m v
  by_state-IsSession fuel env t ClientState.status m v = in_status-IsSession fuel t m v
  by_state-IsSession fuel env t ClientState.login m v = in_login-IsSession fuel env t m v
  by_state-IsSession fuel env t _ m v = v

  received_other-IsSession :
      (fuel : ℕ) (env : Environment) (t : Turn Cipher) (o : Option Owner) (m : AnyPacket)
      → IsSession seen t
      → EnsuresSession seen (received_other h fuel env t o m)
  unfolding received_other
  received_other-IsSession fuel env t none m v = disconnect-IsSession t v
  received_other-IsSession fuel env t (some o) m v =
      if_elim (EnsuresSession seen) (on_packet_received o) (λ a. v)
        (λ a. by_state-IsSession fuel env t t.client.state m v)

  pub received_message-IsSession :
      (fuel : ℕ) (env : Environment) (t : Turn Cipher) (m : AnyPacket)
      → IsSession seen t
      → EnsuresSession seen (received_message h fuel env t m)
  unfolding received_message
  received_message-IsSession fuel env t (a_ping m) v =
      Ensures-bind (λ (t' : Turn Cipher). IsSession seen t')
        (λ (t' : Turn Cipher). IsSession seen t') (send_packet h fuel t (a_ping m)) _
        (send_packet-IsSession h fuel t (a_ping m) v)
        (λ t' w.
          if_elim (λ (u : Turn Cipher). IsSession seen u) (is_status t'.client.state)
            (λ a. emit_benign w socket_cancel refl) (λ a. w))
  received_message-IsSession fuel env t (a_keep_alive m) v = v
  received_message-IsSession fuel env t m v = received_other-IsSession fuel env t t.client.owner m v

  joined-IsSession :
      (fuel : ℕ) (env : Environment) (t : Turn Cipher) (found : Option (List ℕ × List ℕ))
      → IsSession seen t
      → any_effect is_stage t.effects ≡ true
      → EnsuresSession seen (joined h fuel env t found)
  unfolding joined
  joined-IsSession fuel env t none v s = tt
  joined-IsSession fuel env t (some (id, name)) v s =
      on_player_login-IsSession h fuel env
        (with_client t (record t.client {
          userid = format_uuid id;
          requested_username = name;
          encrypted = true;
          buffer = [];
        }))
        (encrypt v (v.staged s), ground (arith, v.staged s))

  pub on_has_joined_post_complete-IsSession :
      (fuel : ℕ) (env : Environment) (t : Turn Cipher) (body : List ℕ) (error is_eof : Bool)
      (len : ℕ)
      → IsSession seen t
      → any_effect is_stage t.effects ≡ true
      → EnsuresSession seen (on_has_joined_post_complete h fuel env t body error is_eof len)
  unfolding on_has_joined_post_complete
  on_has_joined_post_complete-IsSession fuel env t body error is_eof len v s =
      if_elim (EnsuresSession seen) (joined_error error is_eof (length body) len) (λ a. v)
        (λ a. joined-IsSession fuel env t (player_info (take len body)) v s)
