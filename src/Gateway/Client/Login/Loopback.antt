-- ===== src/Gateway/Client/Login/Loopback.antt =====
-- The login of a player on the loopback address, in Client Gateway/Client.cpp: from its packet to the
-- hand-off.
use cerios_cluster.Common.{
  ℕ, ◌^◌, ◌<◌, List, ◌++◌, length-append, Bool, true, some, length, ◌≡◌, refl, ◌∙◌, ap, arith,
}
use cerios_cluster.Common.Outcome.{ok}
use cerios_cluster.McPacket.Base.{Environment, client_bound, login, play}
use cerios_cluster.McPacket.VarInt.Encoding.{encode, length-encode}
use cerios_cluster.McPacket.Messages.Wire.{written}
use cerios_cluster.McPacket.Messages.Text.{coded}
use cerios_cluster.McPacket.Messages.Login.{LoginStart, LoginSuccess, make_login_success}
use cerios_cluster.McPacket.Messages.Login.RoundTrip.{serialize_login_success_lem}
use cerios_cluster.McPacket.Classes.{a_login_start, a_login_success, serialize, base_of}
use cerios_cluster.McPacket.Registry.{instantiate_new}
use cerios_cluster.Gateway.Host.{Host}
use cerios_cluster.Gateway.Uuid.{offline_id}
use cerios_cluster.Gateway.Client.{
  Client, Turn, Owner, login_server, client_server, async_write, timer_wait, hand_off, emit,
  with_client,
}
use cerios_cluster.Gateway.Client.Send.{send_packet, login_success, on_player_login, hand_off_to}
use cerios_cluster.Gateway.Client.Send.Frames.{WritesClear, send_packet_clear}
use cerios_cluster.Gateway.Client.Login.{
  received_message, received_other, by_state, in_login, start_login, on_packet_received,
}

-- The payload of the login success of a client, and its frame
abbrev pub success_payload : (userid username : List ℕ) → List ℕ
success_payload userid username = encode 4 2 ++ (coded userid ++ coded username)

abbrev pub success_frame : (userid username : List ℕ) → List ℕ
success_frame userid username =
    encode 4 (length (success_payload userid username)) ++ success_payload userid username

length-success_payload :
    (userid username : List ℕ)
    → length userid < 2 ^ 20
    → length username < 2 ^ 19
    → length (success_payload userid username) < 2 ^ 21
length-success_payload userid username u n = omega (
  arith,
  length-append (encode 4 2) (coded userid ++ coded username),
  length-append (coded userid) (coded username),
  length-append (encode 4 (length userid)) userid,
  length-append (encode 4 (length username)) username,
  length-encode 4 2,
  length-encode 4 (length userid),
  length-encode 4 (length username),
)

module _ (h : Host) where
  open h use {Cipher, sha256}

  -- The client with the name that it gives and the id that is made of it
  abbrev pub named : Turn Cipher → List ℕ → Turn Cipher
  named t player_name = with_client t (record t.client {
    requested_username = player_name;
    userid = offline_id (sha256 player_name);
  })

  login_success_new :
      (env : Environment) (c : Client Cipher)
      → login_success h c (instantiate_new env client_bound login 0x02)
        ≡ ok (
            a_login_success
              (record make_login_success { uuid = c.userid; username = c.requested_username }))
  unfolding login_success instantiate_new
  login_success_new env c = refl

  send_login_success :
      (fuel : ℕ) (t : Turn Cipher)
      → WritesClear t
      → length t.client.userid < 2 ^ 20
      → length t.client.requested_username < 2 ^ 19
      → send_packet h fuel t (
          a_login_success (record make_login_success {
            uuid = t.client.userid;
            username = t.client.requested_username;
          }))
        ≡ ok (emit t (async_write (success_frame t.client.userid t.client.requested_username)))
  unfolding serialize base_of make_login_success
  send_login_success fuel t clear u n =
      let m : LoginSuccess = record make_login_success {
        uuid = t.client.userid;
        username = t.client.requested_username;
      } in
      send_packet_clear h fuel t (a_login_success m)
        (a_login_success (record m { base = written 2 (coded m.uuid ++ coded m.username) })) clear
        (rw (serialize_login_success_lem m (omega arith) (omega (arith, u)) (omega (arith, n)))
          refl)
        (length-success_payload t.client.userid t.client.requested_username u n)

  -- A client after its login: in PLAY, and handed to the owner it had.
  abbrev pub logged_in : Environment → Turn Cipher → Owner → Turn Cipher
  logged_in env t o =
      emit
        (emit
          (emit (with_client t (record t.client { state = play; last_seen = env.time }))
            (async_write (success_frame t.client.userid t.client.requested_username)))
          timer_wait)
        (hand_off o)

  on_player_login_clear :
      (fuel : ℕ) (env : Environment) (t : Turn Cipher) (o : Owner)
      → t.client.owner ≡ some o
      → WritesClear t
      → length t.client.userid < 2 ^ 20
      → length t.client.requested_username < 2 ^ 19
      → on_player_login h fuel env t ≡ ok (logged_in env t o)
  unfolding on_player_login hand_off_to
  on_player_login_clear fuel env t o e clear u n =
      rw (login_success_new env t.client, send_login_success fuel t clear u n)
        (ap
          (λ w. ok (
            hand_off_to h
              (emit
                (with_client
                  (emit t (async_write (success_frame t.client.userid t.client.requested_username)))
                  (record t.client { state = play; last_seen = env.time }))
                timer_wait)
              w))
          e)

  start_login_loopback :
      (fuel : ℕ) (env : Environment) (t : Turn Cipher) (player_name : List ℕ)
      → t.client.is_loopback ≡ true
      → start_login h fuel env t player_name ≡ on_player_login h fuel env (named t player_name)
  unfolding start_login
  start_login_loopback fuel env t player_name l =
      rw (l, start_login)
        (ap
          (λ (b : Bool). on_player_login h fuel env (
            with_client t (record t.client {
              requested_username = player_name;
              userid = offline_id (sha256 player_name);
              is_loopback = b;
            })))
          l)

  received_other_login_start :
      (fuel : ℕ) (env : Environment) (t : Turn Cipher) (m : LoginStart) (o : Owner)
      → t.client.state ≡ login
      → received_other h fuel env t (some o) (a_login_start m)
        ≡ start_login h fuel env t m.player_name
  unfolding received_other by_state in_login on_packet_received
  received_other_login_start fuel env t m login_server s =
      ap (λ state. by_state h fuel env t state (a_login_start m)) s
  received_other_login_start fuel env t m client_server s =
      ap (λ state. by_state h fuel env t state (a_login_start m)) s

  -- A player on the loopback address that starts its login, in the clear and in the state LOGIN, is
  -- logged in at once, with its name and the id made of it: the login success is written in one frame,
  -- the client is in PLAY, its timer waits, and its owner is asked to hand it off. The name is below
  -- 2 ^ 19 bytes and the id below 2 ^ 20.
  pub received_login_start_loopback :
      (fuel : ℕ) (env : Environment) (t : Turn Cipher) (m : LoginStart) (o : Owner)
      → t.client.owner ≡ some o
      → t.client.state ≡ login
      → t.client.is_loopback ≡ true
      → WritesClear t
      → length (offline_id (sha256 m.player_name)) < 2 ^ 20
      → length m.player_name < 2 ^ 19
      → received_message h fuel env t (a_login_start m)
        ≡ ok (logged_in env (named t m.player_name) o)
  unfolding received_message
  received_login_start_loopback fuel env t m o e s l clear u n =
      ap (λ w. received_other h fuel env t w (a_login_start m)) e
      ∙ received_other_login_start fuel env t m o s
      ∙ start_login_loopback fuel env t m.player_name l
      ∙ on_player_login_clear fuel env (named t m.player_name) o e clear u n
