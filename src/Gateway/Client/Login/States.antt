-- ===== src/Gateway/Client/Login/States.antt =====
-- receivedMessage of Client Gateway/Client.cpp: the states of a connection, and how it ends.
use cerios_cluster.Common.{
  ℕ, List, [], ◌∷◌, ◌++◌, true, some, ◌≡◌, inl, inr, refl, ap, ◌∙◌, ◌≤◌, false, length, arith,
  Bool-cases,
}
use cerios_cluster.Common.Outcome.{ok, throws, system_error}
use cerios_cluster.McPacket.Base.{Environment, handshake, client_state}
use cerios_cluster.Gateway.Host.{Host}
use cerios_cluster.McPacket.Messages.Session.{Handshake}
use cerios_cluster.McPacket.Messages.Login.{Encryption}
use cerios_cluster.McPacket.Classes.{a_handshake}
use cerios_cluster.Gateway.Client.{
  Client, Turn, Owner, login_server, client_server, farewell, disconnect, set_state, with_client,
}
use cerios_cluster.Gateway.Client.Login.{
  received_message, received_other, accept_token, same_bytes, by_state, in_handshake,
  on_packet_received, set_keys,
}
use cerios_cluster.Gateway.Client.Auth.{auth_request, connect_for, auth_with_mojang}
use cerios_cluster.Gateway.Digest.{session_hash}

disconnect_open :
    {Cipher : Type 0} (t : Turn Cipher)
    → t.client.alive ≡ true
    → disconnect t ≡ record {
      client = record t.client { alive = false };
      effects = t.effects ++ farewell t.client.owner;
    }
unfolding disconnect
disconnect_open t ha = rw ha

disconnect_closed : {Cipher : Type 0} (t : Turn Cipher) → t.client.alive ≡ false → disconnect t ≡ t
unfolding disconnect
disconnect_closed t ha = rw ha

disconnect_twice : {Cipher : Type 0} (t : Turn Cipher) → disconnect (disconnect t) ≡ disconnect t
disconnect_twice t = elim (Bool-cases t.client.alive) [
  | inl ha ↦ rw (disconnect_open t ha) (disconnect_closed _ refl)
  | inr ha ↦ rw (disconnect_closed t ha) (disconnect_closed t ha)
]

-- On an open connection disconnect closes the socket, marks the client as closed and tells the owner
-- it has, once; on a closed one, and so a second time, it does nothing.
pub disconnect_lem :
    {Cipher : Type 0} (t : Turn Cipher)
    → (t.client.alive ≡ true
        → disconnect t ≡ record {
          client = record t.client { alive = false };
          effects = t.effects ++ farewell t.client.owner;
        })
      × (t.client.alive ≡ false → disconnect t ≡ t)
      × (disconnect (disconnect t) ≡ disconnect t)
disconnect_lem t = (disconnect_open t, disconnect_closed t, disconnect_twice t)

received_other_handshake :
    (h : Host) (fuel : ℕ) (env : Environment) (t : Turn h.Cipher) (m : Handshake) (o : Owner)
    → t.client.state ≡ handshake
    → received_other h fuel env t (some o) (a_handshake m)
      ≡ ok (set_state t (client_state m.requested_next_state))
unfolding received_other by_state in_handshake on_packet_received
received_other_handshake h fuel env t m login_server hs = rw hs
received_other_handshake h fuel env t m client_server hs = rw hs

-- A handshake moves a client to whichever state it asks for: with 3 a client that never logged in is
-- in PLAY. Nothing is written, and the client keeps its owner.
pub received_message_handshake :
    (h : Host) (fuel : ℕ) (env : Environment) (t : Turn h.Cipher) (m : Handshake) (o : Owner)
    → t.client.owner ≡ some o
    → t.client.state ≡ handshake
    → received_message h fuel env t (a_handshake m)
      ≡ ok (set_state t (client_state m.requested_next_state))
unfolding received_message
received_message_handshake h fuel env t m o ho hs =
    ap (λ w. received_other h fuel env t w (a_handshake m)) ho
    ∙ received_other_handshake h fuel env t m o hs

pub same_bytes_refl : (xs : List ℕ) → same_bytes xs xs ≡ true
unfolding same_bytes
same_bytes_refl [] = refl
same_bytes_refl (x ∷ xs) = ground (arith, same_bytes_refl xs)

pub same_bytes_eq : (xs ys : List ℕ) → same_bytes xs ys ≡ true → xs ≡ ys
unfolding same_bytes
same_bytes_eq [] [] e = refl
same_bytes_eq [] (y ∷ ys) e = absurd (ground (arith, e))
same_bytes_eq (x ∷ xs) [] e = absurd (ground (arith, e))
same_bytes_eq (x ∷ xs) (y ∷ ys) e = elim (Bool-cases (same_bytes xs ys)) [
  | inl s ↦ ground (arith, e, s, same_bytes_eq xs ys s)
  | inr s ↦ ground (arith, e, s)
]

pub set_keys_whole :
    (h : Host) (c : Client h.Cipher) (secret : List ℕ)
    → 16 ≤ length secret
    → set_keys h c secret
      ≡ ok (record c {
        encrypt_context = some (h.cipher_init secret);
        decrypt_context = some (h.cipher_init secret);
      })
unfolding set_keys
set_keys_whole h c secret l = ground arith

connect_for_unresolved :
    {Cipher : Type 0} (env : Environment) (t : Turn Cipher) (request : List ℕ) (o : Owner)
    → t.client.owner ≡ some o
    → env.resolves ≡ false
    → connect_for env t t.client.owner request ≡ throws system_error
unfolding connect_for
connect_for_unresolved env t request o ho hr = rw ho (rw hr refl)

-- Where the name of the session server is not found, the answer with the right token ends in an
-- exception, behind the set-up of the keys.
pub accept_token_unresolved :
    (h : Host) (env : Environment) (t : Turn h.Cipher) (m : Encryption) (secret hash : List ℕ)
    (o : Owner)
    → 16 ≤ length secret
    → session_hash (h.sha1 (m.server_id ++ (secret ++ h.public_key))) ≡ ok hash
    → t.client.owner ≡ some o
    → env.resolves ≡ false
    → accept_token h env t m secret true ≡ throws system_error
unfolding accept_token auth_with_mojang
accept_token_unresolved h env t m secret hash o hl hh ho hr =
    rw (set_keys_whole h t.client secret hl, hh)
      (connect_for_unresolved env
        (with_client t (record t.client {
          encrypt_context = some (h.cipher_init secret);
          decrypt_context = some (h.cipher_init secret);
        }))
        (auth_request t.client.requested_username hash) o ho hr)
