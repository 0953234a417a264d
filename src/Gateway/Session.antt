-- ===== src/Gateway/Session.antt =====
-- A connection of a player over time: the calls that the event loop, the timer, the session server and
-- the owner make of one client (Client Gateway/Client.cpp), in any order.
--
-- A step is a call that returns, or what a call has changed before an exception leaves it, which ends
-- at the worker thread. The callbacks of the exchange with the session server are called only after a
-- call has asked for them; all else may come at any time.
pub mod Facts
pub mod Emits
pub mod Sends
pub mod Logins
pub mod Reads
pub mod Exchange
pub mod Safety
pub mod Liveness
pub mod Progress
use cerios_cluster.Common.{ℕ, List, [], ◌∷◌, Bool, true, false, ◌||◌, Option, none, some, ◌≡◌}
use cerios_cluster.Common.Outcome.{Outcome, ok}
use cerios_cluster.McPacket.Base.{Environment}
use cerios_cluster.McPacket.Classes.{AnyPacket}
use cerios_cluster.Gateway.Host.{Host}
use cerios_cluster.Gateway.Client.{
  Owner, Effect, Client, Turn, start_read, async_write, async_write_freed, socket_cancel,
  close_socket, client_disconnected, timer_expires_from_now, timer_wait, hand_off, https_connect,
  https_handshake, https_write, https_read_header, https_read_body, with_client, disconnect,
  on_write_complete, new_client,
}
use cerios_cluster.Gateway.Client.Login.{on_has_joined_post_complete}
use cerios_cluster.Gateway.Client.Send.{send_data, send_packet}
use cerios_cluster.Gateway.Client.Receive.{on_length_receive}
use cerios_cluster.Gateway.Client.Timer.{keep_alive}
use cerios_cluster.Gateway.Client.Https.{
  connected_to_mojang, ssl_handshake_complete, send_http_request_done, read_http_header,
}
use cerios_cluster.Gateway.LoginServer.{set_owner}

-- The kinds of effects
abbrev pub is_write : Effect → Bool
is_write (async_write bytes) = true
is_write (async_write_freed bytes) = true
is_write _ = false

abbrev pub is_close : Effect → Bool
is_close close_socket = true
is_close _ = false

abbrev pub is_hand_off : Effect → Bool
is_hand_off (hand_off o) = true
is_hand_off _ = false

abbrev pub is_connect : Effect → Bool
is_connect (https_connect request) = true
is_connect _ = false

-- A later stage of the exchange with the session server
abbrev pub is_stage : Effect → Bool
is_stage (https_handshake request) = true
is_stage (https_write request) = true
is_stage https_read_header = true
is_stage (https_read_body content_length held) = true
is_stage _ = false

abbrev pub any_effect : (Effect → Bool) → List Effect → Bool
any_effect p [] = false
any_effect p (e ∷ es) = p e || any_effect p es

pub data Step (h : Host) (t : Turn h.Cipher) : Turn h.Cipher → Type 0 where
  received :
      {t' : Turn h.Cipher} (fuel : ℕ) (env : Environment) (bytes : List ℕ) (error : Bool)
      → on_length_receive h fuel env t bytes error ≡ ok t'
      → Step h t t'
  written : (error : Bool) → Step h t (on_write_complete t error)
  ticked :
      {t' : Turn h.Cipher} (fuel : ℕ) (env : Environment) (error : Bool)
      → keep_alive h fuel env t error ≡ ok t'
      → Step h t t'
  connected :
      (request : List ℕ) (error : Bool)
      → any_effect is_connect t.effects ≡ true
      → Step h t (connected_to_mojang t request error)
  shaken :
      (request : List ℕ) (error : Bool)
      → any_effect is_stage t.effects ≡ true
      → Step h t (ssl_handshake_complete t request error)
  requested :
      (error : Bool)
      → any_effect is_stage t.effects ≡ true
      → Step h t (send_http_request_done t error)
  header_read :
      {t' : Turn h.Cipher} (bytes : List ℕ) (error : Bool)
      → any_effect is_stage t.effects ≡ true
      → read_http_header t bytes error ≡ ok t'
      → Step h t t'
  answered :
      {t' : Turn h.Cipher} (fuel : ℕ) (env : Environment) (body : List ℕ) (error is_eof : Bool)
      (content_length : ℕ)
      → any_effect is_stage t.effects ≡ true
      → on_has_joined_post_complete h fuel env t body error is_eof content_length ≡ ok t'
      → Step h t t'
  -- An exception leaves onLengthReceive, with whatever is then in the buffers and the cipher, or
  -- onHasJoinedPostComplete, behind its assignments.
  received_thrown :
      (buffer encrypted_buffer : List ℕ)
      → Step h t
          (with_client t (record t.client { buffer = buffer; encrypted_buffer = encrypted_buffer }))
  decrypted_thrown :
      (context context' : h.Cipher)
      → t.client.decrypt_context ≡ some context
      → Step h t (with_client t (record t.client { decrypt_context = some context' }))
  answered_thrown :
      (userid name : List ℕ)
      → any_effect is_stage t.effects ≡ true
      → Step h t (
          with_client t (record t.client {
            userid = userid;
            requested_username = name;
            encrypted = true;
            buffer = [];
          }))
  -- An exception that is caught closes the client, with what receivedMessage has assigned before it.
  login_thrown :
      (name userid token : List ℕ)
      → Step h t (
          disconnect (
            with_client t (record t.client {
              requested_username = name;
              userid = userid;
              verify_token = token;
            })))
  keyed_thrown :
      (encrypts decrypts : h.Cipher)
      → Step h t (
          disconnect (
            with_client t (record t.client {
              encrypt_context = some encrypts;
              decrypt_context = some decrypts;
            })))
  -- The owner sends a packet or data, and a client may change or lose its owner.
  sent :
      {t' : Turn h.Cipher} (fuel : ℕ) (m : AnyPacket) → send_packet h fuel t m ≡ ok t' → Step h t t'
  relayed : (bytes : List ℕ) → Step h t (send_data h t bytes)
  owned : (o : Owner) → Step h t (set_owner t o)
  orphaned : Step h t (with_client t (record t.client { owner = none }))

pub data Reach (h : Host) (s : Turn h.Cipher) : Turn h.Cipher → Type 0 where
  here : Reach h s s
  next : {t u : Turn h.Cipher} → Reach h s t → Step h t u → Reach h s u

-- What a connection can come to from its constructor
abbrev pub Reachable : (h : Host) → Turn h.Cipher → Type 0
Reachable h t =
    (o : Owner) × (is_loopback : Bool) × (now : ℕ) × (stale_token : List ℕ) × Reach h
      (new_client o is_loopback now stale_token) t
