-- ===== src/Gateway/Session/Safety.antt =====
-- The states that a connection can come to: their invariant, and what follows from it.
use cerios_cluster.Common.{
  List, ◌++◌, Bool, false, some, ◌≡◌, subst, arith, ℕ, ◌-◌, ◌^◌, ◌<◌, ltb, length, ap, ◌∙◌,
}
use cerios_cluster.Gateway.Host.{Host}
use cerios_cluster.Common.Outcome.{◌>>=◌}
use cerios_cluster.McPacket.Base.{Environment, server_bound}
use cerios_cluster.McPacket.VarInt.Encoding.{encode}
use cerios_cluster.McPacket.Messages.Wire.{arrived}
use cerios_cluster.McPacket.Registry.{instantiate_from_data}
use cerios_cluster.Gateway.Client.Receive.{handle_parsed, on_length_receive}
use cerios_cluster.Gateway.Session.Facts.{
  both, IsSession, Ensures-ok, new_client-IsSession, SessionFacts,
}
use cerios_cluster.Gateway.Client.Receive.Framing.{ReadsClear, frame, on_length_receive-whole}
use cerios_cluster.Gateway.Client.{with_client, Turn, Owner}
use cerios_cluster.Gateway.LoginServer.{set_owner}
use cerios_cluster.Gateway.Client.Send.{send_packet}
use cerios_cluster.Gateway.Session.{
  Step, received, written, ticked, connected, shaken, requested, header_read, answered, sent,
  relayed, owned, orphaned, Reach, here, next, Reachable, received_thrown, decrypted_thrown,
  answered_thrown, login_thrown, keyed_thrown,
}
use cerios_cluster.Gateway.Session.Sends.{
  disconnect-IsSession, on_write_complete-IsSession, send_data-IsSession, send_packet-IsSession,
}
use cerios_cluster.Gateway.Session.Logins.{on_has_joined_post_complete-IsSession}
use cerios_cluster.Gateway.Session.Emits.{encrypt, rekey}
use cerios_cluster.Gateway.Session.Reads.{
  both-some, on_length_receive-IsSession, keep_alive-IsSession,
}
use cerios_cluster.Gateway.Session.Exchange.{
  connected_to_mojang-IsSession, ssl_handshake_complete-IsSession, send_http_request_done-IsSession,
  read_http_header-IsSession,
}
use cerios_cluster.Gateway.Client.Timer.{keep_alive}
use cerios_cluster.Gateway.Client.Https.{read_http_header}
use cerios_cluster.Gateway.Client.Login.{on_has_joined_post_complete}

set_owner-IsSession :
    {seen : Bool} {Cipher : Type 0} (t : Turn Cipher) (o : Owner)
    → IsSession seen t
    → IsSession seen (set_owner t o)
unfolding set_owner
set_owner-IsSession t o v = v

pub uncompressed : (threshold : ℕ) → threshold ≡ 2 ^ 32 - 1 → ltb threshold (2 ^ 31) ≡ false
uncompressed threshold e = ground (arith, e)

module _ {seen : Bool} (h : Host) where
  open h use {Cipher}

  pub Step-IsSession : {t u : Turn Cipher} → IsSession seen t → Step h t u → IsSession seen u
  Step-IsSession {t} v (received fuel env bytes error e) =
      Ensures-ok (λ (t' : Turn Cipher). IsSession seen t')
        (on_length_receive h fuel env t bytes error)
        (on_length_receive-IsSession h fuel env t bytes error v) e
  Step-IsSession {t} v (written error) = on_write_complete-IsSession t error v
  Step-IsSession {t} v (ticked fuel env error e) =
      Ensures-ok (λ (t' : Turn Cipher). IsSession seen t') (keep_alive h fuel env t error)
        (keep_alive-IsSession h fuel env t error v) e
  Step-IsSession {t} v (connected request error c) =
      connected_to_mojang-IsSession t request error v c
  Step-IsSession {t} v (shaken request error s) =
      ssl_handshake_complete-IsSession t request error v s
  Step-IsSession {t} v (requested error s) = send_http_request_done-IsSession t error v s
  Step-IsSession {t} v (header_read bytes error s e) =
      Ensures-ok (λ (t' : Turn Cipher). IsSession seen t') (read_http_header t bytes error)
        (read_http_header-IsSession t bytes error v s) e
  Step-IsSession {t} v (answered fuel env body error is_eof n s e) =
      Ensures-ok (λ (t' : Turn Cipher). IsSession seen t')
        (on_has_joined_post_complete h fuel env t body error is_eof n)
        (on_has_joined_post_complete-IsSession h fuel env t body error is_eof n v s) e
  Step-IsSession v (received_thrown buffer encrypted_buffer) = v
  Step-IsSession {t} v (decrypted_thrown context context' d) =
      subst
        (λ keys.
          SessionFacts seen t.effects t.client.compression_threshold t.client.encrypted keys
            t.client.is_loopback t.client.alive)
        (ap (both t.client.encrypt_context) d ∙ both-some t.client.encrypt_context context context')
        v
  Step-IsSession v (answered_thrown userid name s) = encrypt v (v.staged s)
  Step-IsSession {t} v (login_thrown name userid token) =
      disconnect-IsSession
        (with_client t
          (record t.client { requested_username = name; userid = userid; verify_token = token }))
        v
  Step-IsSession {t} v (keyed_thrown encrypts decrypts) =
      disconnect-IsSession
        (with_client t
          (record t.client { encrypt_context = some encrypts; decrypt_context = some decrypts }))
        (rekey v)
  Step-IsSession {t} v (sent fuel m e) =
      Ensures-ok (λ (t' : Turn Cipher). IsSession seen t') (send_packet h fuel t m)
        (send_packet-IsSession h fuel t m v) e
  Step-IsSession {t} v (relayed bytes) = send_data-IsSession h t bytes v
  Step-IsSession {t} v (owned o) = set_owner-IsSession t o v
  Step-IsSession v orphaned = v

  Reach-IsSession : {s t : Turn Cipher} → IsSession seen s → Reach h s t → IsSession seen t
  Reach-IsSession v here = v
  Reach-IsSession v (next r e) = Step-IsSession (Reach-IsSession v r) e

module _ (h : Host) where
  open h use {Cipher}

  -- Whatever calls a connection gets from its constructor on, in whichever order, its state and its
  -- effects have the facts of a session.
  pub Reachable-IsSession : (t : Turn Cipher) → Reachable h t → IsSession false t
  Reachable-IsSession t (o, is_loopback, now, stale_token, r) =
      Reach-IsSession h (new_client-IsSession Cipher o is_loopback now stale_token) r

  -- In every state that an open connection in the clear can come to, bytes that make a whole frame with
  -- what the buffer holds have the packet of the frame instantiated from its id and body and handled
  -- once, and what follows the frame stays in the buffer. The frame is below 2 ^ 31 bytes.
  pub receive_frame :
      (fuel : ℕ) (env : Environment) (t : Turn Cipher) (bytes : List ℕ) (id : ℕ)
      (body rest : List ℕ)
      → Reachable h t
      → ReadsClear t
      → t.client.buffer ++ bytes ≡ frame id body ++ rest
      → id < 2 ^ 32
      → length (encode 4 id ++ body) < 2 ^ 31
      → on_length_receive h fuel env t bytes false ≡ (
          instantiate_from_data env server_bound t.client.state (arrived id body) >>= λ m.
          handle_parsed h fuel env (with_client t (record t.client { buffer = rest })) m)
  receive_frame fuel env t bytes id body rest r clear e hid hlen =
      on_length_receive-whole h fuel env t bytes id body rest clear e
        (uncompressed t.client.compression_threshold (Reachable-IsSession t r).plain) hid hlen
