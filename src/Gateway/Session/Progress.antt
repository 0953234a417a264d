-- ===== src/Gateway/Session/Progress.antt =====
-- The frame of a login start, from the socket to the hand-off.
use cerios_cluster.Common.{
  ℕ, ◌^◌, ◌<◌, List, [], ◌++◌, append-nil, length-append, true, false, some, length, ◌≡◌, refl, ◌∙◌,
  ap, arith,
}
use cerios_cluster.Common.Outcome.{Outcome, ok, ◌>>=◌}
use cerios_cluster.McPacket.Base.{Environment, server_bound, login}
use cerios_cluster.McPacket.VarInt.Encoding.{encode, length-encode}
use cerios_cluster.McPacket.Messages.Wire.{arrived}
use cerios_cluster.McPacket.Messages.Text.{coded}
use cerios_cluster.McPacket.Messages.Login.{LoginStart}
use cerios_cluster.McPacket.Messages.Login.RoundTrip.{parse_login_start_lem}
use cerios_cluster.McPacket.Classes.{a_login_start}
use cerios_cluster.McPacket.Registry.{instantiate_from_data}
use cerios_cluster.Gateway.Host.{Host}
use cerios_cluster.Gateway.Uuid.{offline_id}
use cerios_cluster.Gateway.Client.{Turn, Owner, start_read, emit, with_client}
use cerios_cluster.Gateway.Client.Login.Loopback.{named, logged_in, received_login_start_loopback}
use cerios_cluster.Gateway.Client.Receive.{caught, handle_parsed, on_length_receive}
use cerios_cluster.Gateway.Client.Receive.Framing.{ReadsClear, frame}
use cerios_cluster.Gateway.Session.{Reachable}
use cerios_cluster.Gateway.Session.Safety.{Reachable-IsSession, uncompressed, receive_frame}

abbrev a_login_start_of : List ℕ → LoginStart
a_login_start_of name = record { base = arrived 0 []; player_name = name }

login_start_instantiated :
    (env : Environment) (name : List ℕ)
    → length name < 2 ^ 31
    → instantiate_from_data env server_bound login (arrived 0 (coded name))
      ≡ ok (some (a_login_start (a_login_start_of name)))
unfolding instantiate_from_data
login_start_instantiated env name h =
    rw (← append-nil (coded name), parse_login_start_lem 0 name [] h) refl

length-login_payload :
    (name : List ℕ) → length name < 2 ^ 19 → length (encode 4 0 ++ coded name) < 2 ^ 31
length-login_payload name h = omega (
  arith,
  length-append (encode 4 0) (coded name),
  length-append (encode 4 (length name)) name,
  length-encode 4 0,
  length-encode 4 (length name),
)

module _ (h : Host) (fuel : ℕ) (env : Environment) where
  open h use {Cipher, sha256}

  -- The client before the packet is handled
  abbrev pub taken : Turn Cipher → List ℕ → Turn Cipher
  taken t rest = with_client t (record t.client { buffer = rest })

  handled_login_start :
      (t : Turn Cipher) (name : List ℕ) (o : Owner)
      → Reachable h t
      → ReadsClear t
      → t.client.owner ≡ some o
      → t.client.state ≡ login
      → t.client.is_loopback ≡ true
      → length (offline_id (sha256 name)) < 2 ^ 20
      → length name < 2 ^ 19
      → (rest : List ℕ)
      → handle_parsed h fuel env (taken t rest) (some (a_login_start (a_login_start_of name)))
        ≡ ok (emit (logged_in h env (named h (taken t rest) name) o) start_read)
  unfolding handle_parsed caught
  handled_login_start t name o r (a, e) ow s l u n rest =
      ap (λ (m : Outcome (Turn Cipher)). caught (taken t rest) m)
        (received_login_start_loopback h fuel env (taken t rest) (a_login_start_of name) o ow s l
          (a, e, uncompressed t.client.compression_threshold (Reachable-IsSession h t r).plain) u n)

  -- In every state that an open connection from the loopback address, in the clear, in the state LOGIN
  -- and with an owner can come to, the call with the last bytes of the frame of a login start returns:
  -- the client is logged in with the name of the packet, its owner is asked to hand it off, and the next
  -- read is started. The name is below 2 ^ 19 bytes and the id made of it below 2 ^ 20.
  pub login_frame_hands_off :
      (t : Turn Cipher) (bytes name rest : List ℕ) (o : Owner)
      → Reachable h t
      → ReadsClear t
      → t.client.owner ≡ some o
      → t.client.state ≡ login
      → t.client.is_loopback ≡ true
      → t.client.buffer ++ bytes ≡ frame 0 (coded name) ++ rest
      → length (offline_id (sha256 name)) < 2 ^ 20
      → length name < 2 ^ 19
      → on_length_receive h fuel env t bytes false
        ≡ ok (emit (logged_in h env (named h (taken t rest) name) o) start_read)
  login_frame_hands_off t bytes name rest o r clear ow s l e u n =
      receive_frame h fuel env t bytes 0 (coded name) rest r clear e (omega arith)
        (length-login_payload name n)
      ∙ ap
          (λ state. instantiate_from_data env server_bound state (arrived 0 (coded name)) >>= λ m.
            handle_parsed h fuel env (taken t rest) m)
          s
      ∙ rw (login_start_instantiated env name (omega (arith, n)))
          (handled_login_start t name o r clear ow s l u n rest)
