-- ===== src/Gateway/Servers/Arrival.antt =====
-- A player of the loopback address, from the frame of its login start to the relay.
use cerios_cluster.Common.{
  ℕ, ◌^◌, ◌<◌, List, [], ◌∷◌, ◌++◌, true, false, none, some, length, ◌≡◌, subst, arith,
}
use cerios_cluster.McPacket.Base.{Environment, login}
use cerios_cluster.McPacket.Messages.Text.{coded}
use cerios_cluster.Gateway.Host.{Host}
use cerios_cluster.Gateway.Uuid.{offline_id}
use cerios_cluster.Gateway.Pointers.{entry, put, pointer, erase, pointer-put, entry-erase}
use cerios_cluster.Gateway.Client.{
  Turn, login_server, client_server, start_read, async_write, timer_wait, hand_off, emit,
}
use cerios_cluster.Gateway.Client.Login.{same_bytes}
use cerios_cluster.Gateway.Client.Login.States.{same_bytes_refl}
use cerios_cluster.Gateway.Client.Login.Loopback.{named, logged_in, success_frame}
use cerios_cluster.Gateway.Client.Receive.Framing.{ReadsClear, frame}
use cerios_cluster.Gateway.LoginServer.{Pending, same_handle, set_owner, hand_off_client}
use cerios_cluster.Gateway.Relay.{Clients}
use cerios_cluster.Gateway.Client.Receive.{on_length_receive}
use cerios_cluster.Common.Outcome.{ok}
use cerios_cluster.Gateway.LoginServer.HandOff.{hand_off_client_clear}
use cerios_cluster.Gateway.Relay.Welcome.{welcomed}
use cerios_cluster.Gateway.Session.{received, is_hand_off, any_effect, Reachable}
use cerios_cluster.Gateway.Session.Facts.{any_effect-snoc}
use cerios_cluster.Gateway.Session.Safety.{Reachable-IsSession, uncompressed}
use cerios_cluster.Gateway.Session.Progress.{taken, login_frame_hands_off}
use cerios_cluster.Gateway.Servers.{Servers, pending_called, handed_off, Running, moved}
use cerios_cluster.Gateway.Servers.Holds.{Holds, pointer-Holds}
use cerios_cluster.Gateway.Servers.Invariant.{Running-IsSound}

module _ (h : Host) (fuel : ℕ) (env : Environment) where
  open h use {Cipher, sha256}

  -- The client behind the call with its login start
  abbrev pub arrived_turn : Turn Cipher → (name rest : List ℕ) → Turn Cipher
  arrived_turn t name rest =
      emit (logged_in h env (named h (taken h fuel env t rest) name) login_server) start_read

  asks_hand_off :
      (t : Turn Cipher) (name rest : List ℕ)
      → any_effect is_hand_off (arrived_turn t name rest).effects ≡ true
  asks_hand_off t name rest =
      let es = (logged_in h env (named h (taken h fuel env t rest) name) login_server).effects in
      let before =
        (t.effects ++ (async_write (success_frame (offline_id (sha256 name)) name) ∷ []))
        ++ (timer_wait ∷ []) in
      ground (
        arith,
        any_effect-snoc is_hand_off es start_read,
        any_effect-snoc is_hand_off before (hand_off login_server),
      )

  -- From every state of the two servers, and for each of its pending clients on the loopback address
  -- that is open, in the clear and in LOGIN: the call with the last bytes of the frame of a login start
  -- returns and asks for a hand-off, and the hand-off of the client that the call leaves returns, with
  -- maps that the two servers can come to. In them the relay has the player, written its welcome, under
  -- the id made of the name, and the login server has it no longer. The name is below 2 ^ 19 bytes and
  -- the id below 2 ^ 20.
  pub loopback_login_arrives :
      (s : Servers h) (native_handle : ℕ) (t : Turn Cipher) (bytes name rest : List ℕ)
      → Running h s
      → pointer same_handle native_handle s.pending ≡ some t
      → ReadsClear t
      → t.client.owner ≡ some login_server
      → t.client.state ≡ login
      → t.client.is_loopback ≡ true
      → t.client.buffer ++ bytes ≡ frame 0 (coded name) ++ rest
      → length (offline_id (sha256 name)) < 2 ^ 20
      → length name < 2 ^ 19
      → (u : Turn Cipher) × (pending : Pending Cipher) × (clients : Clients Cipher)
        × (on_length_receive h fuel env t bytes false ≡ ok u)
        × (any_effect is_hand_off u.effects ≡ true)
        × (hand_off_client h fuel env
              (put same_handle native_handle (some u) s.pending)
              s.clients
              native_handle
            ≡ ok (pending, clients))
        × Running h (record { pending = pending; clients = clients })
        × (pointer same_bytes (offline_id (sha256 name)) clients
            ≡ some (welcomed h fuel env (set_owner u client_server)))
        × (entry same_handle native_handle pending ≡ none)
  loopback_login_arrives s native_handle t bytes name rest run e (alive, plain) o login_state local
        whole id_small name_small =
      let u = arrived_turn t name rest in
      let r : Reachable h t =
        subst (λ p. Holds (Reachable h) p) e
          (pointer-Holds same_handle (Reachable h) native_handle s.pending
            (Running-IsSound h s run).0) in
      let returned =
        login_frame_hands_off h fuel env t bytes name rest login_server r (alive, plain) o
          login_state local whole id_small name_small in
      let asked = asks_hand_off t name rest in
      let pending = put same_handle native_handle (some u) s.pending in
      let there = pointer-put same_handle native_handle (some u) s.pending (ground arith) in
      let id = offline_id (sha256 name) in
      let player = welcomed h fuel env (set_owner u client_server) in
      let handed = hand_off_client_clear h fuel env pending s.clients native_handle u there (
        alive,
        plain,
        uncompressed t.client.compression_threshold (Reachable-IsSession h t r).plain,
      ) in
      let called =
        moved run (pending_called native_handle e (received fuel env bytes false returned)) in
      (
        u,
        erase same_handle native_handle pending,
        put same_bytes id (some player) s.clients,
        returned,
        asked,
        handed,
        moved called (handed_off fuel env native_handle there asked handed),
        pointer-put same_bytes id (some player) s.clients (same_bytes_refl id),
        entry-erase same_handle native_handle pending,
      )
