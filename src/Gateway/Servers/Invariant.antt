-- ===== src/Gateway/Servers/Invariant.antt =====
-- The invariant of the two servers: the clients that they hold.
use cerios_cluster.Common.{
  ℕ, List, [], ◌∷◌, Bool, true, false, not, ◌||◌, Option, none, some, ◌≡◌, refl, sym, subst, arith,
}
use cerios_cluster.McPacket.Base.{Environment}
use cerios_cluster.Gateway.Host.{Host}
use cerios_cluster.Gateway.Pointers.{put, pointer}
use cerios_cluster.Gateway.Client.{Client, Turn, Effect, client_server, login_server, new_client}
use cerios_cluster.Gateway.Client.Login.{same_bytes}
use cerios_cluster.Gateway.Relay.{Clients, add_client, on_data_received, client_disconnected_from}
use cerios_cluster.Gateway.LoginServer.{
  Pending, same_handle, handle_client, client_disconnected_at, set_owner, hand_off_moved,
  hand_off_client,
}
use cerios_cluster.Gateway.Session.{
  owned, here, next, Step, Reachable, is_hand_off, is_connect, any_effect,
}
use cerios_cluster.Gateway.Session.Safety.{Step-IsSession, Reachable-IsSession}
use cerios_cluster.Gateway.Session.Facts.{
  IsSession, preceded, has_keys, Ensures, Ensures-bind, Ensures-ok,
}
use cerios_cluster.Gateway.Servers.{
  Servers, Move, accepted, pending_called, handed_off, pending_closed, client_called, client_closed,
  datagram_received, Running, started, moved,
}
use cerios_cluster.Gateway.Servers.Holds.{Holds, AllHold, put-AllHold, erase-AllHold, pointer-Holds}
use cerios_cluster.Gateway.Servers.Relayed.{add_client-AllHold, on_data_received-AllHold}

preceded-any :
    (p q : Effect → Bool) (es : List Effect)
    → preceded p q es ≡ true
    → any_effect p es ≡ true
    → any_effect q es ≡ true
preceded-any p q [] o a = a
preceded-any p q (e ∷ es) o a = ground (arith, o, a, preceded-any p q es)

-- A client that has asked to be handed off was asked about, or need not be.
handed_over :
    {Cipher : Type 0} (t : Turn Cipher)
    → IsSession false t
    → any_effect is_hand_off t.effects ≡ true
    → IsSession true t
handed_over t v a = record {
  plain = v.plain;
  keyed = v.keyed;
  ready = v.ready;
  staged = v.staged;
  in_order = v.in_order;
  handed = v.handed;
  remembered = λ e. ground (arith, v.handed, preceded-any is_hand_off is_connect t.effects, a);
  silent = v.silent;
  open_socket = v.open_socket;
}

module _ (h : Host) where
  open h use {Cipher}

  -- A client of the relay, by what it can come to and what it has asked for
  abbrev pub IsPlayer : Turn Cipher → Type 0
  IsPlayer t = Reachable h t × IsSession true t

  Reachable-Step : {t u : Turn Cipher} → Reachable h t → Step h t u → Reachable h u
  Reachable-Step (o, is_loopback, now, stale_token, r) s =
      (o, is_loopback, now, stale_token, next r s)

  Step-IsPlayer : (t u : Turn Cipher) → IsPlayer t → Step h t u → IsPlayer u
  Step-IsPlayer t u (r, v) s = (Reachable-Step r s, Step-IsSession h v s)

  -- The login server holds connections, and the relay players.
  abbrev pub IsSound : Pending Cipher → Clients Cipher → Type 0
  IsSound pending clients = AllHold (Reachable h) pending × AllHold IsPlayer clients

  hand_off_moved-IsSound :
      (fuel : ℕ) (env : Environment) (pending : Pending Cipher) (clients : Clients Cipher)
      (native_handle : ℕ) (p : Option (Turn Cipher))
      → IsSound pending clients
      → Holds IsPlayer p
      → Ensures
          (λ (m : Pending Cipher × Clients Cipher). IsSound m.0 m.1)
          (hand_off_moved h fuel env pending clients native_handle p)
  unfolding hand_off_moved set_owner
  hand_off_moved-IsSound fuel env pending clients native_handle none a q = a
  hand_off_moved-IsSound fuel env pending clients native_handle (some t) (a, b) r =
      Ensures-bind (λ (c : Clients Cipher). AllHold IsPlayer c) _
        (add_client h fuel env clients (set_owner t client_server)) _
        (add_client-AllHold h IsPlayer Step-IsPlayer fuel env clients (set_owner t client_server) b
          (Step-IsPlayer t (set_owner t client_server) r (owned client_server)))
        (λ c d. (erase-AllHold same_handle (Reachable h) native_handle pending a, d))

  hand_off_client-IsSound :
      (fuel : ℕ) (env : Environment) (pending : Pending Cipher) (clients : Clients Cipher)
      (native_handle : ℕ) (t : Turn Cipher)
      → IsSound pending clients
      → pointer same_handle native_handle pending ≡ some t
      → any_effect is_hand_off t.effects ≡ true
      → Ensures
          (λ (m : Pending Cipher × Clients Cipher). IsSound m.0 m.1)
          (hand_off_client h fuel env pending clients native_handle)
  unfolding hand_off_client
  hand_off_client-IsSound fuel env pending clients native_handle t (a, b) e asked =
      let r : Reachable h t =
        subst (λ p. Holds (Reachable h) p) e
          (pointer-Holds same_handle (Reachable h) native_handle pending a) in
      hand_off_moved-IsSound fuel env (put same_handle native_handle none pending) clients
        native_handle (pointer same_handle native_handle pending)
        (put-AllHold same_handle (Reachable h) native_handle none pending tt a, b)
        (subst (λ p. Holds IsPlayer p) (sym e) (r, handed_over t (Reachable-IsSession h t r) asked))

  handle_client-AllHold :
      (pending : Pending Cipher) (native_handle : ℕ) (is_loopback : Bool) (now : ℕ)
      (stale_token : List ℕ) (error : Bool)
      → AllHold (Reachable h) pending
      → AllHold
          (Reachable h)
          (handle_client pending native_handle is_loopback now stale_token error)
  unfolding handle_client
  handle_client-AllHold pending native_handle is_loopback now stale_token true a = a
  handle_client-AllHold pending native_handle is_loopback now stale_token false a =
      put-AllHold same_handle (Reachable h) native_handle
        (some (new_client login_server is_loopback now stale_token)) pending
        (login_server, is_loopback, now, stale_token, here) a

  client_disconnected_at-AllHold :
      (pending : Pending Cipher) (native_handle : ℕ) (is_connected : Bool)
      → AllHold (Reachable h) pending
      → Ensures
          (λ (p : Pending Cipher). AllHold (Reachable h) p)
          (client_disconnected_at pending native_handle is_connected)
  unfolding client_disconnected_at
  client_disconnected_at-AllHold pending native_handle false a = tt
  client_disconnected_at-AllHold pending native_handle true a =
      erase-AllHold same_handle (Reachable h) native_handle pending a

  client_disconnected_from-AllHold :
      (clients : Clients Cipher) (c : Client Cipher)
      → AllHold IsPlayer clients
      → AllHold IsPlayer (client_disconnected_from clients c)
  unfolding client_disconnected_from
  client_disconnected_from-AllHold clients c a =
      erase-AllHold same_bytes IsPlayer c.userid clients a

  Move-IsSound :
      {s s' : Servers h} → IsSound s.pending s.clients → Move h s s' → IsSound s'.pending s'.clients
  Move-IsSound {s} (a, b) (accepted native_handle is_loopback now stale_token error) =
      (handle_client-AllHold s.pending native_handle is_loopback now stale_token error a, b)
  Move-IsSound {s} (a, b) (pending_called {t = t} {u = u} native_handle e step) = (
    put-AllHold same_handle (Reachable h) native_handle (some u) s.pending
        (Reachable-Step
          (subst (λ p. Holds (Reachable h) p) e
            (pointer-Holds same_handle (Reachable h) native_handle s.pending a))
          step)
        a,
    b,
  )
  Move-IsSound {s} a (handed_off {t = t} fuel env native_handle e asked done) =
      Ensures-ok (λ (m : Pending Cipher × Clients Cipher). IsSound m.0 m.1)
        (hand_off_client h fuel env s.pending s.clients native_handle)
        (hand_off_client-IsSound fuel env s.pending s.clients native_handle t a e asked) done
  Move-IsSound {s} (a, b) (pending_closed native_handle is_connected e) = (
    Ensures-ok (λ (p : Pending Cipher). AllHold (Reachable h) p)
        (client_disconnected_at s.pending native_handle is_connected)
        (client_disconnected_at-AllHold s.pending native_handle is_connected a) e,
    b,
  )
  Move-IsSound {s} (a, b) (client_called {t = t} {u = u} id e step) = (
    a,
    put-AllHold same_bytes IsPlayer id (some u) s.clients
        (Step-IsPlayer t u
          (subst (λ p. Holds IsPlayer p) e (pointer-Holds same_bytes IsPlayer id s.clients b)) step)
        b,
  )
  Move-IsSound {s} (a, b) (client_closed c) = (a, client_disconnected_from-AllHold s.clients c b)
  Move-IsSound {s} (a, b) (datagram_received fuel datagram e) = (
    a,
    Ensures-ok (λ (c : Clients Cipher). AllHold IsPlayer c)
        (on_data_received h fuel s.clients datagram)
        (on_data_received-AllHold h IsPlayer Step-IsPlayer fuel s.clients datagram b) e,
  )

  -- Whatever calls the two servers get, in whichever order, each client that is pending, and each player
  -- of the relay, is in a state that a connection can come to by calls of that one client, and of a
  -- player the session server was asked, unless its address is the loopback address.
  pub Running-IsSound : (s : Servers h) → Running h s → IsSound s.pending s.clients
  Running-IsSound s started = (tt, tt)
  Running-IsSound s (moved {s = before} r m) = Move-IsSound (Running-IsSound before r) m

  -- Whatever calls the two servers get, in whichever order, each player in the map of the relay is in a
  -- state that a connection can come to. The session server was asked about it, unless its address is
  -- the loopback address, and where it was asked, both ciphers are set up.
  pub player_was_asked :
      (s : Servers h) (id : List ℕ) (t : Turn Cipher)
      → Running h s
      → pointer same_bytes id s.clients ≡ some t
      → Reachable h t
        × ((t.client.is_loopback || any_effect is_connect t.effects) ≡ true)
        × ((not (any_effect is_connect t.effects) || has_keys t.client) ≡ true)
  player_was_asked s id t r e =
      let (reached, v) : IsPlayer t =
        subst (λ p. Holds IsPlayer p) e
          (pointer-Holds same_bytes IsPlayer id s.clients (Running-IsSound s r).1) in
      (reached, v.remembered refl, ground (arith, v.ready))
