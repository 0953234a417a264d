-- ===== src/Gateway/EventLoop/Accounts.antt =====
-- What is outstanding with the event loop, in every state that the program can come to.
use cerios_cluster.Common.{
  ℕ, suc, ◌+◌, ◌≤◌, List, [], Bool, true, false, Option, none, some, if◌then◌else◌, ◌≡◌, refl, ap,
  arith, Bool-cases, inl, inr,
}
use cerios_cluster.Common.Outcome.{ok}
use cerios_cluster.Gateway.Host.{Host}
use cerios_cluster.Gateway.Pointers.{Pointers, pointer, erase}
use cerios_cluster.Gateway.Client.{Turn}
use cerios_cluster.Gateway.Client.Login.{same_bytes}
use cerios_cluster.Gateway.Relay.{Clients, client_disconnected_from, on_data_received}
use cerios_cluster.Gateway.LoginServer.{Pending, same_handle, client_disconnected_at}
use cerios_cluster.Gateway.Session.Facts.{Ensures, Ensures-ok, Ensures-bind}
use cerios_cluster.Gateway.Servers.Relayed.{Ensures-self}
use cerios_cluster.Gateway.Servers.{
  Servers, Move, accepted, pending_called, handed_off, pending_closed, client_called, client_closed,
  datagram_received, Running, started, moved,
}
use cerios_cluster.Gateway.EventLoop.{
  Gateway, on_accept, new_login, init_login, on_wait, is_of_client, Event, accept_ended, wait_ended,
  wait_thrown, client_moved, Later, now_still, later, Serving,
}

-- Nobody is there yet.
abbrev IsEmpty : {h : Host} → Servers h → Type 0
IsEmpty s = (s.pending ≡ []) × (s.clients ≡ [])

pub record IsServing {h : Host} (g : Gateway h) : Type 0 where
  -- Exactly one accept is outstanding as soon as there is a relay, and none before.
  pub accepts : g.accepting ≡ (if g.has_relay then 1 else 0)
  pub waits : g.receiving ≤ g.accepting
  -- Clients come only when there is a relay that they can be handed to.
  pub nobody : g.has_relay ≡ false → IsEmpty g.servers
  pub key : g.public_key_string ≡ h.public_key

pointer-empty :
    {K V : Type 0} (same_key : K → K → Bool) (k : K) (m : Pointers K V) {v : V}
    → m ≡ []
    → pointer same_key k m ≡ some v
    → ⊥
unfolding pointer
pointer-empty same_key k m e p = cc (ap (pointer same_key k) e)

erase-empty :
    {K V : Type 0} (same_key : K → K → Bool) (k : K) (m : Pointers K V)
    → m ≡ []
    → erase same_key k m ≡ []
unfolding erase
erase-empty same_key k m e = ap (erase same_key k) e

client_disconnected_at-empty :
    {Cipher : Type 0} (pending pending' : Pending Cipher) (native_handle : ℕ) (is_connected : Bool)
    → pending ≡ []
    → client_disconnected_at pending native_handle is_connected ≡ ok pending'
    → pending' ≡ []
unfolding client_disconnected_at
client_disconnected_at-empty pending pending' native_handle true e d =
    let gone = erase-empty same_handle native_handle pending e in cc
client_disconnected_at-empty pending pending' native_handle false e d = cc

Move-IsEmpty :
    {h : Host} {s s' : Servers h} (m : Move h s s') → is_of_client m ≡ true → IsEmpty s → IsEmpty s'
unfolding client_disconnected_from
Move-IsEmpty {s = s} (pending_called native_handle e step) c (p, q) =
    absurd (pointer-empty same_handle native_handle s.pending p e)
Move-IsEmpty {s = s} (handed_off fuel env native_handle e asked done) c (p, q) =
    absurd (pointer-empty same_handle native_handle s.pending p e)
Move-IsEmpty {s = s} (pending_closed {pending = pending} native_handle is_connected e) c (p, q) =
    (client_disconnected_at-empty s.pending pending native_handle is_connected p e, q)
Move-IsEmpty {s = s} (client_called id e step) c (p, q) =
    absurd (pointer-empty same_bytes id s.clients q e)
Move-IsEmpty {s = s} (client_closed d) c (p, q) = (p, erase-empty same_bytes d.userid s.clients q)
Move-IsEmpty (accepted native_handle is_loopback now stale_token error) c (p, q) = cc
Move-IsEmpty (datagram_received fuel datagram e) c (p, q) = cc

module _ (h : Host) where
  init_login-IsServing :
      (connected bound : Bool)
      → Ensures
          (λ (g : Gateway h). IsServing g × Running h g.servers)
          (init_login h (new_login h) connected bound)
  unfolding init_login new_login
  init_login-IsServing false bound = (
    record { accepts = refl; waits = omega arith; nobody = λ b. (refl, refl); key = refl },
    started,
  )
  init_login-IsServing true false = tt
  init_login-IsServing true true =
      (record { accepts = omega arith; waits = omega arith; nobody = λ b. cc; key = refl }, started)

  on_accept-IsServing :
      (g : Gateway h) (n : ℕ) (native_handle : ℕ) (is_loopback : Bool) (now : ℕ)
      (stale_token : List ℕ) (error : Bool)
      → IsServing g
      → g.accepting ≡ suc n
      → IsServing
          (on_accept (record g { accepting = n }) native_handle is_loopback now stale_token error)
  unfolding on_accept
  on_accept-IsServing g n native_handle is_loopback now stale_token error v e = record {
    accepts = ground (arith, v.accepts);
    waits = ground (arith, v.waits);
    nobody = λ b. ground (arith, v.accepts, b);
    key = v.key;
  }

  -- A wait that has ended, and a wait that is started again.
  waited :
      (g : Gateway h) (n : ℕ)
      → IsServing g
      → g.receiving ≡ suc n
      → IsServing (record g { receiving = n })
  waited g n v e = record {
    accepts = v.accepts;
    waits = omega (arith, v.waits);
    nobody = v.nobody;
    key = v.key;
  }

  waits_again :
      (g : Gateway h) (n : ℕ) (clients : Clients h.Cipher)
      → IsServing g
      → g.receiving ≡ suc n
      → IsServing (record g { servers = record g.servers { clients = clients }; receiving = n + 1 })
  waits_again g n clients v e = record {
    accepts = v.accepts;
    waits = omega (arith, v.waits);
    nobody = λ b. ground (arith, v.accepts, v.waits, b);
    key = v.key;
  }

  on_wait-IsServing :
      (g : Gateway h) (n fuel : ℕ) (error : Bool) (read : Option (List ℕ))
      → IsServing g
      → Running h g.servers
      → g.receiving ≡ suc n
      → Ensures
          (λ (g' : Gateway h). IsServing g' × Running h g'.servers)
          (on_wait h fuel (record g { receiving = n }) error read)
  unfolding on_wait
  on_wait-IsServing g n fuel true read v r e = (waited g n v e, r)
  on_wait-IsServing g n fuel false none v r e = (waited g n v e, r)
  on_wait-IsServing g n fuel false (some datagram) v r e =
      Ensures-bind
        (λ (clients : Clients h.Cipher).
          on_data_received h fuel g.servers.clients datagram ≡ ok clients)
        (λ (g' : Gateway h). IsServing g' × Running h g'.servers)
        (on_data_received h fuel g.servers.clients datagram) _
        (Ensures-self
          (λ (clients : Clients h.Cipher).
            on_data_received h fuel g.servers.clients datagram ≡ ok clients)
          (on_data_received h fuel g.servers.clients datagram) (λ clients d. d))
        (λ clients d. (waits_again g n clients v e, moved r (datagram_received fuel datagram d)))

  Event-IsServing :
      {g g' : Gateway h}
      → Event h g g'
      → IsServing g × Running h g.servers
      → IsServing g' × Running h g'.servers
  unfolding on_accept
  Event-IsServing {g} (accept_ended {n = n} native_handle is_loopback now stale_token error e)
        (v, r) =
      (
        on_accept-IsServing g n native_handle is_loopback now stale_token error v e,
        moved r (accepted native_handle is_loopback now stale_token error),
      )
  Event-IsServing {g} (wait_ended {n = n} fuel error read e d) (v, r) =
      Ensures-ok (λ (g' : Gateway h). IsServing g' × Running h g'.servers)
        (on_wait h fuel (record g { receiving = n }) error read)
        (on_wait-IsServing g n fuel error read v r e) d
  Event-IsServing {g} (wait_thrown {n = n} fuel datagram e d) (v, r) = (waited g n v e, r)
  Event-IsServing {g} (client_moved m c) (v, r) = (
    record {
      accepts = v.accepts;
      waits = v.waits;
      nobody = λ b. Move-IsEmpty m c (v.nobody b);
      key = v.key;
    },
    moved r m,
  )

  Later-IsServing :
      {g g' : Gateway h}
      → IsServing g × Running h g.servers
      → Later h g g'
      → IsServing g' × Running h g'.servers
  Later-IsServing v now_still = v
  Later-IsServing v (later l e) = Event-IsServing e (Later-IsServing v l)

  Serving-both : (g : Gateway h) → Serving h g → IsServing g × Running h g.servers
  Serving-both g (start, connected, bound, e, l) =
      Later-IsServing
        (Ensures-ok (λ (g' : Gateway h). IsServing g' × Running h g'.servers)
          (init_login h (new_login h) connected bound) (init_login-IsServing connected bound) e)
        l

  -- Behind an init that returns, whatever handlers the event loop runs and however they end, exactly
  -- one accept is outstanding if there is a relay, and none otherwise; at most one wait for a datagram
  -- is outstanding, and only beside an accept; without a relay both servers hold nobody; and the text
  -- of the public key is that of the key pair.
  pub Serving-IsServing : (g : Gateway h) → Serving h g → IsServing g
  Serving-IsServing g s = (Serving-both g s).0

  -- A pending client finds a relay that it can be handed to, and the server is accepting the next one.
  pub pending_finds_relay :
      (g : Gateway h) (native_handle : ℕ) (t : Turn h.Cipher)
      → Serving h g
      → pointer same_handle native_handle g.servers.pending ≡ some t
      → (g.has_relay ≡ true) × (g.accepting ≡ 1)
  pending_finds_relay g native_handle t s e =
      let v = Serving-IsServing g s in
      elim (Bool-cases g.has_relay) [
        | inl b ↦ (b, ground (arith, v.accepts, b))
        | inr b ↦
            absurd (pointer-empty same_handle native_handle g.servers.pending (v.nobody b).0 e)
      ]
