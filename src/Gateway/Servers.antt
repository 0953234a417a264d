-- ===== src/Gateway/Servers.antt =====
-- The login server and the relay of Client Gateway/ together: the two maps of clients over time, with
-- the calls of the event loop in any order.
pub mod Holds
pub mod Relayed
pub mod Invariant
pub mod Arrival
use cerios_cluster.Common.{ℕ, List, [], Bool, true, Option, none, some, ◌≡◌}
use cerios_cluster.Common.Outcome.{ok}
use cerios_cluster.McPacket.Base.{Environment}
use cerios_cluster.Gateway.Host.{Host}
use cerios_cluster.Gateway.Pointers.{put, pointer}
use cerios_cluster.Gateway.Client.{Client, Turn}
use cerios_cluster.Gateway.Client.Login.{same_bytes}
use cerios_cluster.Gateway.Relay.{Clients, client_disconnected_from, on_data_received}
use cerios_cluster.Gateway.LoginServer.{
  Pending, same_handle, handle_client, client_disconnected_at, hand_off_client,
}
use cerios_cluster.Gateway.Session.{is_hand_off, any_effect, Step}

pub record Servers (h : Host) : Type 0 where
  pub pending : Pending h.Cipher
  pub clients : Clients h.Cipher

abbrev pub at_start : (h : Host) → Servers h
at_start h = record { pending = []; clients = [] }

-- One call: of the acceptor, of a client that is pending or has logged in, of the hand-off that a
-- pending client has asked for, of the end of a client, or of the relay with a datagram.
pub data Move (h : Host) (s : Servers h) : Servers h → Type 0 where
  accepted :
      (native_handle : ℕ) (is_loopback : Bool) (now : ℕ) (stale_token : List ℕ) (error : Bool)
      → Move h s (record s {
        pending = handle_client s.pending native_handle is_loopback now stale_token error;
      })
  pending_called :
      {t u : Turn h.Cipher} (native_handle : ℕ)
      → pointer same_handle native_handle s.pending ≡ some t
      → Step h t u
      → Move h s (record s { pending = put same_handle native_handle (some u) s.pending })
  handed_off :
      {t : Turn h.Cipher} {pending : Pending h.Cipher} {clients : Clients h.Cipher} (fuel : ℕ)
      (env : Environment) (native_handle : ℕ)
      → pointer same_handle native_handle s.pending ≡ some t
      → any_effect is_hand_off t.effects ≡ true
      → hand_off_client h fuel env s.pending s.clients native_handle ≡ ok (pending, clients)
      → Move h s (record { pending = pending; clients = clients })
  pending_closed :
      {pending : Pending h.Cipher} (native_handle : ℕ) (is_connected : Bool)
      → client_disconnected_at s.pending native_handle is_connected ≡ ok pending
      → Move h s (record s { pending = pending })
  client_called :
      {t u : Turn h.Cipher} (id : List ℕ)
      → pointer same_bytes id s.clients ≡ some t
      → Step h t u
      → Move h s (record s { clients = put same_bytes id (some u) s.clients })
  client_closed :
      (c : Client h.Cipher) → Move h s (record s { clients = client_disconnected_from s.clients c })
  datagram_received :
      {clients : Clients h.Cipher} (fuel : ℕ) (datagram : List ℕ)
      → on_data_received h fuel s.clients datagram ≡ ok clients
      → Move h s (record s { clients = clients })

-- What the servers can come to from the start
pub data Running (h : Host) : Servers h → Type 0 where
  started : Running h (at_start h)
  moved : {s s' : Servers h} → Running h s → Move h s s' → Running h s'
