-- ===== src/Gateway/EventLoop.antt =====
-- Client Gateway/LoginServer.cpp and ClientServer.cpp: how the login server is set up, and the
-- operations that the two servers have outstanding with the event loop.
--
-- The worker threads of `listen` run the handlers, and go on behind an exception. The calls of OpenSSL
-- in `init` make the key pair whose public key is the host's `public_key`.
pub mod Accounts
pub mod Deaf
use cerios_cluster.Common.{ℕ, suc, ◌+◌, List, [], Bool, true, false, Option, none, some, ◌≡◌}
use cerios_cluster.Common.Outcome.{Outcome, Exception, ok, throws, system_error, ◌>>=◌}
use cerios_cluster.Gateway.Host.{Host}
use cerios_cluster.Gateway.Relay.{on_data_received}
use cerios_cluster.Gateway.LoginServer.{handle_client}
use cerios_cluster.Gateway.Servers.{
  Servers, at_start, Move, accepted, pending_called, handed_off, pending_closed, client_called,
  client_closed, datagram_received,
}

-- The login server with its relay, which is a null pointer at first, and how many accepts and waits
-- for a datagram are outstanding.
pub record Gateway (h : Host) : Type 0 where
  pub servers : Servers h
  pub public_key_string : List ℕ
  pub has_relay : Bool
  pub accepting : ℕ
  pub receiving : ℕ

module _ {h : Host} where
  -- asyncClientAccept
  unfoldable pub async_client_accept : Gateway h → Gateway h
  async_client_accept g = record g { accepting = g.accepting + 1 }

  -- startAsyncReceive
  unfoldable pub start_async_receive : Gateway h → Gateway h
  start_async_receive g = record g { receiving = g.receiving + 1 }

  -- The constructor of the relay, which throws if a socket cannot be opened or bound
  unfoldable pub new_relay : Gateway h → (bound : Bool) → Outcome (Gateway h)
  unfolding start_async_receive
  new_relay g false = throws system_error
  new_relay g true = ok (record (start_async_receive g) { has_relay = true })

  -- `init` behind the key pair, with or without a connection to the database
  unfoldable pub init_relay : Gateway h → (connected bound : Bool) → Outcome (Gateway h)
  unfolding new_relay async_client_accept
  init_relay g false bound = ok g
  init_relay g true bound = new_relay g bound >>= λ g'. ok (async_client_accept g')

  -- handleClient, as the handler of an accept
  unfoldable pub on_accept :
      Gateway h
      → (native_handle : ℕ) → (is_loopback : Bool) → (now : ℕ) → List ℕ
      → (error : Bool) → Gateway h
  unfolding async_client_accept
  on_accept g native_handle is_loopback now stale_token error = async_client_accept (record g {
    servers = record g.servers {
      pending = handle_client g.servers.pending native_handle is_loopback now stale_token error;
    };
  })

-- The constructor
unfoldable pub new_login : (h : Host) → Gateway h
new_login h = record {
  servers = at_start h;
  public_key_string = [];
  has_relay = false;
  accepting = 0;
  receiving = 0;
}

-- init
unfoldable pub init_login : (h : Host) → Gateway h → (connected bound : Bool) → Outcome (Gateway h)
unfolding init_relay
init_login h g connected bound =
    init_relay (record g { public_key_string = h.public_key }) connected bound

-- onDataReceived, as the handler of a wait: the read may fail.
unfoldable pub on_wait :
    (h : Host) → ℕ → Gateway h → (error : Bool) → Option (List ℕ) → Outcome (Gateway h)
unfolding start_async_receive
on_wait h fuel g true read = ok g
on_wait h fuel g false none = ok g
on_wait h fuel g false (some datagram) = do
  clients ← on_data_received h fuel g.servers.clients datagram
  ok (start_async_receive (record g { servers = record g.servers { clients = clients } }))

-- A move that is not the handler of an accept or of a wait
abbrev pub is_of_client : {h : Host} {s s' : Servers h} → Move h s s' → Bool
is_of_client (accepted native_handle is_loopback now stale_token error) = false
is_of_client (pending_called native_handle e step) = true
is_of_client (handed_off fuel env native_handle e asked done) = true
is_of_client (pending_closed native_handle is_connected e) = true
is_of_client (client_called id e step) = true
is_of_client (client_closed c) = true
is_of_client (datagram_received fuel datagram e) = false

-- One round of the event loop: a handler takes an outstanding operation with it. An exception of
-- onDataReceived leaves the clients as they were and starts no new wait.
pub data Event (h : Host) (g : Gateway h) : Gateway h → Type 0 where
  accept_ended :
      {n : ℕ} (native_handle : ℕ) (is_loopback : Bool) (now : ℕ) (stale_token : List ℕ)
      (error : Bool)
      → g.accepting ≡ suc n
      → Event h g
          (on_accept (record g { accepting = n }) native_handle is_loopback now stale_token error)
  wait_ended :
      {n : ℕ} {g' : Gateway h} (fuel : ℕ) (error : Bool) (read : Option (List ℕ))
      → g.receiving ≡ suc n
      → on_wait h fuel (record g { receiving = n }) error read ≡ ok g'
      → Event h g g'
  wait_thrown :
      {n : ℕ} {e : Exception} (fuel : ℕ) (datagram : List ℕ)
      → g.receiving ≡ suc n
      → on_wait h fuel (record g { receiving = n }) false (some datagram) ≡ throws e
      → Event h g (record g { receiving = n })
  client_moved :
      {s : Servers h} (m : Move h g.servers s)
      → is_of_client m ≡ true
      → Event h g (record g { servers = s })

pub data Later (h : Host) (g : Gateway h) : Gateway h → Type 0 where
  now_still : Later h g g
  later : {u v : Gateway h} → Later h g u → Event h u v → Later h g v

-- What the program can come to behind `init`
abbrev pub Serving : (h : Host) → Gateway h → Type 0
Serving h g =
    (start : Gateway h) × (connected : Bool) × (bound : Bool) × (init_login h (new_login h)
        connected bound
      ≡ ok start)
    × Later h start g
