-- ===== src/Gateway/LoginServer.antt =====
-- Client Gateway/LoginServer.cpp: the clients that have not logged in yet, and their hand-off.
pub mod HandOff
use cerios_cluster.Common.{ℕ, List, [], ◌∷◌, Bool, true, false, Option, none, some, ◌==◌}
use cerios_cluster.Common.Outcome.{Outcome, ok, throws, system_error, ◌>>=◌}
use cerios_cluster.McPacket.Base.{Environment}
use cerios_cluster.Gateway.Host.{Host}
use cerios_cluster.Gateway.Pointers.{Pointers, put, touch, pointer, erase}
use cerios_cluster.Gateway.Client.{
  Client, Turn, Owner, login_server, client_server, with_client, new_client,
}
use cerios_cluster.Gateway.Relay.{Clients, add_client}

abbrev pub same_handle : ℕ → ℕ → Bool
same_handle a b = a == b

-- The member `pendingClients`, by the handle of the socket
abbrev pub Pending : Type 0 → Type 0
Pending Cipher = Pointers ℕ (Turn Cipher)

-- handleClient for a connection from an address, accepted or not
unfoldable pub handle_client :
    {Cipher : Type 0}
    → Pending Cipher
    → (native_handle : ℕ) → (is_loopback : Bool) → (now : ℕ) → List ℕ
    → (error : Bool) → Pending Cipher
handle_client pending native_handle is_loopback now stale_token true = pending
handle_client pending native_handle is_loopback now stale_token false =
    put same_handle native_handle (some (new_client login_server is_loopback now stale_token))
      pending

-- clientDisconnected: the endpoint is asked for first, which throws on a closed socket.
unfoldable pub client_disconnected_at :
    {Cipher : Type 0}
    → Pending Cipher
    → (native_handle : ℕ) → (is_connected : Bool) → Outcome (Pending Cipher)
client_disconnected_at pending native_handle false = throws system_error
client_disconnected_at pending native_handle true = ok (erase same_handle native_handle pending)

-- setOwner
unfoldable pub set_owner : {Cipher : Type 0} → Turn Cipher → Owner → Turn Cipher
set_owner t new_owner = with_client t (record t.client { owner = some new_owner })

module _ (h : Host) where
  open h use {Cipher}

  -- The pointer that handoffClient has moved out of the map
  unfoldable pub hand_off_moved :
      ℕ
      → Environment
      → Pending Cipher
      → Clients Cipher
      → (native_handle : ℕ) → Option (Turn Cipher)
      → Outcome (Pending Cipher × Clients Cipher)
  hand_off_moved fuel env pending clients native_handle none = ok (pending, clients)
  hand_off_moved fuel env pending clients native_handle (some t) = do
    clients' ← add_client h fuel env clients (set_owner t client_server)
    ok (erase same_handle native_handle pending, clients')

  -- handoffClient: the subscript leaves a null pointer for a client that is not there.
  unfoldable pub hand_off_client :
      ℕ
      → Environment
      → Pending Cipher
      → Clients Cipher
      → (native_handle : ℕ) → Outcome (Pending Cipher × Clients Cipher)
  hand_off_client fuel env pending clients native_handle =
      hand_off_moved fuel env (put same_handle native_handle none pending) clients native_handle
        (pointer same_handle native_handle pending)
