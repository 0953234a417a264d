-- ===== src/Gateway/LoginServer/HandOff.antt =====
-- handoffClient of Client Gateway/LoginServer.cpp.
use cerios_cluster.Common.{ℕ, none, some, ◌≡◌, arith, refl, ◌∙◌}
use cerios_cluster.Common.Outcome.{ok, ◌>>=◌}
use cerios_cluster.McPacket.Base.{Environment}
use cerios_cluster.Gateway.Host.{Host}
use cerios_cluster.Gateway.Pointers.{entry, pointer, erase, entry-erase, erase-put, put}
use cerios_cluster.Gateway.Client.{Turn, client_server}
use cerios_cluster.Gateway.Relay.{Clients, add_client}
use cerios_cluster.Gateway.Client.Login.{same_bytes}
use cerios_cluster.Gateway.Client.Send.Frames.{WritesClear}
use cerios_cluster.Gateway.Relay.Welcome.{welcomed, add_client_clear}
use cerios_cluster.Gateway.LoginServer.{
  Pending, same_handle, set_owner, hand_off_moved, hand_off_client,
}

-- The hand-off of a pending client gives it to the relay, which becomes its owner, and takes its handle
-- out of the pending clients, which are otherwise as they were.
pub hand_off_client_lem :
    (h : Host) (fuel : ℕ) (env : Environment) (pending : Pending h.Cipher)
    (clients : Clients h.Cipher) (native_handle : ℕ) (t : Turn h.Cipher)
    → pointer same_handle native_handle pending ≡ some t
    → (hand_off_client h fuel env pending clients native_handle ≡ (
        add_client h fuel env clients (set_owner t client_server) >>= λ clients'.
        ok (erase same_handle native_handle pending, clients')))
      × (entry same_handle native_handle (erase same_handle native_handle pending) ≡ none)
unfolding hand_off_client hand_off_moved
hand_off_client_lem h fuel env pending clients native_handle t e = (
  rw (e, erase-put same_handle native_handle none pending (ground arith)),
  entry-erase same_handle native_handle pending,
)

-- A pending client in the clear that is handed off is written the four packets of its welcome, each in
-- a frame of its own, is then stored under its id with the relay as its owner, and its handle is gone
-- from the pending clients.
pub hand_off_client_clear :
    (h : Host) (fuel : ℕ) (env : Environment) (pending : Pending h.Cipher)
    (clients : Clients h.Cipher) (native_handle : ℕ) (t : Turn h.Cipher)
    → pointer same_handle native_handle pending ≡ some t
    → WritesClear t
    → hand_off_client h fuel env pending clients native_handle
      ≡ ok (
        erase same_handle native_handle pending,
        put same_bytes t.client.userid
            (some (welcomed h fuel env (set_owner t client_server)))
            clients,
      )
unfolding set_owner
hand_off_client_clear h fuel env pending clients native_handle t e clear =
    (hand_off_client_lem h fuel env pending clients native_handle t e).0
    ∙ rw (add_client_clear h fuel env clients (set_owner t client_server) clear) refl
