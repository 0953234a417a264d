-- ===== src/Examples/Running.antt =====
-- The two servers, from the start to the hand-off of a player of the loopback address.
use cerios_cluster.Common.{[], ◌∷◌, true, false, not, ◌||◌, some, ◌≡◌, refl, ◌++◌, none, arith}
use cerios_cluster.Examples.{an_environment, a_host}
use cerios_cluster.Examples.Sessions.{
  a_handshake_frame, a_login_frame, a_logged_in_turn, handshake_received, login_received,
  a_login_turn, bob, bobs_id_short,
}
use cerios_cluster.McPacket.Messages.Text.{coded}
use cerios_cluster.Gateway.Uuid.{offline_id}
use cerios_cluster.Gateway.Client.Receive.Framing.{frame}
use cerios_cluster.Gateway.LoginServer.{
  Pending, same_handle, handle_client, set_owner, hand_off_client,
}
use cerios_cluster.Gateway.Client.Receive.{on_length_receive}
use cerios_cluster.Common.Outcome.{ok}
use cerios_cluster.Gateway.Pointers.{entry, put, pointer, erase, pointer-put}
use cerios_cluster.Gateway.Servers.Arrival.{loopback_login_arrives}
use cerios_cluster.Gateway.Client.Login.States.{same_bytes_refl}
use cerios_cluster.Gateway.Client.{Turn, client_server, new_client}
use cerios_cluster.Gateway.Client.Login.{same_bytes}
use cerios_cluster.Gateway.Relay.{Clients}
use cerios_cluster.Gateway.Relay.Welcome.{welcomed}
use cerios_cluster.Gateway.LoginServer.HandOff.{hand_off_client_clear}
use cerios_cluster.Gateway.Session.{received, is_connect, is_hand_off, any_effect, Reachable}
use cerios_cluster.Gateway.Session.Facts.{has_keys}
use cerios_cluster.Gateway.Servers.{
  Servers, accepted, pending_called, handed_off, Running, started, moved,
}
use cerios_cluster.Gateway.Servers.Invariant.{player_was_asked}

abbrev relayed_clients : Clients (Unit {0})
relayed_clients =
    put same_bytes a_logged_in_turn.client.userid
      (some (welcomed a_host 9 an_environment (set_owner a_logged_in_turn client_server))) []

abbrev after_hand_off : Servers a_host
after_hand_off = record { pending = []; clients = relayed_clients }

-- A connection whose handshake has asked for a login
abbrev before_login : Servers a_host
before_login = record { pending = (4, some a_login_turn) ∷ []; clients = [] }

before_login-Running : Running a_host before_login
unfolding handle_client put pointer new_client
before_login-Running =
    moved (moved started (accepted 4 true 95 [] false))
      (pending_called 4 refl (received 9 an_environment a_handshake_frame false handshake_received))

after_hand_off-Running : Running a_host after_hand_off
unfolding put pointer erase new_client
after_hand_off-Running =
    moved
      (moved before_login-Running
        (pending_called 4 refl (received 9 an_environment a_login_frame false login_received)))
      (handed_off 9 an_environment 4 refl refl (
        hand_off_client_clear a_host 9 an_environment ((4, some a_logged_in_turn) ∷ []) [] 4
          a_logged_in_turn refl (refl, refl, refl)))

login_there : pointer same_handle 4 before_login.pending ≡ some a_login_turn
unfolding pointer
login_there = refl

loopback_login_arrives_example :
    (u : Turn (Unit {0})) × (pending : Pending (Unit {0})) × (clients : Clients (Unit {0}))
    × (on_length_receive a_host 9 an_environment a_login_turn (frame 0 (coded bob) ++ []) false
        ≡ ok u)
    × (any_effect is_hand_off u.effects ≡ true)
    × (hand_off_client a_host 9 an_environment
          (put same_handle 4 (some u) before_login.pending)
          []
          4
        ≡ ok (pending, clients))
    × Running a_host (record { pending = pending; clients = clients })
    × (pointer same_bytes (offline_id (a_host.sha256 bob)) clients
        ≡ some (welcomed a_host 9 an_environment (set_owner u client_server)))
    × (entry same_handle 4 pending ≡ none)
unfolding new_client
loopback_login_arrives_example =
    loopback_login_arrives a_host 9 an_environment before_login 4 a_login_turn
      (frame 0 (coded bob) ++ []) bob [] before_login-Running login_there (refl, refl) refl refl
      refl refl bobs_id_short (omega arith)

abbrev a_player : Turn (Unit {0})
a_player = welcomed a_host 9 an_environment (set_owner a_logged_in_turn client_server)

player_there : pointer same_bytes a_logged_in_turn.client.userid relayed_clients ≡ some a_player
player_there =
    pointer-put same_bytes a_logged_in_turn.client.userid (some a_player) []
      (same_bytes_refl a_logged_in_turn.client.userid)

player_was_asked_example :
    Reachable a_host a_player
    × ((a_player.client.is_loopback || any_effect is_connect a_player.effects) ≡ true)
    × ((not (any_effect is_connect a_player.effects) || has_keys a_player.client) ≡ true)
player_was_asked_example =
    player_was_asked a_host after_hand_off a_logged_in_turn.client.userid a_player
      after_hand_off-Running player_there
