-- ===== src/Examples/EventLoop.antt =====
-- The event loop of the two servers behind their set-up, with the first connection.
use cerios_cluster.Common.{[], true, false, none, some, inl, ◌≡◌, refl}
use cerios_cluster.Common.Outcome.{ok}
use cerios_cluster.Examples.{a_host}
use cerios_cluster.Gateway.Pointers.{pointer, put}
use cerios_cluster.Gateway.Client.{login_server, new_client}
use cerios_cluster.Gateway.LoginServer.{same_handle, handle_client}
use cerios_cluster.Gateway.Servers.{at_start}
use cerios_cluster.Gateway.EventLoop.{
  Gateway, on_accept, new_login, init_login, on_wait, accept_ended, now_still, later, Serving,
}
use cerios_cluster.Gateway.EventLoop.Accounts.{IsServing, Serving-IsServing, pending_finds_relay}
use cerios_cluster.Gateway.EventLoop.Deaf.{on_wait-deaf}

abbrev a_start : Gateway a_host
a_start = record {
  servers = at_start a_host;
  public_key_string = a_host.public_key;
  has_relay = true;
  accepting = 1;
  receiving = 1;
}

a_start-Serving : Serving a_host a_start
unfolding init_login new_login
a_start-Serving = (a_start, true, true, refl, now_still)

abbrev with_connection : Gateway a_host
with_connection = on_accept (record a_start { accepting = 0 }) 4 true 95 [] false

with_connection-Serving : Serving a_host with_connection
with_connection-Serving =
    let (start, connected, bound, e, l) = a_start-Serving in
    (start, connected, bound, e, later l (accept_ended 4 true 95 [] false refl))

Serving-IsServing_example : IsServing with_connection
Serving-IsServing_example = Serving-IsServing a_host with_connection with_connection-Serving

connection_there :
    pointer same_handle 4 with_connection.servers.pending
    ≡ some (new_client login_server true 95 [])
unfolding pointer put handle_client on_accept
connection_there = refl

pending_finds_relay_example : (with_connection.has_relay ≡ true) × (with_connection.accepting ≡ 1)
pending_finds_relay_example =
    pending_finds_relay a_host with_connection 4 (new_client login_server true 95 [])
      with_connection-Serving connection_there

-- A connection that comes behind the error is accepted, and the relay stays deaf.
on_wait-deaf_example :
    (on_wait a_host 9 (record a_start { receiving = 0 }) true none
      ≡ ok (record a_start { receiving = 0 }))
    × ((on_accept (record a_start { receiving = 0; accepting = 0 }) 4 true 95 [] false).receiving
        ≡ 0)
on_wait-deaf_example =
    on_wait-deaf a_host a_start 0 9 true none
      (on_accept (record a_start { receiving = 0; accepting = 0 }) 4 true 95 [] false)
      a_start-Serving refl (inl refl) (later now_still (accept_ended 4 true 95 [] false refl))
