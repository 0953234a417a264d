-- ===== src/Gateway/Client/Timer.antt =====
-- Client Gateway/Client.cpp: keepAlive.
pub mod KeepAlive
use cerios_cluster.Common.{
  ℕ, zero, suc, ◌+◌, ◌-◌, ◌*◌, ◌/◌, ◌%◌, ◌^◌, ◌<◌, ◌≤◌, List, [], ◌∷◌, ◌++◌, Bool, true, false,
  ◌&&◌, ◌||◌, not, ltb, leb, ◌==◌, Option, none, some, if◌then◌else◌, length, take, drop, replicate,
}
use cerios_cluster.Common.Outcome.{Outcome, ok, throws, undefined, endless, length_error, ◌>>=◌}
use cerios_cluster.McPacket.Base.{
  Packet, Environment, Side, client_bound, server_bound, bi_directional, ClientState, handshake,
  status, login, play, client_state, frame_packet, as_size,
}
use cerios_cluster.McPacket.Base
use cerios_cluster.Gateway.Host.{Host}
use cerios_cluster.McPacket.Classes.{AnyPacket, a_keep_alive}
use cerios_cluster.McPacket.Registry.{instantiate_new}
use cerios_cluster.Gateway.Client.{
  Client, Turn, socket_cancel, timer_expires_from_now, timer_wait, emit, with_client, disconnect,
}
use cerios_cluster.Gateway.Client.Send.{send_packet}

-- The cast of newPacket<KeepAlivePacket>
unfoldable pub as_keep_alive : Option AnyPacket → Option AnyPacket
as_keep_alive (some (a_keep_alive m)) = some (a_keep_alive m)
as_keep_alive _ = none

-- The seconds between two packets, and those without a sign of life after which a client is given up
abbrev pub keep_alive_period : ℕ
keep_alive_period = 4

abbrev pub keep_alive_timeout : ℕ
keep_alive_timeout = 10

module _ (h : Host) where
  open h use {Cipher}

  unfoldable pub send_keep_alive : ℕ → Turn Cipher → Option AnyPacket → Outcome (Turn Cipher)
  send_keep_alive fuel t none = ok (emit t socket_cancel)
  send_keep_alive fuel t (some m) = do
    t' ← send_packet h fuel t m
    ok (emit (emit t' (timer_expires_from_now keep_alive_period)) timer_wait)

  -- keepAlive. The clock is steady: `now` is not before `lastSeen`.
  unfoldable pub keep_alive : ℕ → Environment → Turn Cipher → (error : Bool) → Outcome (Turn Cipher)
  unfolding send_keep_alive as_keep_alive
  keep_alive fuel env t error =
      if not t.client.alive
      then ok t
      else if error
      then ok (disconnect t)
      else if ltb keep_alive_timeout (env.time - t.client.last_seen)
      then ok (emit t socket_cancel)
      else send_keep_alive fuel t
          (as_keep_alive (instantiate_new env client_bound t.client.state 0x00))
