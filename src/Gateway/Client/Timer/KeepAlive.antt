-- ===== src/Gateway/Client/Timer/KeepAlive.antt =====
-- keepAlive of Client Gateway/Client.cpp on each of its branches.
use cerios_cluster.Common.{ℕ, ◌+◌, ◌<◌, true, false, none, ◌≡◌, refl, arith}
use cerios_cluster.Common.Outcome.{ok}
use cerios_cluster.McPacket.Base.{
  Environment, client_bound, ClientState, handshake, status, login, play, unnamed,
}
use cerios_cluster.Gateway.Host.{Host}
use cerios_cluster.McPacket.Registry.{instantiate_new}
use cerios_cluster.Gateway.Client.{Client, Turn, socket_cancel, emit}
use cerios_cluster.Gateway.Client.Timer.{
  keep_alive, send_keep_alive, as_keep_alive, keep_alive_timeout,
}

-- A client is silent for too long at a time.
abbrev pub IsSilent : {Cipher : Type 0} → Environment → Client Cipher → Type 0
IsSilent env c = c.last_seen + keep_alive_timeout < env.time

-- A client that has been silent for more than 10 seconds has its socket cancelled, whatever its state,
-- and the timer is not set again.
pub keep_alive_silent :
    (h : Host) (fuel : ℕ) (env : Environment) (t : Turn h.Cipher)
    → t.client.alive ≡ true
    → IsSilent env t.client
    → keep_alive h fuel env t false ≡ ok (emit t socket_cancel)
unfolding keep_alive
keep_alive_silent h fuel env t ha silent = ground (arith)

-- In a state other than PLAY there is no keep-alive packet to send.
as_keep_alive_outside :
    (env : Environment) (state : ClientState)
    → (state ≡ play → ⊥)
    → as_keep_alive (instantiate_new env client_bound state 0) ≡ none
unfolding as_keep_alive instantiate_new
as_keep_alive_outside env handshake n = refl
as_keep_alive_outside env status n = refl
as_keep_alive_outside env login n = refl
as_keep_alive_outside env play n = absurd (n refl)
as_keep_alive_outside env (unnamed k) n = refl

-- The timer of a client that is not in PLAY cancels its socket, however short its silence.
pub keep_alive_outside_play :
    (h : Host) (fuel : ℕ) (env : Environment) (t : Turn h.Cipher)
    → t.client.alive ≡ true
    → (t.client.state ≡ play → ⊥)
    → keep_alive h fuel env t false ≡ ok (emit t socket_cancel)
unfolding keep_alive send_keep_alive
keep_alive_outside_play h fuel env t ha n =
    rw (ha, as_keep_alive_outside env t.client.state n) (ground arith)
