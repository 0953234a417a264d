-- ===== src/Gateway/Relay.antt =====
-- Client Gateway/ClientServer.cpp: the owner of the clients that have logged in, and the relay of the
-- internal messages to them. The queries of the database that addClient makes are left out: their
-- results are not used.
pub mod Messages
pub mod Chat
pub mod Welcome
use cerios_cluster.Common.{
  ℕ, ◌^◌, ◌<◌, List, [], ◌∷◌, ◌++◌, Bool, true, false, leb, Option, none, some, if◌then◌else◌,
  length,
}
use cerios_cluster.Common.Outcome.{Outcome, ok, undefined, ◌>>=◌}
use cerios_cluster.McPacket.Base.{Environment, client_bound, play, as_size}
use cerios_cluster.McPacket.VarInt.{write_buffer_length_to_front}
use cerios_cluster.McPacket.Compress.{compress_data}
use cerios_cluster.McPacket.Classes.{
  AnyPacket, a_join_game, a_spawn_position, a_player_position_and_look, a_player_abilities,
}
use cerios_cluster.McPacket.Registry.{instantiate_new}
use cerios_cluster.InternalComms.{
  Message, MessageId, mc_packet, get_message_id, get_player_id, get_payload, from_data,
  serialize_data,
}
use cerios_cluster.Gateway.Host.{Host}
use cerios_cluster.Gateway.Pointers.{Pointers, put, touch, pointer, erase}
use cerios_cluster.Gateway.Client.{
  Client, Turn, Owner, login_server, client_server, disconnect, with_client,
}
use cerios_cluster.Gateway.Client.Login.{same_bytes}
use cerios_cluster.Gateway.Client.Send.{send_data, send_packet}

-- The member `clients`
abbrev pub Clients : Type 0 → Type 0
Clients Cipher = Pointers (List ℕ) (Turn Cipher)

-- The casts of the newPacket calls of addClient
unfoldable pub as_join_game : Option AnyPacket → Option AnyPacket
as_join_game (some (a_join_game m)) = some (a_join_game m)
as_join_game _ = none

unfoldable pub as_spawn_position : Option AnyPacket → Option AnyPacket
as_spawn_position (some (a_spawn_position m)) = some (a_spawn_position m)
as_spawn_position _ = none

unfoldable pub as_position_and_look : Option AnyPacket → Option AnyPacket
as_position_and_look (some (a_player_position_and_look m)) = some (a_player_position_and_look m)
as_position_and_look _ = none

unfoldable pub as_abilities : Option AnyPacket → Option AnyPacket
as_abilities (some (a_player_abilities m)) = some (a_player_abilities m)
as_abilities _ = none

-- Whether the message is one of packets
unfoldable pub is_mc_packet : MessageId → Bool
is_mc_packet mc_packet = true
is_mc_packet _ = false

-- The loop of sendShutdownSignal. The clients in the map have the relay as their owner: one that is
-- open tells it that it has disconnected, and the relay erases the entry that the loop stands at.
unfoldable pub shutdown_loop : {Cipher : Type 0} → Clients Cipher → Outcome (Clients Cipher)
shutdown_loop [] = ok []
shutdown_loop ((id, none) ∷ rest) = undefined
shutdown_loop ((id, some t) ∷ rest) =
    let more = shutdown_loop rest in
    if t.client.alive then undefined else (more >>= λ left. ok ((id, some t) ∷ left))

-- clientDisconnected: the entry, and with it the client, is gone. (It then prints the endpoint of the
-- client that it has destroyed.)
unfoldable pub client_disconnected_from :
    {Cipher : Type 0} → Clients Cipher → Client Cipher → Clients Cipher
client_disconnected_from clients c = erase same_bytes c.userid clients

module _ (h : Host) where
  open h use {Cipher, deflater}

  -- sendPacket on a pointer; on a null pointer it is undefined.
  unfoldable pub send_new : ℕ → Turn Cipher → Option AnyPacket → Outcome (Turn Cipher)
  send_new fuel t none = undefined
  send_new fuel t (some m) = send_packet h fuel t m

  -- addClient
  unfoldable pub add_client :
      ℕ → Environment → Clients Cipher → Turn Cipher → Outcome (Clients Cipher)
  add_client fuel env clients t = do
    t₁ ← send_new fuel t (as_join_game (instantiate_new env client_bound play 0x01))
    t₂ ← send_new fuel t₁ (as_spawn_position (instantiate_new env client_bound play 0x05))
    t₃ ← send_new fuel t₂ (as_position_and_look (instantiate_new env client_bound play 0x08))
    t₄ ← send_new fuel t₃ (as_abilities (instantiate_new env client_bound play 0x39))
    ok (put same_bytes t.client.userid (some t₄) clients)

  -- The case MC_PACKET of handleMessage. The threshold is compared as a size_t.
  unfoldable pub forward : ℕ → Turn Cipher → List ℕ → Outcome (Turn Cipher)
  forward fuel t payload = do
    packed ←
        (if leb (as_size t.client.compression_threshold) (length payload)
          then compress_data deflater fuel payload
          else ok payload)
    framed ← write_buffer_length_to_front packed
    ok (send_data h t framed)

  -- The client that handleMessage has found, or the null pointer
  unfoldable pub handle_for :
      ℕ → Clients Cipher → Message → Option (Turn Cipher) → Outcome (Clients Cipher)
  handle_for fuel clients m none = ok clients
  handle_for fuel clients m (some t) =
      if is_mc_packet (get_message_id m)
      then (forward fuel t (get_payload m) >>= λ t'.
          ok (put same_bytes (get_player_id m) (some t') clients))
      else ok clients

  -- handleMessage
  unfoldable pub handle_message : ℕ → Clients Cipher → Message → Outcome (Clients Cipher)
  handle_message fuel clients m =
      handle_for fuel (touch same_bytes (get_player_id m) clients) m
        (pointer same_bytes (get_player_id m) clients)

  -- The message of a datagram; fromData answers with a null pointer if it is cut off.
  unfoldable pub handle_datagram : ℕ → Clients Cipher → Option Message → Outcome (Clients Cipher)
  handle_datagram fuel clients none = undefined
  handle_datagram fuel clients (some m) = handle_message fuel clients m

  -- onDataReceived with a datagram
  unfoldable pub on_data_received : ℕ → Clients Cipher → List ℕ → Outcome (Clients Cipher)
  on_data_received fuel clients datagram = do
    (m, _) ← from_data datagram false
    handle_datagram fuel clients m

-- sendShutdownSignal
unfoldable pub send_shutdown_signal : {Cipher : Type 0} → Clients Cipher → Outcome (Clients Cipher)
send_shutdown_signal clients = shutdown_loop clients

-- What sendPacket asks of the sending socket: a datagram to every node.
pub record Broadcast : Type 0 where
  pub port : ℕ
  pub bytes : List ℕ

-- The port that the nodes listen on
abbrev pub node_port : ℕ
node_port = 1337

-- sendPacket
unfoldable pub send_message : Message → Outcome Broadcast
send_message m = do
  raw_data ← serialize_data m []
  ok (record { port = node_port; bytes = raw_data })
