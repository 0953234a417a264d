-- ===== src/Gateway/Relay/Messages.antt =====
-- handleMessage and onDataReceived of Client Gateway/ClientServer.cpp.
use cerios_cluster.Common.{
  ℕ, ◌+◌, ◌^◌, ◌<◌, ◌≤◌, List, [], ◌∷◌, ◌++◌, true, false, none, some, lt→ltb, lt→leb, length, ◌≡◌,
  inl, inr, refl, arith, Bool-cases,
}
use cerios_cluster.Common.Outcome.{ok, undefined}
use cerios_cluster.McPacket.Base.{as_size}
use cerios_cluster.Gateway.Host.{Host}
use cerios_cluster.McPacket.VarInt.Encoding.{encode}
use cerios_cluster.McPacket.VarInt.Size.{write_buffer_length_to_front_lem}
use cerios_cluster.InternalComms.{
  Message, header_size, header_of, get_message_id, get_player_id, get_payload,
}
use cerios_cluster.InternalComms.Bounds.{from_data_incomplete}
use cerios_cluster.Gateway.Pointers.{entry, put, touch, pointer, pointer-missing}
use cerios_cluster.Gateway.Client.{Turn, async_write, emit}
use cerios_cluster.Gateway.Client.Login.{same_bytes}
use cerios_cluster.Gateway.Client.Send.Frames.{WritesClear, send_data_clear}
use cerios_cluster.Gateway.Relay.{
  Clients, is_mc_packet, forward, handle_for, handle_message, handle_datagram, on_data_received,
  shutdown_loop, send_shutdown_signal,
}

shutdown_rest :
    {Cipher : Type 0} (j : List ℕ) (t : Turn Cipher) (rest : Clients Cipher)
    → shutdown_loop rest ≡ undefined
    → shutdown_loop ((j, some t) ∷ rest) ≡ undefined
unfolding shutdown_loop
shutdown_rest j t rest e = elim (Bool-cases t.client.alive) [
  | inl s ↦ ground (arith, s, e)
  | inr s ↦ ground (arith, s, e)
]

shutdown_touched :
    {Cipher : Type 0} (k : List ℕ) (clients : Clients Cipher)
    → entry same_bytes k clients ≡ none
    → shutdown_loop (touch same_bytes k clients) ≡ undefined
unfolding entry touch shutdown_loop
shutdown_touched k [] e = refl
shutdown_touched k ((j, none) ∷ rest) e = elim (Bool-cases (same_bytes j k)) [
  | inl s ↦ rw s
  | inr s ↦ rw s
]
shutdown_touched k ((j, some t) ∷ rest) e = elim (Bool-cases (same_bytes j k)) [
  | inl s ↦ absurd (ground (arith, s, e))
  | inr s ↦
      rw s (
        shutdown_rest j t (touch same_bytes k rest)
          (shutdown_touched k rest (ground (arith, s, e))))
]

-- A message for a player that is not there is dropped, but it leaves a null pointer in the map, and
-- the shutdown signal that follows is undefined behaviour.
pub handle_message_unknown :
    (h : Host) (fuel : ℕ) (clients : Clients h.Cipher) (m : Message)
    → entry same_bytes (get_player_id m) clients ≡ none
    → (handle_message h fuel clients m ≡ ok (touch same_bytes (get_player_id m) clients))
      × (send_shutdown_signal (touch same_bytes (get_player_id m) clients) ≡ undefined)
unfolding handle_message handle_for send_shutdown_signal
handle_message_unknown h fuel clients m e = (
  rw (pointer-missing same_bytes (get_player_id m) clients e),
  shutdown_touched (get_player_id m) clients e,
)

-- The threshold of a client without compression, as a size_t, is beyond every payload.
forward_clear :
    (h : Host) (fuel : ℕ) (t : Turn h.Cipher) (payload : List ℕ)
    → WritesClear t
    → length payload < 2 ^ 21
    → forward h fuel t payload ≡ ok (emit t (async_write (encode 4 (length payload) ++ payload)))
unfolding forward
forward_clear h fuel t payload (ha, he, hc) small = rw (
  lt→leb (as_size t.client.compression_threshold) (length payload) (ground (arith, hc, small)),
  write_buffer_length_to_front_lem payload (omega (arith, small)),
  lt→ltb (length payload) (2 ^ 21) small,
  send_data_clear h t (encode 4 (length payload) ++ payload) ha he,
)

-- A packet for a player in the clear, below 2 MiB, is written to the player's socket behind its
-- length, and the map has the client after that in its place.
pub handle_message_clear :
    (h : Host) (fuel : ℕ) (clients : Clients h.Cipher) (m : Message) (t : Turn h.Cipher)
    → pointer same_bytes (get_player_id m) clients ≡ some t
    → is_mc_packet (get_message_id m) ≡ true
    → WritesClear t
    → length (get_payload m) < 2 ^ 21
    → handle_message h fuel clients m
      ≡ ok (
          put same_bytes
            (get_player_id m)
            (some (emit t (async_write (encode 4 (length (get_payload m)) ++ get_payload m))))
            (touch same_bytes (get_player_id m) clients))
unfolding handle_message handle_for
handle_message_clear h fuel clients m t e k clear small =
    rw (e) (rw (k, forward_clear h fuel t (get_payload m) clear small))

-- A datagram that is cut off inside its payload is undefined behaviour: the message is a null pointer.
pub on_data_received_cut :
    (h : Host) (fuel : ℕ) (clients : Clients h.Cipher) (datagram : List ℕ)
    → header_size ≤ length datagram
    → length datagram < header_size + (header_of datagram).payload_length
    → header_size + (header_of datagram).payload_length < 2 ^ 64
    → on_data_received h fuel clients datagram ≡ undefined
unfolding on_data_received handle_datagram
on_data_received_cut h fuel clients datagram there cut fits =
    rw (from_data_incomplete datagram false there cut fits)
