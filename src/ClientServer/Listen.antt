-- ===== src/ClientServer/Listen.antt =====
-- What a node of the game does with the datagrams of the gateways.
use cerios_cluster.Common.{
  ℕ, ◌+◌, ◌^◌, ◌<◌, ◌≤◌, List, [], ◌∷◌, ◌++◌, true, false, length, ◌≡◌, refl, sym, append-nil, some,
  ◌∙◌,
}
use cerios_cluster.Common.Outcome.{ok, undefined, ◌>>=◌}
use cerios_cluster.InternalComms.{
  Message, header_of, header_size, get_message_id, get_player_id, get_payload,
}
use cerios_cluster.InternalComms.RoundTrip.{
  IsMessage, message_bytes, serialize_data_lem, from_data-message_bytes,
}
use cerios_cluster.InternalComms.Bounds.{from_data_incomplete}
use cerios_cluster.Gateway.Host.{Host}
use cerios_cluster.Gateway.Relay.{
  Clients, send_message, on_data_received, handle_datagram, handle_message, is_mc_packet,
}
use cerios_cluster.McPacket.VarInt.Encoding.{encode}
use cerios_cluster.Gateway.Pointers.{pointer, put, touch}
use cerios_cluster.Gateway.Client.{Turn, async_write, emit}
use cerios_cluster.Gateway.Client.Login.{same_bytes}
use cerios_cluster.Gateway.Client.Send.Frames.{WritesClear}
use cerios_cluster.Gateway.Relay.Messages.{handle_message_clear}
use cerios_cluster.ClientServer.{
  send_to, gateway_port, send_node_packet, NodeEffect, start_receive, init, handle_node_message,
  datagram, on_datagram, on_datagram_message_received,
}

-- A node that receives what the relay has broadcast of a well-formed message listens on, and asks for
-- nothing else.
pub on_datagram-send_message :
    (asked : List NodeEffect) (m : Message)
    → IsMessage m
    → (send_message m >>= λ sent. on_datagram_message_received asked false (datagram sent.bytes))
      ≡ ok (asked ++ (start_receive ∷ []))
unfolding on_datagram_message_received on_datagram handle_node_message init send_message
on_datagram-send_message asked m v =
    rw
      (
        serialize_data_lem m [] v,
        sym (append-nil (message_bytes m)),
        from_data-message_bytes m [] true v,
      )
      refl

-- A well-formed message that a node sends is handled by the relay that receives it as if it were given
-- the message itself.
pub on_data_received-send_node_packet :
    (h : Host) (fuel : ℕ) (clients : Clients h.Cipher) (asked : List NodeEffect) (m : Message)
    (address : ℕ)
    → IsMessage m
    → (bytes : List ℕ) × ((send_node_packet asked m address
          ≡ ok (asked ++ (send_to address gateway_port bytes ∷ [])))
        × (on_data_received h fuel clients bytes ≡ handle_message h fuel clients m))
unfolding send_node_packet on_data_received handle_datagram
on_data_received-send_node_packet h fuel clients asked m address v = (
  message_bytes m,
  (
    rw (serialize_data_lem m [] v) refl,
    rw (sym (append-nil (message_bytes m)), from_data-message_bytes m [] false v) refl,
  ),
)

-- A well-formed message with a packet below 2 MiB that a node sends for a connected player in the clear
-- is written by the relay that receives it to the player's socket, in one frame.
pub node_packet_reaches_player :
    (h : Host) (fuel : ℕ) (clients : Clients h.Cipher) (asked : List NodeEffect) (m : Message)
    (address : ℕ) (t : Turn h.Cipher)
    → IsMessage m
    → is_mc_packet (get_message_id m) ≡ true
    → length (get_payload m) < 2 ^ 21
    → pointer same_bytes (get_player_id m) clients ≡ some t
    → WritesClear t
    → (bytes : List ℕ) × ((send_node_packet asked m address
          ≡ ok (asked ++ (send_to address gateway_port bytes ∷ [])))
        × (on_data_received h fuel clients bytes
            ≡ ok (
                put same_bytes
                  (get_player_id m)
                  (some (emit t (async_write (encode 4 (length (get_payload m)) ++ get_payload m))))
                  (touch same_bytes (get_player_id m) clients))))
node_packet_reaches_player h fuel clients asked m address t v k small e clear =
    let (bytes, (sent, handled)) =
      on_data_received-send_node_packet h fuel clients asked m address v in
    (bytes, (sent, handled ∙ handle_message_clear h fuel clients m t e k clear small))

-- A datagram that has its header and not its whole payload, where the sum of the sizes does not wrap,
-- is undefined behaviour.
pub on_datagram_cut :
    (asked : List NodeEffect) (bytes : List ℕ)
    → header_size ≤ length bytes
    → length bytes < header_size + (header_of bytes).payload_length
    → header_size + (header_of bytes).payload_length < 2 ^ 64
    → on_datagram_message_received asked false (datagram bytes) ≡ undefined
unfolding on_datagram_message_received on_datagram handle_node_message
on_datagram_cut asked bytes whole less fits =
    rw (from_data_incomplete bytes true whole less fits) refl
