-- ===== src/ClientServer.antt =====
-- Client Server/ClientServer.cpp: a node of the game, which receives the internal messages of the
-- gateways. What it asks of its sockets is a list; an address is a number.
pub mod Listen
pub mod GameState
use cerios_cluster.Common.{ℕ, List, [], ◌∷◌, ◌++◌, Bool, true, false, Option, none, some}
use cerios_cluster.Common.Outcome.{Outcome, ok, undefined, ◌>>=◌}
use cerios_cluster.InternalComms.{Message, serialize_data, from_data}

pub data NodeEffect : Type 0 where
  start_receive : NodeEffect
  send_to : (address port : ℕ) → List ℕ → NodeEffect

-- The port that the gateways listen on
abbrev pub gateway_port : ℕ
gateway_port = 1338

-- init
unfoldable pub init : List NodeEffect → List NodeEffect
init asked = asked ++ (start_receive ∷ [])

-- handleMessage: the id of the message is looked at, and nothing is done with any. A null pointer is
-- undefined.
unfoldable pub handle_node_message : List NodeEffect → Option Message → Outcome (List NodeEffect)
handle_node_message asked none = undefined
handle_node_message asked (some m) = ok asked

-- What the socket gives to a read of so many bytes as it has
pub data Datagram : Type 0 where
  failed : Datagram
  datagram : List ℕ → Datagram

-- onDatagramMessageReceived from the read on
unfoldable pub on_datagram : List NodeEffect → Datagram → Outcome (List NodeEffect)
unfolding handle_node_message init
on_datagram asked failed = ok asked
on_datagram asked (datagram bytes) = do
  (m, left) ← from_data bytes true
  handled ← handle_node_message asked m
  ok (init handled)

-- onDatagramMessageReceived
unfoldable pub on_datagram_message_received :
    List NodeEffect → (error : Bool) → Datagram → Outcome (List NodeEffect)
unfolding on_datagram
on_datagram_message_received asked true read = ok asked
on_datagram_message_received asked false read = on_datagram asked read

-- sendPacket
unfoldable pub send_node_packet :
    List NodeEffect → Message → (address : ℕ) → Outcome (List NodeEffect)
send_node_packet asked m address = do
  raw_data ← serialize_data m []
  ok (asked ++ (send_to address gateway_port raw_data ∷ []))
