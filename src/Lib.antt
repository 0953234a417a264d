-- ===== src/Lib.antt =====
-- A verification library for CeriosCluster, a Minecraft server whose client gateway logs players in
-- and relays their packets.
--
-- The parts, and how they interact. `MCPacket/` has the wire format: variable-length integers, the
-- packet classes and the registry that finds a class for a side, a state and an id.
-- `InternalComms/` has the messages between the nodes. `Client Gateway/Client.cpp` is one
-- connection: bytes from the socket are put in a buffer, a frame is taken off it and parsed, and
-- the packet drives the state HANDSHAKE, STATUS, LOGIN or PLAY; the answers are serialized, framed
-- and written. A client calls its owner, the login server or the relay of `Client
-- Gateway/ClientServer.cpp`.
--
-- McPacket/VarInt models the integers of MCPacket/Packet.cpp, McPacket/Base the class Packet of
-- MCPacket/Packet.hpp and Packet.cpp, McPacket/BitField MCPacket/Bitfield.hpp and the Position,
-- McPacket/Messages the thirteen packet classes of MCPacket/, McPacket/Classes and
-- McPacket/Registry the calls that depend on the class and the registry, McPacket/Parse
-- parsePacket, and McPacket/Compress compressData. InternalComms models InternalComms/.
-- Gateway/Client models Client Gateway/Client.cpp, with Gateway/Client/Auth and
-- Gateway/Client/Https for its exchange with the session server, and Gateway/Digest and
-- Gateway/Uuid for its session hash and UUIDs. Gateway/Session has a connection over time: `Step`
-- is any one call that a client gets, `Reachable` is what it can come to from its constructor,
-- and SessionFacts is the invariant of its state and effects. Gateway/Servers has the login server and
-- the relay over time: `Move` is any one call on their two maps of clients. Gateway/EventLoop has
-- how they are set up, and the accepts and waits that they have outstanding with the event loop:
-- `Event` is one handler. ClientServer models Client Server/ClientServer.cpp, the node that
-- receives the internal messages, and ClientServer/GameState the data of Client
-- Server/GameState.hpp. Gateway/Console models the console loop of Client Gateway/LoginServer.cpp,
-- Gateway/LoginServer its pending clients, and Gateway/Relay Client Gateway/ClientServer.cpp with
-- its map of clients (Gateway/Pointers) and its chat. The names are those of the source in snake
-- case. Examples applies the properties to concrete inputs.
--
-- A byte buffer is a list of numbers, an integer of w bits is its bit pattern below 2 ^ w, and a
-- call has an `Outcome`: it returns, throws, has undefined behaviour, or is endless, which is that
-- its fuel ran out. Five rounds write every uint32_t and ten every uint64_t; the other loops on
-- fuel (writeVarIntToFront, inflate, deflate) take it as an argument, since they need not end. What
-- memory holds before it is written, the time and random values are fields of `Environment`. The
-- handlers of a client take and give a `Turn`: the client, and the list of what it has asked of the
-- sockets, the timer and its owner. A write is listed with the bytes that its buffer holds at the
-- call. In encrypted mode that is a vector which is freed on return, so the write is one of its
-- own, `async_write_freed`, and of what the socket gets from it nothing is said. In the clear it is
-- the payload of a packet, whose lifetime behind the call is not modelled. Two asynchronous
-- handlers of one client are not interleaved inside a handler.
--
-- zlib, OpenSSL, rapidjson and the random engine are parameters, in the records `Zlib`, `Deflater`,
-- `Host` and `Json`. Where a catch clause takes an exception, the function gives the client as it
-- was before the handler, closed; what the handler had assigned is in the steps `login_thrown` and
-- `keyed_thrown` of Gateway/Session. Not modelled: sockets, TLS and threads, which are calls of
-- asio; the certificate, which nothing uses; the database, whose results the source does not use;
-- the copies of mysqlpp and of a published random selection, and the generated `packets.pb.cc`.
pub mod ClientServer
pub mod Common
pub mod McPacket
pub mod InternalComms
pub mod Gateway
pub mod Examples
