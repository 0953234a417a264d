-- ===== src/McPacket/Messages.antt =====
-- The packet classes of MCPacket/: their members, how they are made, parsed and serialized.
--
-- Each class has a module with a record (its members behind the base object), `make` (the default
-- constructor), `parse` (the constructor from a packet in progress) and `serialize`.
pub mod Text
pub mod Wire
pub mod Session
pub mod Login
pub mod World
pub mod Player
pub mod Ignored
