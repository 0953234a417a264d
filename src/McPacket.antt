-- ===== src/McPacket.antt =====
-- The packet library of the Minecraft protocol (MCPacket/).
pub mod VarInt
pub mod Base
pub mod BitField
pub mod Messages
pub mod Classes
pub mod Registry
pub mod Parse
pub mod Compress
