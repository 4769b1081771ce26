-- ===== src/Packet.antt =====
-- packet/*.cpp: the packets, their decoding constructors and their `serialize`.
pub mod FixedHeader
pub mod Text
pub mod Length
pub mod Utf8
pub mod Ending
pub mod Switch
pub mod Typed
pub mod Publish
pub mod Connect
pub mod Subscribe
pub mod Acks
pub mod Pings
pub mod Any
pub mod Bits
pub mod HeaderTrip
pub mod SubscribeTrip
pub mod ConnectBytes
pub mod ConnectTrip
pub mod ConnectWill
pub mod Travels
pub mod AckTrip
pub mod PublishBytes
pub mod PublishFlags
pub mod PublishTrip
pub mod Resent
