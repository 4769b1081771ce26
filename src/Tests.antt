-- ===== src/Tests.antt =====
-- Concrete runs: a stream buffer, a broker with a few clients, and the theorems on them.
pub mod ByteQueue
pub mod World
pub mod Lawful
mod OnTopics
mod OnPackets
mod OnCodec
mod OnSessions
mod OnServer
mod OnMessages
mod OnConfig
mod OnConnect
mod OnStates
