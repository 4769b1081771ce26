-- ===== src/Server.antt =====
-- player/*.cpp and object/topic.cpp: the broker's state and its handlers.
pub mod Maps
pub mod State
pub mod Clients
pub mod Topics
pub mod Registry
pub mod Connecting
pub mod Publishing
pub mod Subscribing
pub mod Leaving
pub mod Starting
pub mod ConnectRules
pub mod ConnectAccepted
pub mod ConnectRestored
pub mod Retry
pub mod Delivery
pub mod Effective
pub mod Everyone
pub mod Forwarding
pub mod Departure
pub mod Granting
pub mod Grants
pub mod Fanout
pub mod Entries
pub mod Keeping
pub mod Rules
pub mod Kept
pub mod WellFormed
pub mod Table
pub mod TopicLaws
pub mod Lawful
pub mod Unretained
pub mod ConnectGrants
pub mod Refinement
pub mod SubscribeRefines
pub mod LeavingRefines
pub mod UnsubscribeRefines
