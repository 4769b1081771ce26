-- ===== src/Server/Kept.antt =====
-- What all handlers (player/mqtt_server.cpp) keep, part by part: any property of the server's state
-- that obeys the laws of `Rules`.
pub mod Sending
pub mod Subscribing
pub mod Registering
pub mod Connecting
pub mod Leaving
