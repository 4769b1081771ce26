-- ===== src/Wire.antt =====
-- The bytes of the packets: the stream buffer, and what packet/*.cpp read from it and write to it.
pub mod Decoder
pub mod Buffer
pub mod Bind
pub mod Ends
pub mod Yields
