-- ===== src/Socket.antt =====
-- The byte streams of shared/Server/ASIO: the buffers, the packets that are read, the packets that are sent.
pub mod Buffer
pub mod Space
pub mod Message
pub mod Reader
pub mod Stream
pub mod Moves
pub mod Standing
pub mod Packets
pub mod Payload
pub mod Heads
pub mod Headers
pub mod Refines
pub mod Events
pub mod Delivery
pub mod Connection
pub mod Writer
pub mod Queued
pub mod Sent
pub mod Loopback
pub mod Flushing
pub mod Tests
