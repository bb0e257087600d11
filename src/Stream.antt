-- ===== src/Stream.antt =====
-- src/stream.cpp: what becomes of an encoded frame and of a control message on the way to the network.
mod Tests
pub mod Slices
pub mod Fec
pub mod Video
pub mod Audio
pub mod Control
pub mod Messages
pub mod Nonces
pub mod Session
pub mod Feedback
