-- ===== src/Input.antt =====
-- src/input.cpp: what the host does with the input messages of a client.
pub mod Packet
pub mod Batch
pub mod State
pub mod Keyboard
pub mod Mouse
pub mod Gamepads
pub mod Reset
mod Tests
