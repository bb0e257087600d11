-- ===== src/Util.antt =====
-- src/utility.h: the helpers that other parts of the program build on.
pub mod Hex
