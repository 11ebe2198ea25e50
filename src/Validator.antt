-- ===== src/Validator.antt =====
-- SMPPServer/src/ip_validator.cpp: the whitelist of client addresses.
pub mod Lines
pub mod State
pub mod Masks
pub mod Whitelist
mod Tests
