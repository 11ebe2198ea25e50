-- ===== src/Registry.antt =====
-- SMPPServer/src/connection_registry.cpp: connections that wait for their handler, and how many
-- of each address there are.
pub mod State
pub mod Count
pub mod Limit
mod Tests
