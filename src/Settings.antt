-- ===== src/Settings.antt =====
-- Common/src/config.cpp and include/common/config.hpp: the configuration of the services.
pub mod State
pub mod Port
mod Tests
