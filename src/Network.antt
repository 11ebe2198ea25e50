-- ===== src/Network.antt =====
-- The server's service (SMPPServer/src/smpp_server_service.cpp) and the sessions of its client handlers
-- (SmppClientHandler/src/smpp_session.cpp), which call each other by D-Bus.
pub mod State
pub mod Delivery
pub mod Views
pub mod Reports
pub mod Agrees
pub mod Consistent
mod Tests
