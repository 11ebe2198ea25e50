-- ===== src/Service.antt =====
-- SMPPServer/src/smpp_server_service.cpp: the sessions of the server and its IServer interface.
pub mod State
pub mod Routing
pub mod Sessions
mod Tests
