-- ===== src/Accept.antt =====
-- Accepting connections: SMPPServer/src/tcp_server.cpp, session_launcher.cpp, include/session_id.hpp, and
-- the arguments of SmppClientHandler/src/main.cpp.
pub mod SessionId
pub mod Launch
pub mod Words
pub mod Connection
pub mod Listed
pub mod Admitted
pub mod Claimed
pub mod Acceptor
pub mod Refused
pub mod Shell
mod Tests
