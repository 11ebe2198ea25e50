-- ===== src/Handler.antt =====
-- SMPPServer/src/smpp_client_handler.cpp, smpp_handler.cpp, smpp_session.cpp and their headers: the
-- handler of one connection in the server's own process, which the build leaves out.
pub mod Session
pub mod Responses
pub mod State
pub mod Binding
pub mod Steps
pub mod Reads
pub mod Writes
pub mod Loop
pub mod Binds
mod Tests
