-- ===== src/Startup.antt =====
-- The programs' entry points: SMPPServer/src/main.cpp, Authenticator/src/main.cpp and
-- SmppClientHandler/src/main.cpp, with the loggers that they set up.
pub mod Options
pub mod Reference
pub mod Process
pub mod Mains
pub mod Outcome
pub mod Stop
pub mod Others
pub mod Whitelisted
pub mod Launched
pub mod Logging
pub mod Info
mod Tests
