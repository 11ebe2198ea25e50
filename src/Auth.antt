-- ===== src/Auth.antt =====
-- Authenticator: the IAuth service and the credentials that it answers from.
pub mod Store
pub mod Answers
pub mod Sound
pub mod Presented
pub mod Sessions
pub mod Signal
mod Tests
