-- ===== src/Session.antt =====
-- SmppClientHandler/src/smpp_session.cpp and include/smpp_session.hpp: one SMPP session. `State`,
-- `Keepalive`, `Submit`, `Bind` and `Dispatch` hold the methods, the other children the proofs.
pub mod State
pub mod Keepalive
pub mod Submit
pub mod Bind
pub mod Dispatch
pub mod Lifecycle
pub mod Invariant
pub mod Answers
pub mod Throttle
pub mod Effects
pub mod Line
pub mod Sends
pub mod Framing
pub mod Frames
pub mod HandlerFrames
pub mod LoopFrames
pub mod Threads
pub mod Atomic
mod Tests
