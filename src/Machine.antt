-- ===== src/Machine.antt =====
-- SmppClientHandler/src/smpp_state_machine.cpp and its header: the client's state machine, one class
-- with a `switch` over its state.
pub mod State
pub mod Events
pub mod Diagram
pub mod Trace
mod Tests
