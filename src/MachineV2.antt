-- ===== src/MachineV2.antt =====
-- SmppClientHandler/src/smpp_state_machine_v2.cpp, smpp_states.cpp and include/smpp_state_base.hpp: the
-- state machine in which each state is a class that accepts some PDUs and throws on the others.
pub mod State
pub mod States
pub mod Handlers
pub mod Owners
pub mod Reactions
pub mod Edges
mod Tests
