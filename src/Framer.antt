-- ===== src/Framer.antt =====
-- SMPPServer/src/smpp_pdu_framer.cpp and its header: a PDU collected from pieces of a byte stream.
pub mod State
pub mod Invariant
pub mod Reassembly
mod Tests
