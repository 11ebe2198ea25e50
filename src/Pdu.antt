-- ===== src/Pdu.antt =====
-- SmppClientHandler/include/smpp_pdu.hpp: the SMPP wire format. `Constants`, `Wire`, `Submit` and
-- `Build` hold the header's functions, the other children what is proved of them.
pub mod Constants
pub mod Wire
pub mod Submit
pub mod Build
pub mod WireLaws
pub mod BuildLaws
pub mod SubmitLaws
pub mod RoundTrip
pub mod Bounds
mod Tests
