-- ===== src/Client.antt =====
-- SmppClientHandler/src/smpp_client_handler.cpp and its header: the wrapper of the second state machine.
pub mod State
