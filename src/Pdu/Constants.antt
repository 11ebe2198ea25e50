-- ===== src/Pdu/Constants.antt =====
-- The command identifiers and status codes of smpp_pdu.hpp.
use opensmsc.Base.{ℕ}

abbrev pub bind_transmitter : ℕ
bind_transmitter = 0x0000_0002

abbrev pub bind_transmitter_resp : ℕ
bind_transmitter_resp = 0x8000_0002

abbrev pub bind_receiver : ℕ
bind_receiver = 0x0000_0003

abbrev pub bind_receiver_resp : ℕ
bind_receiver_resp = 0x8000_0003

abbrev pub bind_transceiver : ℕ
bind_transceiver = 0x0000_0009

abbrev pub bind_transceiver_resp : ℕ
bind_transceiver_resp = 0x8000_0009

abbrev pub unbind : ℕ
unbind = 0x0000_0006

abbrev pub unbind_resp : ℕ
unbind_resp = 0x8000_0006

abbrev pub enquire_link : ℕ
enquire_link = 0x0000_0015

abbrev pub enquire_link_resp : ℕ
enquire_link_resp = 0x8000_0015

abbrev pub submit_sm : ℕ
submit_sm = 0x0000_0004

abbrev pub submit_sm_resp : ℕ
submit_sm_resp = 0x8000_0004

abbrev pub deliver_sm : ℕ
deliver_sm = 0x0000_0005

abbrev pub deliver_sm_resp : ℕ
deliver_sm_resp = 0x8000_0005

abbrev pub generic_nack : ℕ
generic_nack = 0x8000_0000

abbrev pub esme_rok : ℕ
esme_rok = 0x0000_0000

-- invalid command id
abbrev pub esme_rinvcmdid : ℕ
esme_rinvcmdid = 0x0000_0003

-- invalid bind status
abbrev pub esme_rinvbndsts : ℕ
esme_rinvbndsts = 0x0000_0004

-- already bound
abbrev pub esme_ralybnd : ℕ
esme_ralybnd = 0x0000_0005

abbrev pub esme_rinvpaswd : ℕ
esme_rinvpaswd = 0x0000_000E

abbrev pub esme_rinvsysid : ℕ
esme_rinvsysid = 0x0000_000F

-- throttling error
abbrev pub esme_rthrottled : ℕ
esme_rthrottled = 0x0000_0058
