-- ===== src/Session/Keepalive.antt =====
-- The enquire_link keepalive of `SmppSession`. A timer's handler takes the flag that its
-- `error_code` is set (the wait was cancelled).
use opensmsc.Base.{ℕ, ◌+◌, Bool, true, false, ◌&&◌, ◌||◌, u32, ltb, ◌==◌, if◌then◌else◌, []}
use opensmsc.Pdu.Constants.{enquire_link, esme_rok}
use opensmsc.Pdu.Wire.{Header}
use opensmsc.Pdu.Build.{make_response}
use opensmsc.Session.State.{
  SessionState, unbound, Session, emit, send_pdu, read_header, timer_armed, timeout_armed,
  timeout_cancelled, do_disconnect,
}
use opensmsc.Base.{text}

abbrev pub is_unbound : SessionState → Bool
is_unbound unbound = true
is_unbound _ = false

abbrev pub schedule_enquire_link : Session → Session
schedule_enquire_link s = emit timer_armed s

abbrev pub arm_enquire_link_timeout : Session → Session
arm_enquire_link_timeout s = emit timeout_armed s

-- `start()`
unfoldable pub start : Session → Session
start s = let s = read_header s in if ltb 0 s.el_interval_sec then schedule_enquire_link s else s

unfoldable pub next_el_seq : ℕ → ℕ
next_el_seq el_seq = if el_seq == 0 then 0x1000_0000 else u32 (el_seq + 1)

unfoldable pub on_enquire_link_timer : Bool → Session → Session
unfolding next_el_seq
on_enquire_link_timer ec s =
    if ec || s.el_pending
    then s
    else if is_unbound s.state
    then s
    else (let s = record s { el_seq = next_el_seq s.el_seq; el_pending = true } in
        arm_enquire_link_timeout (send_pdu (make_response enquire_link esme_rok s.el_seq []) s))

unfoldable pub handle_enquire_link_resp : Header → Session → Session
handle_enquire_link_resp hdr s =
    if hdr.sequence_number == s.el_seq && s.el_pending
    then schedule_enquire_link (emit timeout_cancelled (record s { el_pending = false }))
    else s

unfoldable pub on_enquire_link_timeout : Bool → Session → Session
on_enquire_link_timeout ec s =
    if ec then s else if s.el_pending then do_disconnect (text "enquire_link timeout") s else s
