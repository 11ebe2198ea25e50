-- ===== src/Session/Bind.antt =====
-- bind and unbind.
use opensmsc.Base.{
  ℕ, List, [], Bool, true, false, Option, none, some, Text, text, ◌==◌, if◌then◌else◌,
}
use opensmsc.Pdu.Constants.{
  bind_transmitter, bind_receiver, bind_transceiver, unbind_resp, esme_rok, esme_ralybnd,
  esme_rinvsysid,
}
use opensmsc.Pdu.Wire.{Header}
use opensmsc.Pdu.Submit.{read_cstr}
use opensmsc.Pdu.Build.{make_response, bind_resp_id}
use opensmsc.Session.State.{
  SessionState, opened, bound_tx, bound_rx, bound_trx, Session, World, emit, send_pdu,
  authenticated, do_disconnect, update_session_details,
}

abbrev pub is_open : SessionState → Bool
is_open opened = true
is_open _ = false

-- `auth_ok` and `err_code` after the call; an exception leaves their initial values.
abbrev pub verdict : Option (Bool × ℕ) → Bool × ℕ
verdict none = (false, esme_rinvsysid)
verdict (some answer) = answer

-- The `switch` on the command: the state that a bind leads to.
unfoldable pub bound_state : ℕ → SessionState → SessionState
bound_state command_id state =
    if command_id == bind_transmitter
    then bound_tx
    else if command_id == bind_receiver
    then bound_rx
    else if command_id == bind_transceiver
    then bound_trx
    else state

-- `handle_bind` behind the call of IAuth.
unfoldable pub finish_bind : Header → Text → Bool × ℕ → World → Session → Session
finish_bind hdr sid (false, err_code) w s =
    do_disconnect (text "auth failed")
      (send_pdu (make_response (bind_resp_id hdr.command_id) err_code hdr.sequence_number []) s)
finish_bind hdr sid (true, err_code) w s =
    let s = record s {
      system_id = sid;
      state = bound_state hdr.command_id s.state;
      bind_time = w.system_seconds;
    } in
    update_session_details (
      send_pdu
        (make_response (bind_resp_id hdr.command_id) esme_rok hdr.sequence_number
          (text "smpp-server"))
        s)

unfoldable pub handle_bind : Header → List ℕ → World → Session → Session
handle_bind hdr body w s =
    if is_open s.state
    then (let (sid, off) = read_cstr body 0 in
        let (pass, off) = read_cstr body off in
        let answer = w.authenticate s.uuid sid pass s.client_ip in
        finish_bind hdr sid (verdict answer) w (emit (authenticated sid pass answer) s))
    else send_pdu (make_response (bind_resp_id hdr.command_id) esme_ralybnd hdr.sequence_number [])
        s

unfoldable pub handle_unbind : Header → Session → Session
handle_unbind hdr s =
    do_disconnect (text "unbind")
      (send_pdu (make_response unbind_resp esme_rok hdr.sequence_number []) s)
