-- ===== src/Session/Dispatch.antt =====
-- Reading PDUs off the socket and dispatching them, and the session as a machine of inputs.
use opensmsc.Base.{
  ℕ, ◌-◌, List, [], ◌∷◌, ◌++◌, Bool, Option, none, some, Text, text, ltb, ◌==◌, if◌then◌else◌,
}
use opensmsc.Pdu.Constants.{
  bind_transmitter, bind_receiver, bind_transceiver, unbind, enquire_link, submit_sm,
  enquire_link_resp, deliver_sm_resp, generic_nack, esme_rok, esme_rinvcmdid,
}
use opensmsc.Pdu.Wire.{Header, decode_header}
use opensmsc.Pdu.Build.{make_response}
use opensmsc.Session.State.{
  Session, World, emit, send_pdu, read_header, body_awaited, do_disconnect,
}
use opensmsc.Session.Bind.{handle_bind, handle_unbind}
use opensmsc.Session.Submit.{handle_submit_sm, deliver_sm_call}
use opensmsc.Session.Keepalive.{
  handle_enquire_link_resp, on_enquire_link_timer, on_enquire_link_timeout,
}

unfoldable pub handle_enquire_link : Header → Session → Session
handle_enquire_link hdr s =
    send_pdu (make_response enquire_link_resp esme_rok hdr.sequence_number []) s

-- Only logs.
unfoldable pub handle_deliver_sm_resp : Header → Session → Session
handle_deliver_sm_resp hdr s = s

-- The cases of the `switch` in `dispatch`.
pub data Command : Type 0 where
  binding unbinding enquiring submitting enquired delivered other : Command

unfoldable pub command_of : ℕ → Command
command_of id =
    if id == bind_transmitter
    then binding
    else if id == bind_receiver
    then binding
    else if id == bind_transceiver
    then binding
    else if id == unbind
    then unbinding
    else if id == enquire_link
    then enquiring
    else if id == submit_sm
    then submitting
    else if id == enquire_link_resp
    then enquired
    else if id == deliver_sm_resp
    then delivered
    else other

unfoldable pub dispatch_command : Command → Header → List ℕ → World → Session → Session
dispatch_command binding hdr body w s = handle_bind hdr body w s
dispatch_command unbinding hdr body w s = handle_unbind hdr s
dispatch_command enquiring hdr body w s = handle_enquire_link hdr s
dispatch_command submitting hdr body w s = handle_submit_sm hdr body w s
dispatch_command enquired hdr body w s = handle_enquire_link_resp hdr s
dispatch_command delivered hdr body w s = handle_deliver_sm_resp hdr s
dispatch_command other hdr body w s =
    send_pdu (make_response generic_nack esme_rinvcmdid hdr.sequence_number []) s

unfoldable pub dispatch : Header → List ℕ → World → Session → Session
dispatch hdr body w s = dispatch_command (command_of hdr.command_id) hdr body w s

-- A body of no bytes is dispatched at once.
unfoldable pub read_body : Header → World → Session → Session
read_body hdr w s =
    let body_len = hdr.command_length - 16 in
    if body_len == 0 then read_header (dispatch hdr [] w s) else emit (body_awaited hdr) s

-- The handler of the header's read: an error's message, or the sixteen bytes.
unfoldable pub on_header : Option Text → List ℕ → World → Session → Session
on_header (some message) buf w s = do_disconnect (text "socket closed: " ++ message) s
on_header none buf w s =
    let hdr = decode_header buf in
    if ltb hdr.command_length 16
    then do_disconnect (text "invalid PDU length") s
    else read_body hdr w s

unfoldable pub on_body : Option Text → Header → List ℕ → World → Session → Session
on_body (some message) hdr body w s = do_disconnect (text "body read: " ++ message) s
on_body none hdr body w s = read_header (dispatch hdr body w s)

-- What the event loop and D-Bus may run next.
pub data Input : Type 0 where
  header_read : Option Text → List ℕ → Input
  body_read : Option Text → Header → List ℕ → Input
  timer_fired timeout_fired : Bool → Input
  disconnect_call : Text → Input
  deliver_call : Text → Text → Text → Input

unfoldable pub step : Input → World → Session → Session
step (header_read ec buf) w s = on_header ec buf w s
step (body_read ec hdr body) w s = on_body ec hdr body w s
step (timer_fired ec) w s = on_enquire_link_timer ec s
step (timeout_fired ec) w s = on_enquire_link_timeout ec s
step (disconnect_call reason) w s = do_disconnect reason s
step (deliver_call src_addr dst_addr short_message) w s =
    (deliver_sm_call src_addr dst_addr short_message s).1

-- A run: each input with the world at its time.
unfoldable pub run : Session → List (Input × World) → Session
run s [] = s
run s ((i, w) ∷ rest) = run (step i w s) rest
