-- ===== src/Session/LoopFrames.antt =====
-- The inputs of the event loop, up to what Frames says of them.
use opensmsc.Pdu.Build.{make_response}
use opensmsc.Pdu.Wire.{Header, decode_header}
use opensmsc.Pdu.Constants.{esme_rok, submit_sm_resp}
use opensmsc.Session.State.{
  Session, World, body_awaited, do_disconnect, emit, read_header, send_pdu,
}
use opensmsc.Pdu.Submit.{SubmitSm, parse_submit_sm}
use opensmsc.Session.Submit.{handle_submit_sm, next_message_id, route, submit_status}
use opensmsc.Session.HandlerFrames.{
  handle_bind-Frames, handle_enquire_link_resp-Frames, handle_unbind-Frames,
  on_enquire_link_timeout-Frames, on_enquire_link_timer-Frames, route-Frames, submit_status-put,
}
use opensmsc.Session.Frames.{
  Frames, do_disconnect-Frames, emit-Frames, if-Frames, keep-Frames, then-Frames,
}
use opensmsc.Base.{
  Bool, List, Option, Text, [], ap, false, if◌then◌else◌, ltb, none, refl, some, true, u32, ℕ, ◌+◌,
  ◌-◌, ◌==◌, ◌∙◌, ◌∷◌, ◌≡◌, text,
}
use opensmsc.Session.Dispatch.{
  Command, Input, binding, body_read, command_of, deliver_call, delivered, disconnect_call,
  dispatch, dispatch_command, enquired, enquiring, handle_deliver_sm_resp, handle_enquire_link,
  header_read, on_body, on_header, other, read_body, step, submitting, timeout_fired, timer_fired,
  unbinding,
}

accepted-Frames :
    (hdr : Header) (sm : SubmitSm) (id : Text) (seq status : ℕ) (s : Session)
    → Frames
        (λ t. route sm id (
          send_pdu
            (make_response submit_sm_resp status hdr.sequence_number id)
            (record t { msg_seq = seq })))
        s
accepted-Frames hdr sm id seq status s =
    then-Frames (route sm id)
      (λ t.
        send_pdu (make_response submit_sm_resp status hdr.sequence_number id)
          (record t { msg_seq = seq }))
      s (_ ∷ [], λ d l. refl) (route-Frames sm id _)

-- `handle_submit_sm` behind its status.
abbrev answer_submit : Header → List ℕ → ℕ → Session → Session
answer_submit hdr body status s =
    if status == esme_rok
    then (let sm = parse_submit_sm body in
        let (msg_id, s) = next_message_id s in
        route sm msg_id
          (send_pdu (make_response submit_sm_resp status hdr.sequence_number msg_id) s))
    else send_pdu (make_response submit_sm_resp status hdr.sequence_number []) s

answer_submit-Frames :
    (hdr : Header) (body : List ℕ) (status : ℕ) (s : Session)
    → Frames (answer_submit hdr body status) s
unfolding next_message_id
answer_submit-Frames hdr body status s =
    let sm = parse_submit_sm body in
    let id = (next_message_id s).0 in
    let seq = u32 (s.msg_seq + 1) in
    if-Frames (status == esme_rok)
      (λ t. route sm id (
        send_pdu (make_response submit_sm_resp status hdr.sequence_number id)
          (record t { msg_seq = seq })))
      (send_pdu (make_response submit_sm_resp status hdr.sequence_number [])) s
      (accepted-Frames hdr sm id seq status s) (emit-Frames _ s)

handle_submit_sm-Frames :
    (hdr : Header) (body : List ℕ) (w : World) (s : Session)
    → Frames (handle_submit_sm hdr body w) s
unfolding handle_submit_sm
handle_submit_sm-Frames hdr body w s =
    let (status, s1) = submit_status w s in
    let (pushed, by) = answer_submit-Frames hdr body status s1 in
    (
      pushed,
      λ d l.
          ap (λ (r : ℕ × Session). answer_submit hdr body r.0 r.1) (submit_status-put w s d l)
          ∙ by d l,
    )

dispatch_command-Frames :
    (c : Command) (hdr : Header) (body : List ℕ) (w : World) (s : Session)
    → Frames (dispatch_command c hdr body w) s
unfolding dispatch_command handle_enquire_link handle_deliver_sm_resp
dispatch_command-Frames binding hdr body w s = handle_bind-Frames hdr body w s
dispatch_command-Frames unbinding hdr body w s = handle_unbind-Frames hdr s
dispatch_command-Frames enquiring hdr body w s = emit-Frames _ s
dispatch_command-Frames submitting hdr body w s = handle_submit_sm-Frames hdr body w s
dispatch_command-Frames enquired hdr body w s = handle_enquire_link_resp-Frames hdr s
dispatch_command-Frames delivered hdr body w s = keep-Frames s
dispatch_command-Frames other hdr body w s = emit-Frames _ s

dispatched-Frames :
    (hdr : Header) (body : List ℕ) (w : World) (s : Session)
    → Frames (λ s. read_header (dispatch hdr body w s)) s
unfolding dispatch
dispatched-Frames hdr body w s =
    then-Frames read_header (dispatch_command (command_of hdr.command_id) hdr body w) s
      (dispatch_command-Frames (command_of hdr.command_id) hdr body w s)
      (emit-Frames _ (dispatch_command (command_of hdr.command_id) hdr body w s))

read_body-Frames : (hdr : Header) (w : World) (s : Session) → Frames (read_body hdr w) s
unfolding read_body
read_body-Frames hdr w s =
    if-Frames (hdr.command_length - 16 == 0) (λ s. read_header (dispatch hdr [] w s))
      (emit (body_awaited hdr)) s (dispatched-Frames hdr [] w s) (emit-Frames _ s)

on_header-Frames :
    (ec : Option Text) (buf : List ℕ) (w : World) (s : Session) → Frames (on_header ec buf w) s
unfolding on_header
on_header-Frames (some message) buf w s = do_disconnect-Frames _ s
on_header-Frames none buf w s =
    if-Frames (ltb (decode_header buf).command_length 16)
      (do_disconnect (text "invalid PDU length")) (read_body (decode_header buf) w) s
      (do_disconnect-Frames _ s) (read_body-Frames (decode_header buf) w s)

on_body-Frames :
    (ec : Option Text) (hdr : Header) (body : List ℕ) (w : World) (s : Session)
    → Frames (on_body ec hdr body w) s
unfolding on_body
on_body-Frames (some message) hdr body w s = do_disconnect-Frames _ s
on_body-Frames none hdr body w s = dispatched-Frames hdr body w s

-- The inputs that the event loop runs: all but DeliverSm, which runs on the D-Bus thread.
abbrev pub of_loop : Input → Bool
of_loop (deliver_call src dst message) = false
of_loop _ = true

pub step-Frames : (i : Input) (w : World) (s : Session) → of_loop i ≡ true → Frames (step i w) s
unfolding step
step-Frames (header_read ec buf) w s h = on_header-Frames ec buf w s
step-Frames (body_read ec hdr body) w s h = on_body-Frames ec hdr body w s
step-Frames (timer_fired ec) w s h = on_enquire_link_timer-Frames ec s
step-Frames (timeout_fired ec) w s h = on_enquire_link_timeout-Frames ec s
step-Frames (disconnect_call reason) w s h = do_disconnect-Frames reason s
step-Frames (deliver_call src dst message) w s h = cc
