-- ===== src/Session/Lifecycle.antt =====
-- The states that an `SmppSession` passes through.
use opensmsc.Session.Keepalive.{
  handle_enquire_link_resp, on_enquire_link_timeout, on_enquire_link_timer,
}
use opensmsc.Session.Dispatch.{
  Command, Input, binding, body_read, command_of, deliver_call, delivered, disconnect_call,
  dispatch, dispatch_command, enquired, enquiring, handle_deliver_sm_resp, handle_enquire_link,
  header_read, on_body, on_header, other, read_body, step, submitting, timeout_fired, timer_fired,
  unbinding,
}
use opensmsc.Pdu.Wire.{Header, decode_header}
use opensmsc.Session.Submit.{
  handle_submit_sm, take_token, submit_status, throttle_check, next_message_id, deliver_sm_call,
}
use opensmsc.Session.Bind.{handle_bind, finish_bind, bound_state, handle_unbind}
use opensmsc.Session.State.{
  SessionState, do_disconnect, World, opened, Session, bound_tx, bound_rx, update_session_details,
  bound_trx, unbound, send_pdu,
}
use opensmsc.Base.{ℕ, Text, arith, ◌≡◌, List, [], none, some, text}

-- The state diagram of a session.
infix 40 ◌⟶◌
pub data ◌⟶◌ : SessionState → SessionState → Type 0 where
  stay : {a : SessionState} → a ⟶ a
  bind_tx : opened ⟶ bound_tx
  bind_rx : opened ⟶ bound_rx
  bind_trx : opened ⟶ bound_trx
  close : {a : SessionState} → a ⟶ unbound

ruleset edges = (stay, bind_tx, bind_rx, bind_trx, close)

do_disconnect-⟶ : (reason : Text) (s : Session) → s.state ⟶ (do_disconnect reason s).state
unfolding do_disconnect
do_disconnect-⟶ reason s = grind (arith, edges)

handle_bind-⟶ :
    (hdr : Header) (body : List ℕ) (w : World) (s : Session)
    → s.state ⟶ (handle_bind hdr body w s).state
unfolding handle_bind finish_bind bound_state do_disconnect update_session_details
handle_bind-⟶ hdr body w s = grind (arith, edges)

take_token_state : (w : World) (s : Session) → (take_token w s).1.state ≡ s.state
unfolding take_token
take_token_state w s = ground arith

handle_submit_sm_state :
    (hdr : Header) (body : List ℕ) (w : World) (s : Session)
    → (handle_submit_sm hdr body w s).state ≡ s.state
unfolding handle_submit_sm submit_status throttle_check next_message_id
handle_submit_sm_state hdr body w s = ground (arith, take_token_state w s)

dispatch_command-⟶ :
    (c : Command) (hdr : Header) (body : List ℕ) (w : World) (s : Session)
    → s.state ⟶ (dispatch_command c hdr body w s).state
unfolding dispatch_command handle_unbind handle_enquire_link handle_enquire_link_resp
    handle_deliver_sm_resp
dispatch_command-⟶ binding hdr body w s = handle_bind-⟶ hdr body w s
dispatch_command-⟶ unbinding hdr body w s = do_disconnect-⟶ _ (send_pdu _ s)
dispatch_command-⟶ enquiring hdr body w s = stay
dispatch_command-⟶ submitting hdr body w s = rw (handle_submit_sm_state hdr body w s) stay
dispatch_command-⟶ enquired hdr body w s = grind (arith, edges)
dispatch_command-⟶ delivered hdr body w s = stay
dispatch_command-⟶ other hdr body w s = stay

dispatch-⟶ :
    (hdr : Header) (body : List ℕ) (w : World) (s : Session)
    → s.state ⟶ (dispatch hdr body w s).state
unfolding dispatch
dispatch-⟶ hdr body w s = dispatch_command-⟶ (command_of hdr.command_id) hdr body w s

-- Whatever the event loop or D-Bus runs next, the state stays, or follows an edge of the diagram: an
-- open session becomes bound in one of three ways, and any session may become unbound.
pub step-⟶ : (i : Input) (w : World) (s : Session) → s.state ⟶ (step i w s).state
unfolding step on_header on_body read_body on_enquire_link_timer on_enquire_link_timeout
    deliver_sm_call
step-⟶ (header_read (some m) buf) w s = do_disconnect-⟶ _ s
step-⟶ (header_read none buf) w s = grind (
  arith,
  do_disconnect-⟶ (text "invalid PDU length") s,
  dispatch-⟶ (decode_header buf) [] w s,
  edges,
)
step-⟶ (body_read (some m) hdr body) w s = do_disconnect-⟶ _ s
step-⟶ (body_read none hdr body) w s = dispatch-⟶ hdr body w s
step-⟶ (timer_fired ec) w s = grind (arith, edges)
step-⟶ (timeout_fired ec) w s =
    grind (arith, edges, do_disconnect-⟶ (text "enquire_link timeout") s)
step-⟶ (disconnect_call reason) w s = do_disconnect-⟶ reason s
step-⟶ (deliver_call src dst msg) w s = grind (arith, edges)
