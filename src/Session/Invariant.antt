-- ===== src/Session/Invariant.antt =====
-- The invariant of an `SmppSession`, method by method.
use opensmsc.Pdu.Constants.{esme_rok}
use opensmsc.Session.Keepalive.{
  handle_enquire_link_resp, on_enquire_link_timeout, on_enquire_link_timer,
}
use opensmsc.Pdu.RoundTrip.{pdu}
use opensmsc.Pdu.Submit.{SubmitSm, parse_submit_sm, read_cstr}
use opensmsc.Session.Dispatch.{
  Command, Input, binding, body_read, command_of, deliver_call, delivered, disconnect_call,
  dispatch, dispatch_command, enquired, enquiring, handle_deliver_sm_resp, handle_enquire_link,
  header_read, on_body, on_header, other, read_body, run, step, submitting, timeout_fired,
  timer_fired, unbinding,
}
use opensmsc.Session.Submit.{
  take_token, deliver_sm_call, handle_submit_sm, next_message_id, route, submit_status,
  throttle_check,
}
use opensmsc.Pdu.Wire.{Header, IsU32, decode_header}
use opensmsc.Session.Bind.{handle_bind, bound_state, finish_bind, handle_unbind}
use opensmsc.Session.State.{
  Effect, Session, SessionState, World, authenticated, bound_rx, bound_trx, bound_tx, create,
  do_disconnect, session_exited, socket_closed, token, unbound, read_header, send_pdu,
  update_session_details,
}
use opensmsc.Base.{
  ℕ, Bool, List, Text, [], arith, false, some, suc, true, ◌*◌, ◌=t=◌, ◌||◌, ◌∷◌, ◌≡◌, ◌≤◌, =t=_refl,
  Bool-cases, Option, inl, inr, none, text, ◌==◌,
}

-- How often the session has announced its end, and closed its socket.
abbrev pub exits : List Effect → ℕ
exits [] = 0
exits (session_exited u r ∷ l) = suc (exits l)
exits (_ ∷ l) = exits l

abbrev pub closes : List Effect → ℕ
closes [] = 0
closes (socket_closed ∷ l) = suc (closes l)
closes (_ ∷ l) = closes l

-- The authenticator was asked about `sid` and said yes.
abbrev pub admitted : Text → List Effect → Bool
admitted sid [] = false
admitted sid (authenticated u p (some (true, code)) ∷ l) = u =t= sid || admitted sid l
admitted sid (_ ∷ l) = admitted sid l

abbrev pub is_bound : SessionState → Bool
is_bound bound_tx = true
is_bound bound_rx = true
is_bound bound_trx = true
is_bound _ = false

abbrev pub ended : SessionState → ℕ
ended unbound = 1
ended _ = 0

pub record Inv (s : Session) : Type 0 where
  pub one_exit : exits s.log ≡ ended s.state
  pub one_close : closes s.log ≡ ended s.state
  pub let_in : is_bound s.state ≡ true → admitted s.system_id s.log ≡ true
  pub tokens_capped : s.tb_tokens ≤ s.max_submit_per_sec * token
  pub msg_seq_u32 : IsU32 s.msg_seq
  pub deliver_seq_u32 : IsU32 s.deliver_seq
  pub el_seq_u32 : IsU32 s.el_seq

create-Inv :
    (uuid client_ip : Text) (interval timeout rate : ℕ) (w : World)
    → Inv (create uuid client_ip interval timeout rate w)
unfolding create
create-Inv uuid client_ip interval timeout rate w = ground arith

do_disconnect-Inv : (reason : Text) (s : Session) → Inv s → Inv (do_disconnect reason s)
unfolding do_disconnect
do_disconnect-Inv reason s v = ground arith

handle_bind-Inv :
    (hdr : Header) (body : List ℕ) (w : World) (s : Session)
    → Inv s
    → Inv (handle_bind hdr body w s)
unfolding handle_bind finish_bind bound_state do_disconnect update_session_details
handle_bind-Inv hdr body w s v = ground (arith, =t=_refl (read_cstr body 0).0)

take_token-Inv : (w : World) (s : Session) → Inv s → Inv (take_token w s).1
unfolding take_token
take_token-Inv w s v = ground arith

submit_status-Inv : (w : World) (s : Session) → Inv s → Inv (submit_status w s).1
unfolding submit_status throttle_check
submit_status-Inv w s v = ground (arith, take_token-Inv w s v)

route-Inv : (sm : SubmitSm) (msg_id : Text) (s : Session) → Inv s → Inv (route sm msg_id s)
route-Inv sm [] s v = v
route-Inv sm (c ∷ msg_id) s v = ground arith

next_message_id-Inv : (s : Session) → Inv s → Inv (next_message_id s).1
unfolding next_message_id
next_message_id-Inv s v = ground arith

send_pdu-Inv : (pdu : List ℕ) (s : Session) → Inv s → Inv (send_pdu pdu s)
send_pdu-Inv pdu s v = ground arith

read_header-Inv : (s : Session) → Inv s → Inv (read_header s)
read_header-Inv s v = ground arith

handle_submit_sm-Inv :
    (hdr : Header) (body : List ℕ) (w : World) (s : Session)
    → Inv s
    → Inv (handle_submit_sm hdr body w s)
unfolding handle_submit_sm
handle_submit_sm-Inv hdr body w s v =
    let s1 = (submit_status w s).1 in
    let v1 = submit_status-Inv w s v in
    elim (Bool-cases ((submit_status w s).0 == esme_rok)) [
      | inl e ↦ rw e (
          route-Inv (parse_submit_sm body) (next_message_id s1).0 _
            (send_pdu-Inv _ _ (next_message_id-Inv s1 v1)))
      | inr e ↦ rw e (send_pdu-Inv _ s1 v1)
    ]

handle_enquire_link_resp-Inv :
    (hdr : Header) (s : Session) → Inv s → Inv (handle_enquire_link_resp hdr s)
unfolding handle_enquire_link_resp
handle_enquire_link_resp-Inv hdr s v = ground arith

on_enquire_link_timer-Inv : (ec : Bool) (s : Session) → Inv s → Inv (on_enquire_link_timer ec s)
unfolding on_enquire_link_timer
on_enquire_link_timer-Inv ec s v = ground arith

on_enquire_link_timeout-Inv : (ec : Bool) (s : Session) → Inv s → Inv (on_enquire_link_timeout ec s)
unfolding on_enquire_link_timeout
on_enquire_link_timeout-Inv ec s v =
    ground (arith, do_disconnect-Inv (text "enquire_link timeout") s v)

deliver_sm_call-Inv :
    (src dst msg : Text) (s : Session) → Inv s → Inv (deliver_sm_call src dst msg s).1
unfolding deliver_sm_call
deliver_sm_call-Inv src dst msg s v = ground arith

dispatch_command-Inv :
    (c : Command) (hdr : Header) (body : List ℕ) (w : World) (s : Session)
    → Inv s
    → Inv (dispatch_command c hdr body w s)
unfolding dispatch_command handle_unbind handle_enquire_link handle_deliver_sm_resp
dispatch_command-Inv binding hdr body w s v = handle_bind-Inv hdr body w s v
dispatch_command-Inv unbinding hdr body w s v = do_disconnect-Inv _ _ (send_pdu-Inv _ s v)
dispatch_command-Inv enquiring hdr body w s v = send_pdu-Inv _ s v
dispatch_command-Inv submitting hdr body w s v = handle_submit_sm-Inv hdr body w s v
dispatch_command-Inv enquired hdr body w s v = handle_enquire_link_resp-Inv hdr s v
dispatch_command-Inv delivered hdr body w s v = v
dispatch_command-Inv other hdr body w s v = send_pdu-Inv _ s v

dispatch-Inv :
    (hdr : Header) (body : List ℕ) (w : World) (s : Session) → Inv s → Inv (dispatch hdr body w s)
unfolding dispatch
dispatch-Inv hdr body w s v = dispatch_command-Inv (command_of hdr.command_id) hdr body w s v

on_header-Inv :
    (ec : Option Text) (buf : List ℕ) (w : World) (s : Session) → Inv s → Inv (on_header ec buf w s)
unfolding on_header read_body
on_header-Inv (some m) buf w s v = do_disconnect-Inv _ s v
on_header-Inv none buf w s v = ground (
  arith,
  do_disconnect-Inv (text "invalid PDU length") s v,
  dispatch-Inv (decode_header buf) [] w s v,
)

-- Every input, in every world, keeps the invariant of a session.
pub step-Inv : (i : Input) (w : World) (s : Session) → Inv s → Inv (step i w s)
unfolding step on_body
step-Inv (header_read ec buf) w s v = on_header-Inv ec buf w s v
step-Inv (body_read (some m) hdr body) w s v = do_disconnect-Inv _ s v
step-Inv (body_read none hdr body) w s v = read_header-Inv _ (dispatch-Inv hdr body w s v)
step-Inv (timer_fired ec) w s v = on_enquire_link_timer-Inv ec s v
step-Inv (timeout_fired ec) w s v = on_enquire_link_timeout-Inv ec s v
step-Inv (disconnect_call reason) w s v = do_disconnect-Inv reason s v
step-Inv (deliver_call src dst msg) w s v = deliver_sm_call-Inv src dst msg s v

run-Inv : (s : Session) (is : List (Input × World)) → Inv s → Inv (run s is)
unfolding run
run-Inv s [] v = v
run-Inv s ((i, w) ∷ is) v = run-Inv (step i w s) is (step-Inv i w s v)

-- A session from its constructor on, after any inputs in any worlds: it has announced its end and
-- closed its socket once if it is unbound and never otherwise, it is bound only under a system_id
-- that the authenticator accepted, its token bucket is not overfull, and its counters are 32-bit.
pub run-create-Inv :
    (uuid client_ip : Text) (interval timeout rate : ℕ) (w : World) (is : List (Input × World))
    → Inv (run (create uuid client_ip interval timeout rate w) is)
run-create-Inv uuid client_ip interval timeout rate w is =
    run-Inv _ is (create-Inv uuid client_ip interval timeout rate w)
