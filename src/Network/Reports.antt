-- ===== src/Network/Reports.antt =====
-- What a step of a session tells the server about its state.
use opensmsc.Pdu.Submit.{SubmitSm, parse_submit_sm}
use opensmsc.Session.Keepalive.{
  handle_enquire_link_resp, on_enquire_link_timeout, on_enquire_link_timer,
}
use opensmsc.Session.Submit.{
  deliver_sm_call, handle_submit_sm, next_message_id, submit_status, take_token, throttle_check,
}
use opensmsc.Pdu.Wire.{Header, decode_header}
use opensmsc.Session.Bind.{handle_bind}
use opensmsc.Base.{
  Bool, List, Text, [], arith, false, true, ℕ, ◌&&◌, ◌=t=◌, ◌∷◌, ◌≡◌, ◌⊎◌, =t=_refl, Bool-cases,
  Option, inl, inr, none, refl, some, text, ltb, ◌-◌, ◌==◌,
}
use opensmsc.Session.Dispatch.{
  Command, Input, step, body_read, submitting, delivered, binding, unbinding, enquiring, enquired,
  other, command_of, deliver_call, disconnect_call, dispatch, dispatch_command,
  handle_deliver_sm_resp, handle_enquire_link, header_read, on_body, on_header, read_body,
  timeout_fired, timer_fired,
}
use mathlib.Core.Bool.{false≢true}
use opensmsc.Session.State.{
  Session, SessionState, World, Effect, send_pdu, details_updated, message_routed, do_disconnect,
  state_name, unbound, authenticated, body_awaited, header_awaited, read_header, sent,
  session_exited, socket_closed, timeout_armed, timeout_cancelled, timer_armed,
  update_session_details,
}
use opensmsc.Session.Bind.{handle_bind, finish_bind, bound_state, is_open, handle_unbind}
use opensmsc.Pdu.Constants.{esme_rok}
use opensmsc.Session.Submit.{route}

-- No call of UpdateSessionDetails.
abbrev pub silent : List Effect → Bool
silent [] = true
silent (details_updated uuid system_id state ∷ l) = false
silent (_ ∷ l) = silent l

-- Every such call names this uuid and this state.
abbrev pub reports : Text → Text → List Effect → Bool
reports u st [] = true
reports u st (details_updated uuid system_id state ∷ l) =
    uuid =t= u && state =t= st && reports u st l
reports u st (_ ∷ l) = reports u st l

-- A session with this uuid and state has said nothing, and keeps its state or ends.
pub record Quiet (uuid : Text) (state : SessionState) (s' : Session) : Type 0 where
  pub same_uuid : s'.uuid ≡ uuid
  pub nothing : silent s'.log ≡ true
  pub kept : (s'.state ≡ state) ⊎ (s'.state ≡ unbound)

-- It was OPEN, and has told the server the state that it is in.
pub record Told (uuid : Text) (state : SessionState) (s' : Session) : Type 0 where
  pub was_open : is_open state ≡ true
  pub same_uuid : s'.uuid ≡ uuid
  pub something : silent s'.log ≡ false
  pub truly : reports uuid (state_name s'.state) s'.log ≡ true

pub data Outcome (uuid : Text) (state : SessionState) (s' : Session) : Type 0 where
  quiet : Quiet uuid state s' → Outcome uuid state s'
  tells : Told uuid state s' → Outcome uuid state s'

pub silent-reports : (u st : Text) (l : List Effect) → silent l ≡ true → reports u st l ≡ true
silent-reports u st [] v = refl
silent-reports u st (details_updated x i y ∷ l) v = absurd (false≢true v)
silent-reports u st (header_awaited ∷ l) v = silent-reports u st l v
silent-reports u st (body_awaited h ∷ l) v = silent-reports u st l v
silent-reports u st (sent p ∷ l) v = silent-reports u st l v
silent-reports u st (authenticated a b c ∷ l) v = silent-reports u st l v
silent-reports u st (message_routed a b c d ∷ l) v = silent-reports u st l v
silent-reports u st (socket_closed ∷ l) v = silent-reports u st l v
silent-reports u st (session_exited a b ∷ l) v = silent-reports u st l v
silent-reports u st (timer_armed ∷ l) v = silent-reports u st l v
silent-reports u st (timeout_armed ∷ l) v = silent-reports u st l v
silent-reports u st (timeout_cancelled ∷ l) v = silent-reports u st l v

send_pdu-Quiet :
    (pdu : List ℕ) (s : Session) → silent s.log ≡ true → Quiet s.uuid s.state (send_pdu pdu s)
send_pdu-Quiet pdu s v = record { same_uuid = refl; nothing = v; kept = inl refl }

do_disconnect-Quiet :
    (reason : Text) (s : Session)
    → silent s.log ≡ true
    → Quiet s.uuid s.state (do_disconnect reason s)
unfolding do_disconnect
do_disconnect-Quiet reason s v = ground arith

finish_bind-Outcome :
    (hdr : Header) (sid : Text) (v : Bool × ℕ) (w : World) (s : Session)
    → is_open s.state ≡ true
    → silent s.log ≡ true
    → Outcome s.uuid s.state (finish_bind hdr sid v w s)
unfolding finish_bind update_session_details
finish_bind-Outcome hdr sid (false, code) w s o q =
    quiet (do_disconnect-Quiet (text "auth failed") (send_pdu _ s) q)
finish_bind-Outcome hdr sid (true, code) w s o q =
    let st = bound_state hdr.command_id s.state in
    tells (record {
      was_open = o;
      same_uuid = refl;
      something = refl;
      truly =
          rw (=t=_refl s.uuid, =t=_refl (state_name st))
            (silent-reports s.uuid (state_name st) s.log q);
    })

handle_bind-Outcome :
    (hdr : Header) (body : List ℕ) (w : World) (s : Session)
    → silent s.log ≡ true
    → Outcome s.uuid s.state (handle_bind hdr body w s)
unfolding handle_bind
handle_bind-Outcome hdr body w s v = elim (Bool-cases (is_open s.state)) [
  | inl o ↦ rw o (finish_bind-Outcome hdr _ _ w _ o v)
  | inr c ↦ rw c (quiet (send_pdu-Quiet _ s v))
]

submit_status-Quiet :
    (w : World) (s : Session) → silent s.log ≡ true → Quiet s.uuid s.state (submit_status w s).1
unfolding submit_status throttle_check take_token
submit_status-Quiet w s v = ground arith

module _ {uuid : Text} {state : SessionState} where
  Quiet-sent : (pdu : List ℕ) (s : Session) → Quiet uuid state s → Quiet uuid state (send_pdu pdu s)
  Quiet-sent pdu s q = record { same_uuid = q.same_uuid; nothing = q.nothing; kept = q.kept }

  Quiet-next_message_id :
      (s : Session) → Quiet uuid state s → Quiet uuid state (next_message_id s).1
  unfolding next_message_id
  Quiet-next_message_id s q = record { same_uuid = q.same_uuid; nothing = q.nothing; kept = q.kept }

  Quiet-route :
      (sm : SubmitSm) (msg_id : Text) (s : Session)
      → Quiet uuid state s
      → Quiet uuid state (route sm msg_id s)
  Quiet-route sm [] s q = q
  Quiet-route sm (c ∷ id) s q = record {
    same_uuid = q.same_uuid;
    nothing = q.nothing;
    kept = q.kept;
  }

handle_submit_sm-Quiet :
    (hdr : Header) (body : List ℕ) (w : World) (s : Session)
    → silent s.log ≡ true
    → Quiet s.uuid s.state (handle_submit_sm hdr body w s)
unfolding handle_submit_sm
handle_submit_sm-Quiet hdr body w s v =
    let s1 = (submit_status w s).1 in
    let q = submit_status-Quiet w s v in
    elim (Bool-cases ((submit_status w s).0 == esme_rok)) [
      | inl e ↦ rw e (
          Quiet-route (parse_submit_sm body) (next_message_id s1).0 _
            (Quiet-sent _ _ (Quiet-next_message_id s1 q)))
      | inr e ↦ rw e (Quiet-sent _ s1 q)
    ]

dispatch_command-Outcome :
    (c : Command) (hdr : Header) (body : List ℕ) (w : World) (s : Session)
    → silent s.log ≡ true
    → Outcome s.uuid s.state (dispatch_command c hdr body w s)
unfolding dispatch_command handle_unbind handle_enquire_link handle_deliver_sm_resp
    handle_enquire_link_resp
dispatch_command-Outcome binding hdr body w s v = handle_bind-Outcome hdr body w s v
dispatch_command-Outcome unbinding hdr body w s v =
    quiet (do_disconnect-Quiet (text "unbind") (send_pdu _ s) v)
dispatch_command-Outcome enquiring hdr body w s v = quiet (send_pdu-Quiet _ s v)
dispatch_command-Outcome submitting hdr body w s v = quiet (handle_submit_sm-Quiet hdr body w s v)
dispatch_command-Outcome enquired hdr body w s v = quiet (ground arith)
dispatch_command-Outcome delivered hdr body w s v =
    quiet (record { same_uuid = refl; nothing = v; kept = inl refl })
dispatch_command-Outcome other hdr body w s v = quiet (send_pdu-Quiet _ s v)

read_header-Outcome :
    (uuid : Text) (state : SessionState) (s : Session)
    → Outcome uuid state s
    → Outcome uuid state (read_header s)
read_header-Outcome uuid state s (quiet q) =
    quiet (record { same_uuid = q.same_uuid; nothing = q.nothing; kept = q.kept })
read_header-Outcome uuid state s (tells t) = tells (record {
  was_open = t.was_open;
  same_uuid = t.same_uuid;
  something = t.something;
  truly = t.truly;
})

read_body-Outcome :
    (hdr : Header) (w : World) (s : Session)
    → silent s.log ≡ true
    → Outcome s.uuid s.state (read_body hdr w s)
unfolding read_body dispatch
read_body-Outcome hdr w s v = elim (Bool-cases (hdr.command_length - 16 == 0)) [
  | inl e ↦ rw e (
      read_header-Outcome _ _ _ (dispatch_command-Outcome (command_of hdr.command_id) hdr [] w s v))
  | inr e ↦ rw e (quiet (record { same_uuid = refl; nothing = v; kept = inl refl }))
]

on_header-Outcome :
    (ec : Option Text) (buf : List ℕ) (w : World) (s : Session)
    → silent s.log ≡ true
    → Outcome s.uuid s.state (on_header ec buf w s)
unfolding on_header
on_header-Outcome (some m) buf w s v = quiet (do_disconnect-Quiet _ s v)
on_header-Outcome none buf w s v =
    let hdr = decode_header buf in
    elim (Bool-cases (ltb hdr.command_length 16)) [
      | inl e ↦ rw e (quiet (do_disconnect-Quiet _ s v))
      | inr e ↦ rw e (read_body-Outcome hdr w s v)
    ]

-- What a session that has said nothing yet does on an input.
pub step-Outcome :
    (i : Input) (w : World) (s : Session)
    → silent s.log ≡ true
    → Outcome s.uuid s.state (step i w s)
unfolding step on_body dispatch on_enquire_link_timer on_enquire_link_timeout deliver_sm_call
step-Outcome (header_read ec buf) w s v = on_header-Outcome ec buf w s v
step-Outcome (body_read (some m) hdr body) w s v = quiet (do_disconnect-Quiet _ s v)
step-Outcome (body_read none hdr body) w s v =
    read_header-Outcome _ _ _ (dispatch_command-Outcome (command_of hdr.command_id) hdr body w s v)
step-Outcome (timer_fired ec) w s v = quiet (ground arith)
step-Outcome (timeout_fired ec) w s v =
    quiet (ground (arith, do_disconnect-Quiet (text "enquire_link timeout") s v))
step-Outcome (disconnect_call reason) w s v = quiet (do_disconnect-Quiet reason s v)
step-Outcome (deliver_call src dst msg) w s v = quiet (ground arith)
