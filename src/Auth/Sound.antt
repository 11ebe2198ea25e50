-- ===== src/Auth/Sound.antt =====
-- Whom a step of an `SmppSession` lets in, by what the authenticator answers.
use opensmsc.Session.Effects.{submit_status_log}
use opensmsc.Pdu.Wire.{Header, decode_header}
use opensmsc.Pdu.Build.{make_response}
use opensmsc.Session.Keepalive.{
  handle_enquire_link_resp, on_enquire_link_timeout, on_enquire_link_timer,
}
use opensmsc.Pdu.Submit.{SubmitSm, parse_submit_sm, read_cstr}
use opensmsc.Pdu.Constants.{esme_rok, submit_sm_resp}
use opensmsc.Session.Bind.{finish_bind, handle_bind, handle_unbind, is_open}
use opensmsc.Base.{
  =t=_true, Bool, Bool-cases, List, Option, Text, [], arith, false, inl, inr, none, refl, some,
  true, ℕ, ◌&&◌, ◌==◌, ◌=t=◌, ◌∷◌, ◌≡◌, text, ◌||◌,
}
use opensmsc.Session.State.{
  Effect, Session, World, authenticated, body_awaited, details_updated, do_disconnect,
  header_awaited, message_routed, send_pdu, sent, session_exited, socket_closed, timeout_armed,
  timeout_cancelled, timer_armed, update_session_details,
}
use opensmsc.Session.Submit.{
  deliver_sm_call, handle_submit_sm, next_message_id, route, submit_status,
}
use opensmsc.Session.Dispatch.{
  delivered, Command, Input, binding, body_read, command_of, deliver_call, disconnect_call,
  dispatch, dispatch_command, enquired, enquiring, handle_deliver_sm_resp, handle_enquire_link,
  header_read, on_body, on_header, other, read_body, step, submitting, timeout_fired, timer_fired,
  unbinding,
}
use mathlib.Core.Bool.{false≢true}

-- The session has presented this password for this system_id, and has been let in.
abbrev pub presented : Text → Text → List Effect → Bool
presented sid pass [] = false
presented sid pass (authenticated u p (some (true, code)) ∷ l) =
    (u =t= sid && p =t= pass) || presented sid pass l
presented sid pass (_ ∷ l) = presented sid pass l

module _ (allowed : Text → Text → Bool) where
  -- Every login that the authenticator let in is allowed.
  abbrev pub sound : List Effect → Bool
  sound [] = true
  sound (authenticated u p (some (true, code)) ∷ l) = allowed u p && sound l
  sound (_ ∷ l) = sound l

  -- What the authenticator answers in a world lets nobody else in.
  abbrev pub Honest : World → Type 0
  Honest w =
      (uuid sid pass ip : Text) (code : ℕ)
      → w.authenticate uuid sid pass ip ≡ some (true, code)
      → allowed sid pass ≡ true

  authenticated_sound :
      (sid pass : Text) (answer : Option (Bool × ℕ)) (l : List Effect)
      → ((code : ℕ) → answer ≡ some (true, code) → allowed sid pass ≡ true)
      → sound l ≡ true
      → sound (authenticated sid pass answer ∷ l) ≡ true
  authenticated_sound sid pass none l h v = v
  authenticated_sound sid pass (some (false, code)) l h v = v
  authenticated_sound sid pass (some (true, code)) l h v = rw (h code refl) v

  do_disconnect-sound :
      (reason : Text) (s : Session) → sound s.log ≡ true → sound (do_disconnect reason s).log ≡ true
  unfolding do_disconnect
  do_disconnect-sound reason s v = ground arith

  finish_bind-sound :
      (hdr : Header) (sid : Text) (v : Bool × ℕ) (w : World) (s : Session)
      → sound s.log ≡ true
      → sound (finish_bind hdr sid v w s).log ≡ true
  unfolding finish_bind update_session_details
  finish_bind-sound hdr sid (false, code) w s v =
      do_disconnect-sound (text "auth failed") (send_pdu _ s) v
  finish_bind-sound hdr sid (true, code) w s v = v

  handle_bind-sound :
      (hdr : Header) (body : List ℕ) (w : World) (s : Session)
      → Honest w
      → sound s.log ≡ true
      → sound (handle_bind hdr body w s).log ≡ true
  unfolding handle_bind
  handle_bind-sound hdr body w s h v = elim (Bool-cases (is_open s.state)) [
    | inl o ↦
        let sid = (read_cstr body 0).0 in
        let pass = (read_cstr body (read_cstr body 0).1).0 in
        rw o (
          finish_bind-sound hdr sid _ w _
            (authenticated_sound sid pass _ s.log (h s.uuid sid pass s.client_ip) v))
    | inr c ↦ rw c v
  ]

  route-sound :
      (sm : SubmitSm) (msg_id : Text) (s : Session)
      → sound s.log ≡ true
      → sound (route sm msg_id s).log ≡ true
  route-sound sm [] s v = v
  route-sound sm (c ∷ msg_id) s v = v

  handle_submit_sm-sound :
      (hdr : Header) (body : List ℕ) (w : World) (s : Session)
      → sound s.log ≡ true
      → sound (handle_submit_sm hdr body w s).log ≡ true
  unfolding handle_submit_sm next_message_id
  handle_submit_sm-sound hdr body w s v =
      let s1 = (submit_status w s).1 in
      let kept : sound s1.log ≡ true = rw (submit_status_log w s) v in
      let (msg_id, s2) = next_message_id s1 in
      elim (Bool-cases ((submit_status w s).0 == esme_rok)) [
        | inl e ↦ rw e (
            route-sound (parse_submit_sm body) msg_id
              (send_pdu
                (make_response submit_sm_resp (submit_status w s).0 hdr.sequence_number msg_id) s2)
              kept)
        | inr e ↦ rw e kept
      ]

  dispatch_command-sound :
      (c : Command) (hdr : Header) (body : List ℕ) (w : World) (s : Session)
      → Honest w
      → sound s.log ≡ true
      → sound (dispatch_command c hdr body w s).log ≡ true
  unfolding dispatch_command handle_unbind handle_enquire_link handle_deliver_sm_resp
      handle_enquire_link_resp
  dispatch_command-sound binding hdr body w s h v = handle_bind-sound hdr body w s h v
  dispatch_command-sound unbinding hdr body w s h v =
      do_disconnect-sound (text "unbind") (send_pdu _ s) v
  dispatch_command-sound enquiring hdr body w s h v = v
  dispatch_command-sound submitting hdr body w s h v = handle_submit_sm-sound hdr body w s v
  dispatch_command-sound enquired hdr body w s h v = ground arith
  dispatch_command-sound delivered hdr body w s h v = v
  dispatch_command-sound other hdr body w s h v = v

  on_header-sound :
      (ec : Option Text) (buf : List ℕ) (w : World) (s : Session)
      → Honest w
      → sound s.log ≡ true
      → sound (on_header ec buf w s).log ≡ true
  unfolding on_header read_body dispatch
  on_header-sound (some m) buf w s h v = do_disconnect-sound _ s v
  on_header-sound none buf w s h v =
      let hdr = decode_header buf in
      ground (
        arith,
        do_disconnect-sound (text "invalid PDU length") s v,
        dispatch_command-sound (command_of hdr.command_id) hdr [] w s h v,
      )

  pub step-sound :
      (i : Input) (w : World) (s : Session)
      → Honest w
      → sound s.log ≡ true
      → sound (step i w s).log ≡ true
  unfolding step on_body dispatch on_enquire_link_timer on_enquire_link_timeout deliver_sm_call
  step-sound (header_read ec buf) w s h v = on_header-sound ec buf w s h v
  step-sound (body_read (some m) hdr body) w s h v = do_disconnect-sound _ s v
  step-sound (body_read none hdr body) w s h v =
      dispatch_command-sound (command_of hdr.command_id) hdr body w s h v
  step-sound (timer_fired ec) w s h v = ground arith
  step-sound (timeout_fired ec) w s h v =
      ground (arith, do_disconnect-sound (text "enquire_link timeout") s v)
  step-sound (disconnect_call reason) w s h v = do_disconnect-sound reason s v
  step-sound (deliver_call src dst msg) w s h v = ground arith

  pub sound-presented :
      (sid pass : Text) (l : List Effect)
      → sound l ≡ true
      → presented sid pass l ≡ true
      → allowed sid pass ≡ true
  sound-presented sid pass [] v a = absurd (false≢true a)
  sound-presented sid pass (authenticated u p (some (true, code)) ∷ l) v a =
      let here : allowed u p ≡ true = ground arith in
      let rest : sound l ≡ true = ground arith in
      elim (Bool-cases (u =t= sid && p =t= pass)) [
        | inl same ↦
            let sids : u ≡ sid = =t=_true u sid (ground arith) in
            let passes : p ≡ pass = =t=_true p pass (ground arith) in rw (← sids, ← passes) here
        | inr differ ↦ sound-presented sid pass l rest (rw differ at a)
      ]
  sound-presented sid pass (authenticated u p (some (false, code)) ∷ l) v a =
      sound-presented sid pass l v a
  sound-presented sid pass (authenticated u p none ∷ l) v a = sound-presented sid pass l v a
  sound-presented sid pass (header_awaited ∷ l) v a = sound-presented sid pass l v a
  sound-presented sid pass (body_awaited hdr ∷ l) v a = sound-presented sid pass l v a
  sound-presented sid pass (sent pdu ∷ l) v a = sound-presented sid pass l v a
  sound-presented sid pass (details_updated u i st ∷ l) v a = sound-presented sid pass l v a
  sound-presented sid pass (message_routed a1 a2 m i ∷ l) v a = sound-presented sid pass l v a
  sound-presented sid pass (socket_closed ∷ l) v a = sound-presented sid pass l v a
  sound-presented sid pass (session_exited u r ∷ l) v a = sound-presented sid pass l v a
  sound-presented sid pass (timer_armed ∷ l) v a = sound-presented sid pass l v a
  sound-presented sid pass (timeout_armed ∷ l) v a = sound-presented sid pass l v a
  sound-presented sid pass (timeout_cancelled ∷ l) v a = sound-presented sid pass l v a
