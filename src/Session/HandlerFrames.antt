-- ===== src/Session/HandlerFrames.antt =====
-- The handlers of bind, unbind, the keepalive and submit_sm, up to what Frames says of them.
use opensmsc.Pdu.Constants.{enquire_link, esme_ralybnd, esme_rok, unbind_resp}
use opensmsc.Pdu.Build.{bind_resp_id, make_response}
use opensmsc.Pdu.Submit.{SubmitSm, read_cstr}
use opensmsc.Session.Frames.{
  Frames, do_disconnect-Frames, emit-Frames, if-Frames, keep-Frames, put, then-Frames,
}
use opensmsc.Base.{
  Bool, List, Option, Text, [], arith, false, if◌then◌else◌, refl, true, ℕ, ◌&&◌, ◌==◌, ◌||◌, ◌∷◌,
  ◌≡◌, text,
}
use opensmsc.Session.State.{
  Effect, Session, World, authenticated, do_disconnect, emit, send_pdu, timeout_cancelled,
  update_session_details,
}
use opensmsc.Pdu.Wire.{Header}
use opensmsc.Session.Keepalive.{
  arm_enquire_link_timeout, handle_enquire_link_resp, is_unbound, next_el_seq,
  on_enquire_link_timeout, on_enquire_link_timer, schedule_enquire_link,
}
use opensmsc.Session.Bind.{finish_bind, handle_bind, handle_unbind, is_open, verdict}
use opensmsc.Session.Submit.{route, submit_status, take_token, throttle_check}

finish_bind-Frames :
    (hdr : Header) (sid : Text) (v : Bool × ℕ) (w : World) (s : Session)
    → Frames (finish_bind hdr sid v w) s
unfolding finish_bind update_session_details
finish_bind-Frames hdr sid (false, code) w s =
    then-Frames (do_disconnect (text "auth failed")) (emit _) s (emit-Frames _ s)
      (do_disconnect-Frames _ _)
finish_bind-Frames hdr sid (true, code) w s = (_ ∷ _ ∷ [], λ d l. refl)

asked-Frames :
    (hdr : Header) (sid pass : Text) (answer : Option (Bool × ℕ)) (w : World) (s : Session)
    → Frames
        (λ s. finish_bind hdr sid (verdict answer) w (emit (authenticated sid pass answer) s))
        s
asked-Frames hdr sid pass answer w s =
    then-Frames (finish_bind hdr sid (verdict answer) w) (emit (authenticated sid pass answer)) s
      (emit-Frames _ s) (finish_bind-Frames hdr sid (verdict answer) w _)

pub handle_bind-Frames :
    (hdr : Header) (body : List ℕ) (w : World) (s : Session) → Frames (handle_bind hdr body w) s
unfolding handle_bind
handle_bind-Frames hdr body w s =
    let (sid, off) = read_cstr body 0 in
    let (pass, off) = read_cstr body off in
    let answer = w.authenticate s.uuid sid pass s.client_ip in
    if-Frames (is_open s.state)
      (λ s. finish_bind hdr sid (verdict answer) w (emit (authenticated sid pass answer) s))
      (send_pdu (make_response (bind_resp_id hdr.command_id) esme_ralybnd hdr.sequence_number [])) s
      (asked-Frames hdr sid pass answer w s) (emit-Frames _ s)

pub handle_unbind-Frames : (hdr : Header) (s : Session) → Frames (handle_unbind hdr) s
unfolding handle_unbind
handle_unbind-Frames hdr s =
    then-Frames (do_disconnect (text "unbind"))
      (send_pdu (make_response unbind_resp esme_rok hdr.sequence_number [])) s (emit-Frames _ s)
      (do_disconnect-Frames _ _)

-- The timer's work behind its tests.
abbrev probe : ℕ → Session → Session
probe seq s = arm_enquire_link_timeout (
    send_pdu (make_response enquire_link esme_rok seq [])
      (record s { el_seq = seq; el_pending = true }))

pub on_enquire_link_timer-Frames : (ec : Bool) (s : Session) → Frames (on_enquire_link_timer ec) s
unfolding on_enquire_link_timer
on_enquire_link_timer-Frames ec s =
    let seq = next_el_seq s.el_seq in
    if-Frames (ec || s.el_pending) (λ s. s) (λ t. if is_unbound s.state then t else probe seq t) s
      (keep-Frames s)
      (if-Frames (is_unbound s.state) (λ s. s) (probe seq) s (keep-Frames s)
        (_ ∷ _ ∷ [], λ d l. refl))

abbrev answered_probe : Session → Session
answered_probe s = schedule_enquire_link (emit timeout_cancelled (record s { el_pending = false }))

pub handle_enquire_link_resp-Frames :
    (hdr : Header) (s : Session) → Frames (handle_enquire_link_resp hdr) s
unfolding handle_enquire_link_resp
handle_enquire_link_resp-Frames hdr s =
    if-Frames (hdr.sequence_number == s.el_seq && s.el_pending) answered_probe (λ s. s) s
      (_ ∷ _ ∷ [], λ d l. refl) (keep-Frames s)

pub on_enquire_link_timeout-Frames :
    (ec : Bool) (s : Session) → Frames (on_enquire_link_timeout ec) s
unfolding on_enquire_link_timeout
on_enquire_link_timeout-Frames true s = keep-Frames s
on_enquire_link_timeout-Frames false s =
    if-Frames s.el_pending (do_disconnect (text "enquire_link timeout")) (λ s. s) s
      (do_disconnect-Frames _ s) (keep-Frames s)

pub submit_status-put :
    (w : World) (s : Session) (d : ℕ) (l : List Effect)
    → submit_status w (put d l s) ≡ ((submit_status w s).0, put d l (submit_status w s).1)
unfolding submit_status throttle_check take_token
submit_status-put w s d l = ground arith

pub route-Frames : (sm : SubmitSm) (id : Text) (s : Session) → Frames (route sm id) s
route-Frames sm [] s = keep-Frames s
route-Frames sm (c ∷ id) s = emit-Frames _ s
