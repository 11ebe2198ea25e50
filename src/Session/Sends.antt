-- ===== src/Session/Sends.antt =====
-- The PDUs that a session sends, over its log.
use opensmsc.Pdu.Build.{make_deliver_sm}
use opensmsc.Session.LoopFrames.{step-Frames, of_loop}
use opensmsc.Session.Line.{sent_between}
use opensmsc.Session.State.{
  Effect, Session, World, authenticated, body_awaited, details_updated, header_awaited,
  message_routed, sent, session_exited, socket_closed, timeout_armed, timeout_cancelled,
  timer_armed,
}
use opensmsc.Session.Answers.{sents}
use opensmsc.Base.{
  Bool-cases, List, Text, [], ap, arith, inl, inr, length, length-append, refl, take,
  take-append_length, ℕ, ◌++◌, ◌-◌, ◌∙◌, ◌∷◌, ◌≡◌, true,
}
use opensmsc.Session.Dispatch.{
  Input, body_read, deliver_call, disconnect_call, header_read, step, timeout_fired, timer_fired,
}
use opensmsc.Session.Submit.{can_receive, deliver_sm_call}

sents-append : (xs ys : List Effect) → sents (xs ++ ys) ≡ sents xs ++ sents ys
sents-append [] ys = refl
sents-append (sent pdu ∷ xs) ys = ap (λ l. pdu ∷ l) (sents-append xs ys)
sents-append (header_awaited ∷ xs) ys = sents-append xs ys
sents-append (body_awaited hdr ∷ xs) ys = sents-append xs ys
sents-append (authenticated sid pass a ∷ xs) ys = sents-append xs ys
sents-append (details_updated a b c ∷ xs) ys = sents-append xs ys
sents-append (message_routed a b c d ∷ xs) ys = sents-append xs ys
sents-append (socket_closed ∷ xs) ys = sents-append xs ys
sents-append (session_exited a b ∷ xs) ys = sents-append xs ys
sents-append (timer_armed ∷ xs) ys = sents-append xs ys
sents-append (timeout_armed ∷ xs) ys = sents-append xs ys
sents-append (timeout_cancelled ∷ xs) ys = sents-append xs ys

loop_log :
    (i : Input) (w : World) (s : Session)
    → of_loop i ≡ true
    → (pushed : List Effect) × ((step i w s).log ≡ pushed ++ s.log)
loop_log i w s h =
    let (pushed, by) = step-Frames i w s h in
    (pushed, ap (λ (t : Session). t.log) (by s.deliver_seq s.log))

deliver_sm_call_log :
    (src dst message : Text) (s : Session)
    → (pushed : List Effect) × ((deliver_sm_call src dst message s).1.log ≡ pushed ++ s.log)
unfolding deliver_sm_call
deliver_sm_call_log src dst message s = elim (Bool-cases (can_receive s.state)) [
  | inl e ↦ (
    sent (make_deliver_sm s.deliver_seq src dst message 0 0 0 0) ∷ [],
    rw (deliver_sm_call, e) refl,
  )
  | inr e ↦ ([], rw (deliver_sm_call, e) refl)
]

-- An input only adds to the log.
step-log :
    (i : Input) (w : World) (s : Session)
    → (pushed : List Effect) × ((step i w s).log ≡ pushed ++ s.log)
unfolding step
step-log (header_read ec buf) w s = loop_log (header_read ec buf) w s refl
step-log (body_read ec hdr body) w s = loop_log (body_read ec hdr body) w s refl
step-log (timer_fired ec) w s = loop_log (timer_fired ec) w s refl
step-log (timeout_fired ec) w s = loop_log (timeout_fired ec) w s refl
step-log (disconnect_call reason) w s = loop_log (disconnect_call reason) w s refl
step-log (deliver_call src dst message) w s = deliver_sm_call_log src dst message s

front : (xs ys : List (List ℕ)) → take (length (xs ++ ys) - length ys) (xs ++ ys) ≡ xs
front xs ys =
    let n : length (xs ++ ys) - length ys ≡ length xs = omega (arith, length-append xs ys) in
    rw n (take-append_length xs ys)

pub sent_between-step :
    (i : Input) (w : World) (s : Session)
    → sent_between s (step i w s) ++ sents s.log ≡ sents (step i w s).log
sent_between-step i w s =
    let (pushed, e) = step-log i w s in
    let grown : sents (step i w s).log ≡ sents pushed ++ sents s.log =
      ap sents e ∙ sents-append pushed s.log in
    rw grown (ap (λ l. l ++ sents s.log) (front (sents pushed) (sents s.log)))
