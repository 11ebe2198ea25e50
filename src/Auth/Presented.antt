-- ===== src/Auth/Presented.antt =====
-- The logins that a session has let in, along its log.
use opensmsc.Session.Submit.{deliver_sm_call}
use opensmsc.Base.{
  =t=_refl, Bool-cases, List, Text, [], ap, arith, false, inl, inr, none, refl, some, sym, true,
  ◌&&◌, ◌++◌, ◌=t=◌, ◌||◌, ◌∙◌, ◌∷◌, ◌≡◌,
}
use opensmsc.Session.State.{
  Effect, Session, World, authenticated, body_awaited, details_updated, header_awaited,
  message_routed, sent, session_exited, socket_closed, timeout_armed, timeout_cancelled,
  timer_armed,
}
use opensmsc.Session.LoopFrames.{of_loop, step-Frames}
use opensmsc.Auth.Sound.{presented}
use opensmsc.Session.Dispatch.{
  Input, step, body_read, deliver_call, disconnect_call, header_read, timeout_fired, timer_fired,
}
use mathlib.Core.Bool.{false≢true}
use mathlib.Core.List.{append-nil}
use opensmsc.Session.Invariant.{admitted}

-- The session with an empty log.
abbrev pub unlogged : Session → Session
unlogged s = record s { log = [] }

step-unlogged-loop :
    (i : Input) (w : World) (s : Session)
    → of_loop i ≡ true
    → (step i w s).log ≡ (step i w (unlogged s)).log ++ s.log
step-unlogged-loop i w s h =
    let (pushed, by) = step-Frames i w s h in
    let whole : (step i w s).log ≡ pushed ++ s.log =
      ap (λ (t : Session). t.log) (by s.deliver_seq s.log) in
    let alone : (step i w (unlogged s)).log ≡ pushed ++ [] =
      ap (λ (t : Session). t.log) (by s.deliver_seq []) in
    whole ∙ sym (ap (λ l. l ++ s.log) (alone ∙ append-nil pushed))

-- What a step pushes on the log does not depend on what stands there.
pub step-unlogged :
    (i : Input) (w : World) (s : Session) → (step i w s).log ≡ (step i w (unlogged s)).log ++ s.log
unfolding step deliver_sm_call
step-unlogged (deliver_call src dst message) w s = ground arith
step-unlogged (header_read ec buf) w s = step-unlogged-loop (header_read ec buf) w s refl
step-unlogged (body_read ec hdr body) w s = step-unlogged-loop (body_read ec hdr body) w s refl
step-unlogged (timer_fired ec) w s = step-unlogged-loop (timer_fired ec) w s refl
step-unlogged (timeout_fired ec) w s = step-unlogged-loop (timeout_fired ec) w s refl
step-unlogged (disconnect_call reason) w s = step-unlogged-loop (disconnect_call reason) w s refl

pub presented-append :
    (sid pass : Text) (l m : List Effect)
    → presented sid pass (l ++ m) ≡ (presented sid pass l || presented sid pass m)
presented-append sid pass [] m = refl
presented-append sid pass (authenticated u p (some (true, code)) ∷ l) m =
    rw (presented-append sid pass l m)
      (elim (Bool-cases (u =t= sid && p =t= pass)) [ inl e ↦ rw e refl | inr e ↦ rw e refl ])
presented-append sid pass (authenticated u p (some (false, code)) ∷ l) m =
    presented-append sid pass l m
presented-append sid pass (authenticated u p none ∷ l) m = presented-append sid pass l m
presented-append sid pass (header_awaited ∷ l) m = presented-append sid pass l m
presented-append sid pass (body_awaited hdr ∷ l) m = presented-append sid pass l m
presented-append sid pass (sent pdu ∷ l) m = presented-append sid pass l m
presented-append sid pass (details_updated u i st ∷ l) m = presented-append sid pass l m
presented-append sid pass (message_routed a1 a2 b i ∷ l) m = presented-append sid pass l m
presented-append sid pass (socket_closed ∷ l) m = presented-append sid pass l m
presented-append sid pass (session_exited u r ∷ l) m = presented-append sid pass l m
presented-append sid pass (timer_armed ∷ l) m = presented-append sid pass l m
presented-append sid pass (timeout_armed ∷ l) m = presented-append sid pass l m
presented-append sid pass (timeout_cancelled ∷ l) m = presented-append sid pass l m

-- Who is let in has presented a password.
pub admitted-presented :
    (sid : Text) (l : List Effect)
    → admitted sid l ≡ true
    → (pass : Text) × (presented sid pass l ≡ true)
admitted-presented sid [] a = absurd (false≢true a)
admitted-presented sid (authenticated u p (some (true, code)) ∷ l) a =
    elim (Bool-cases (u =t= sid)) [
      | inl same ↦ (p, rw (same, =t=_refl p) refl)
      | inr differ ↦
          let (pass, gave) = admitted-presented sid l (rw differ at a) in (pass, rw differ gave)
    ]
admitted-presented sid (authenticated u p (some (false, code)) ∷ l) a = admitted-presented sid l a
admitted-presented sid (authenticated u p none ∷ l) a = admitted-presented sid l a
admitted-presented sid (header_awaited ∷ l) a = admitted-presented sid l a
admitted-presented sid (body_awaited hdr ∷ l) a = admitted-presented sid l a
admitted-presented sid (sent pdu ∷ l) a = admitted-presented sid l a
admitted-presented sid (details_updated u i st ∷ l) a = admitted-presented sid l a
admitted-presented sid (message_routed a1 a2 m i ∷ l) a = admitted-presented sid l a
admitted-presented sid (socket_closed ∷ l) a = admitted-presented sid l a
admitted-presented sid (session_exited u r ∷ l) a = admitted-presented sid l a
admitted-presented sid (timer_armed ∷ l) a = admitted-presented sid l a
admitted-presented sid (timeout_armed ∷ l) a = admitted-presented sid l a
admitted-presented sid (timeout_cancelled ∷ l) a = admitted-presented sid l a
