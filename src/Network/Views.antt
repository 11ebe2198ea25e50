-- ===== src/Network/Views.antt =====
-- What the calls of a handler change in the server's list, and that they leave the handlers' states alone.
use opensmsc.Network.Reports.{reports, silent}
use opensmsc.Session.Submit.{deliver_sm_call}
use opensmsc.Network.State.{Network, deliver_at, deliver_into, route, serve, serve_all}
use opensmsc.Base.Dict.{Dict, find, find-insert}
use opensmsc.Base.{
  =t=_true, Bool, Bool-cases, List, Option, Text, [], arith, false, inl, inr, none, refl, some,
  true, ◌=t=◌, ◌∙◌, ◌∷◌, ◌≡◌, if◌then◌else◌, ap,
}
use opensmsc.Session.State.{
  Session, SessionState, Effect, details_updated, message_routed, header_awaited, body_awaited,
  sent, authenticated, socket_closed, session_exited, timer_armed, timeout_armed, timeout_cancelled,
}
use opensmsc.Service.State.{
  update_session_details, SessionInfo, first_receiver, route_message, target_of, Service,
}
use opensmsc.Service.Sessions.{deliver_to_sessions, update_session_details_one}
use mathlib.Core.Option

-- The uuid and state of a session, where there is one.
abbrev pub view : Option Session → Option (Text × SessionState)
view none = none
view (some s) = some (s.uuid, s.state)

deliver_sm_call-view :
    (src dst msg : Text) (t : Session)
    → view (some (deliver_sm_call src dst msg t).1) ≡ view (some t)
unfolding deliver_sm_call
deliver_sm_call-view src dst msg t = ground arith

deliver_into-view :
    (k uuid : Text) (o : Option Session) (src dst msg : Text) (m : Dict Session)
    → find uuid m ≡ o
    → view (find k (deliver_into uuid o src dst msg m)) ≡ view (find k m)
deliver_into-view k uuid none src dst msg m e = refl
deliver_into-view k uuid (some t) src dst msg m e =
    rw (find-insert uuid k (deliver_sm_call src dst msg t).1 m) (elim (Bool-cases (uuid =t= k)) [
      | inl same ↦
          let here : find k m ≡ some t = rw (=t=_true uuid k same) at e in
          rw (same, here) (deliver_sm_call-view src dst msg t)
      | inr differ ↦ rw differ refl
    ])

route-view :
    (k src dst msg id : Text) (n : Network)
    → view (find k (route src dst msg id n).handlers) ≡ view (find k n.handlers)
unfolding route
route-view k src dst msg id n =
    deliver_into-view k (target_of (first_receiver n.service.sessions)) _ src dst msg n.handlers
      refl

route-sessions :
    (src dst msg id : Text) (n : Network)
    → (route src dst msg id n).service.sessions ≡ n.service.sessions
unfolding route route_message
route-sessions src dst msg id n =
    deliver_to_sessions (deliver_at n.handlers) (target_of (first_receiver n.service.sessions)) src
      dst msg n.service

serve-view :
    (reaches : Bool) (k : Text) (e : Effect) (n : Network)
    → view (find k (serve reaches e n).handlers) ≡ view (find k n.handlers)
serve-view true k (details_updated x i y) n = refl
serve-view false k (details_updated x i y) n = refl
serve-view true k (message_routed a b c d) n = route-view k a b c d n
serve-view false k (message_routed a b c d) n = refl
serve-view reaches k header_awaited n = refl
serve-view reaches k (body_awaited h) n = refl
serve-view reaches k (sent p) n = refl
serve-view reaches k (authenticated a b c) n = refl
serve-view reaches k socket_closed n = refl
serve-view reaches k (session_exited a b) n = refl
serve-view reaches k timer_armed n = refl
serve-view reaches k timeout_armed n = refl
serve-view reaches k timeout_cancelled n = refl

pub serve_all-view :
    (reaches : Bool) (k : Text) (l : List Effect) (n : Network)
    → view (find k (serve_all reaches l n).handlers) ≡ view (find k n.handlers)
unfolding serve_all
serve_all-view reaches k [] n = refl
serve_all-view reaches k (e ∷ l) n =
    serve-view reaches k e (serve_all reaches l n) ∙ serve_all-view reaches k l n

-- The listed state of a uuid.
abbrev pub listed_state : Option SessionInfo → Option Text
listed_state none = none
listed_state (some info) = some info.state

-- The state that the calls leave where st is the one that they report.
abbrev pub restate : Bool → Text → Option Text → Option Text
restate true st o = o
restate false st none = none
restate false st (some old) = some st

restate_twice :
    (b : Bool) (st : Text) (o : Option Text)
    → restate false st (restate b st o) ≡ restate false st o
restate_twice true st o = refl
restate_twice false st none = refl
restate_twice false st (some old) = refl

restated :
    (t b : Bool) (st : Text) (a o : Option Text)
    → a ≡ (if t then restate b st o else o)
    → (if t then restate false st a else a) ≡ (if t then restate false st o else o)
restated true b st a o e = ap (restate false st) e ∙ restate_twice b st o
restated false b st a o e = e

details-listed :
    (u sid st k : Text) (s : Service)
    → listed_state (find k (update_session_details u sid st s).sessions) ≡ (
        if u =t= k
        then restate false st (listed_state (find k s.sessions))
        else listed_state (find k s.sessions))
details-listed u sid st k s =
    rw (update_session_details_one u sid st k s) (elim (Bool-cases (u =t= k)) [
      | inl same ↦ rw same (mapped (find k s.sessions))
      | inr differ ↦ rw differ refl
    ])
  where
    mapped :
        (o : Option SessionInfo)
        → listed_state
            (Option.map (λ (i : SessionInfo). record i { system_id = sid; state = st }) o)
          ≡ restate false st (listed_state o)
    mapped none = refl
    mapped (some info) = refl

-- The calls all report the state st of u: if there is one, u is listed with st; nobody else's listed
-- state changes.
pub serve_all-listed :
    (u k st : Text) (l : List Effect) (n : Network)
    → reports u st l ≡ true
    → let before = listed_state (find k n.service.sessions) in
      listed_state (find k (serve_all true l n).service.sessions)
      ≡ (if u =t= k then restate (silent l) st before else before)
unfolding serve_all
serve_all-listed u k st [] n r = ground arith
serve_all-listed u k st (details_updated x i y ∷ l) n r =
    let same_uuid : x ≡ u = =t=_true x u (ground arith) in
    let same_state : y ≡ st = =t=_true y st (ground arith) in
    let rest = serve_all-listed u k st l n (ground arith) in
    rw (same_uuid, same_state)
      (details-listed u i st k (serve_all true l n).service
        ∙ restated (u =t= k) (silent l) st _ _ rest)
serve_all-listed u k st (message_routed a b c d ∷ l) n r =
    rw (route-sessions a b c d (serve_all true l n)) (serve_all-listed u k st l n r)
serve_all-listed u k st (header_awaited ∷ l) n r = serve_all-listed u k st l n r
serve_all-listed u k st (body_awaited h ∷ l) n r = serve_all-listed u k st l n r
serve_all-listed u k st (sent p ∷ l) n r = serve_all-listed u k st l n r
serve_all-listed u k st (authenticated a b c ∷ l) n r = serve_all-listed u k st l n r
serve_all-listed u k st (socket_closed ∷ l) n r = serve_all-listed u k st l n r
serve_all-listed u k st (session_exited a b ∷ l) n r = serve_all-listed u k st l n r
serve_all-listed u k st (timer_armed ∷ l) n r = serve_all-listed u k st l n r
serve_all-listed u k st (timeout_armed ∷ l) n r = serve_all-listed u k st l n r
serve_all-listed u k st (timeout_cancelled ∷ l) n r = serve_all-listed u k st l n r

-- Calls that do not reach the server change nothing.
pub serve_all-lost : (l : List Effect) (n : Network) → serve_all false l n ≡ n
unfolding serve_all
serve_all-lost [] n = refl
serve_all-lost (details_updated x i y ∷ l) n = serve_all-lost l n
serve_all-lost (message_routed a b c d ∷ l) n = serve_all-lost l n
serve_all-lost (header_awaited ∷ l) n = serve_all-lost l n
serve_all-lost (body_awaited h ∷ l) n = serve_all-lost l n
serve_all-lost (sent p ∷ l) n = serve_all-lost l n
serve_all-lost (authenticated a b c ∷ l) n = serve_all-lost l n
serve_all-lost (socket_closed ∷ l) n = serve_all-lost l n
serve_all-lost (session_exited a b ∷ l) n = serve_all-lost l n
serve_all-lost (timer_armed ∷ l) n = serve_all-lost l n
serve_all-lost (timeout_armed ∷ l) n = serve_all-lost l n
serve_all-lost (timeout_cancelled ∷ l) n = serve_all-lost l n
