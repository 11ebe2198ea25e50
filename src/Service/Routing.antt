-- ===== src/Service/Routing.antt =====
-- `SmppServerService::RouteMessage`.
use opensmsc.Base.Ordered.{IsSorted, Above-IsSorted, find-Above, text_lt, text_lt_irrefl}
use opensmsc.Base.Dict.{Dict, find}
use opensmsc.Service.State.{
  SessionInfo, can_receive, first_receiver, Service, deliver_to, route_message, target_of,
}
use mathlib.Core.Bool.{false≢true}
use opensmsc.Base.{
  ℕ, Bool-cases, Text, [], inl, inr, some, true, ◌∷◌, ◌≡◌, =t=_iff, =t=_refl, Option, Option-cases,
  ap, arith, false, none, sym, ◌=t=◌, ◌∙◌, ◌≢◌, ◌⊎◌, List, refl,
}

first_receiver_found :
    (m : Dict SessionInfo) (uuid : Text)
    → IsSorted m
    → first_receiver m ≡ some uuid
    → (info : SessionInfo) × (find uuid m ≡ some info) × (can_receive info ≡ true)
unfolding first_receiver find
first_receiver_found [] uuid h e = cc
first_receiver_found ((u, d) ∷ m) uuid h e = elim (Bool-cases (can_receive d)) [
  | inl here ↦ let same : u ≡ uuid = ground arith in (d, rw (same, =t=_refl uuid), here)
  | inr away ↦
      let (info, there, can) = first_receiver_found m uuid (Above-IsSorted u m h) (rw away at e) in
      let below = find-Above u uuid info m h there in
      (info, ground (arith, =t=_iff u uuid, text_lt_irrefl u), can)
]

first_receiver_least :
    (m : Dict SessionInfo) (uuid k : Text) (info : SessionInfo)
    → IsSorted m
    → first_receiver m ≡ some uuid
    → find k m ≡ some info
    → can_receive info ≡ true
    → (uuid ≡ k) ⊎ (text_lt uuid k ≡ true)
unfolding first_receiver find
first_receiver_least [] uuid k info h e f c = cc
first_receiver_least ((u, d) ∷ m) uuid k info h e f c = elim (Bool-cases (u =t= k)) [
  | inl same ↦ elim (Bool-cases (can_receive d)) [
    | inl here ↦ inl (ground (arith, =t=_iff u k))
    | inr away ↦ absurd (ground arith)
  ]
  | inr differ ↦
      let there = rw differ at f in
      elim (Bool-cases (can_receive d)) [
        | inl here ↦
            let first : u ≡ uuid = ground arith in
            inr (rw (← first) (find-Above u k info m h there))
        | inr away ↦
            first_receiver_least m uuid k info (Above-IsSorted u m h) (rw away at e) there c
      ]
]

first_receiver-none :
    (m : Dict SessionInfo) (k : Text) (info : SessionInfo)
    → first_receiver m ≡ none
    → find k m ≡ some info
    → can_receive info ≡ false
unfolding first_receiver find
first_receiver-none [] k info e f = cc
first_receiver-none ((u, d) ∷ m) k info e f = ground (arith, first_receiver-none m k info)

module _ (deliver : Text → Text → Text → Text → Option ℕ)
    (src_addr dst_addr short_message message_id : Text) (s : Service) where
  deliver_to_result :
      (target uuid : Text)
      → uuid ≢ []
      → (deliver_to deliver target src_addr dst_addr short_message s).0 ≡ uuid
      → (target ≡ uuid) × (deliver uuid src_addr dst_addr short_message ≢ none)
  unfolding deliver_to
  deliver_to_result [] uuid h e = absurd (h (sym e))
  deliver_to_result (c ∷ target) uuid h e =
      elim (Option-cases (deliver (c ∷ target) src_addr dst_addr short_message)) [
        | inl gone ↦ absurd (h (sym (rw (gone, deliver_to) at e)))
        | inr (seq, took) ↦
            let same = rw (took, deliver_to) at e in (same, rw (← same, took) (λ p. cc))
      ]

  -- With the sessions sorted, a message that RouteMessage routes, to a uuid that is not empty, goes to a session that can receive, BOUND_RX or BOUND_TRX, whose
  -- handler took it; and of all sessions that can, to the one with the least uuid.
  pub route_message_target :
      (uuid : Text)
      → IsSorted s.sessions
      → uuid ≢ []
      → (route_message deliver src_addr dst_addr short_message message_id s).0 ≡ uuid
      → ((info : SessionInfo) × (find uuid s.sessions ≡ some info) × (can_receive info ≡ true))
        × (deliver uuid src_addr dst_addr short_message ≢ none)
        × ((k : Text) (other_info : SessionInfo)
            → find k s.sessions ≡ some other_info
            → can_receive other_info ≡ true
            → (uuid ≡ k) ⊎ (text_lt uuid k ≡ true))
  unfolding route_message
  route_message_target uuid h ne e =
      let (t, answered) = deliver_to_result (target_of (first_receiver s.sessions)) uuid ne e in
      elim (Option-cases (first_receiver s.sessions)) [
        | inl missing ↦ absurd (ne (sym t ∙ ap target_of missing))
        | inr (u, found) ↦
            let first : first_receiver s.sessions ≡ some uuid = ground arith in
            (
              first_receiver_found s.sessions uuid h first,
              answered,
              λ k i f c. first_receiver_least s.sessions uuid k i h first f c,
            )
      ]

  -- With the sessions sorted and none of them able to receive, RouteMessage answers the empty text, calls nobody, and changes
  -- nothing.
  pub route_message_nobody :
      ((k : Text) (info : SessionInfo) → find k s.sessions ≡ some info → can_receive info ≡ false)
      → IsSorted s.sessions
      → route_message deliver src_addr dst_addr short_message message_id s ≡ ([], s)
  unfolding route_message deliver_to
  route_message_nobody nobody h = elim (Option-cases (first_receiver s.sessions)) [
    | inl e ↦ rw e
    | inr (u, e) ↦
        let (info, there, can) = first_receiver_found s.sessions u h e in
        absurd (false≢true (sym (nobody u info there) ∙ can))
  ]

  route_message_failed :
      (uuid : Text)
      → first_receiver s.sessions ≡ some uuid
      → deliver uuid src_addr dst_addr short_message ≡ none
      → let r = route_message deliver src_addr dst_addr short_message message_id s in
        (r.0 ≡ []) × (r.1.sessions ≡ s.sessions)
  unfolding route_message
  route_message_failed uuid e gone = rw e (failed uuid gone)
    where
      failed :
          (u : Text)
          → deliver u src_addr dst_addr short_message ≡ none
          → ((deliver_to deliver u src_addr dst_addr short_message s).0 ≡ [])
            × ((deliver_to deliver u src_addr dst_addr short_message s).1.sessions ≡ s.sessions)
      failed [] g = unfold deliver_to in (refl, refl)
      failed (c ∷ u) g = unfold deliver_to in rw (g, deliver_to) (refl, refl)

-- A message to be routed.
pub record Message : Type 0 where
  pub src_addr : Text
  pub dst_addr : Text
  pub short_message : Text
  pub message_id : Text

-- Messages routed one after the other, with the answers in order.
unfoldable pub route_all :
    (Text → Text → Text → Text → Option ℕ) → List Message → Service → List Text × Service
route_all deliver [] s = ([], s)
route_all deliver (m ∷ ms) s =
    let (uuid, s1) = route_message deliver m.src_addr m.dst_addr m.short_message m.message_id s in
    let (uuids, s2) = route_all deliver ms s1 in (uuid ∷ uuids, s2)

abbrev pub AllEmpty : List Text → Type 0
AllEmpty [] = Unit {0}
AllEmpty (t ∷ ts) = (t ≡ []) × AllEmpty ts

-- While the handler of the first session that can
-- receive is gone, no message is delivered to anybody, whichever other sessions could receive it.
pub route_all_blocked :
    (deliver : Text → Text → Text → Text → Option ℕ) (ms : List Message) (s : Service) (uuid : Text)
    → first_receiver s.sessions ≡ some uuid
    → ((src dst msg : Text) → deliver uuid src dst msg ≡ none)
    → AllEmpty (route_all deliver ms s).0
unfolding route_all
route_all_blocked deliver [] s uuid e gone = tt
route_all_blocked deliver (m ∷ ms) s uuid e gone =
    let (empty, same) =
      route_message_failed deliver m.src_addr m.dst_addr m.short_message m.message_id s uuid e
        (gone m.src_addr m.dst_addr m.short_message) in
    (empty, route_all_blocked deliver ms _ uuid (rw same e) gone)
