-- ===== src/Network/Consistent.antt =====
-- The states that the server lists, against those that its handlers are in.
use opensmsc.Network.Agrees.{Agrees, Outcome-Agrees, Outcome-Agrees-lost}
use opensmsc.Network.Reports.{Outcome, quiet, reports, silent, silent-reports, step-Outcome, tells}
use opensmsc.Service.State.{register_session, SessionInfo, create_service}
use opensmsc.Network.State.{Network, handler_step, serve_all, fresh}
use opensmsc.Base.{
  List, Option, Text, [], false, if◌then◌else◌, inl, inr, none, refl, some, ℕ, ◌∙◌, ◌∷◌, ◌≡◌, ◌⊎◌,
  =t=_true, Bool-cases, Option-cases, subst, true, ◌++◌, ◌=t=◌, =t=_refl, Bool, not, ◌&&◌, ◌||◌,
  text, or_true,
}
use opensmsc.Base.Dict.{find, insert, find-insert}
use opensmsc.Network.Views.{
  listed_state, restate, view, serve_all-listed, serve_all-view, serve_all-lost,
}
use opensmsc.Session.Dispatch.{Input, step}
use opensmsc.Session.State.{create, Session, SessionState, World, state_name, unbound}
use opensmsc.Service.Sessions.{register_session_lists}
use opensmsc.Registry.State.{Registry}

-- What happens: a connection is accepted and its handler starts, where the registry has room, or a
-- handler takes an input, and its call of the server gets there or not.
pub data Event : Type 0 where
  connects : Text → ℕ → Text → ℕ → ℕ → ℕ → World → Event
  acts : Text → Input → World → Bool → Event

unfoldable pub connect : Text → ℕ → Text → ℕ → ℕ → ℕ → World → Network → Network
connect uuid fd client_ip interval timeout rate w n =
    let (ok, service) = register_session uuid fd client_ip n.service in
    record {
      service = service;
      handlers =
          if ok
          then insert uuid (create uuid client_ip interval timeout rate w) n.handlers
          else n.handlers;
    }

abbrev pub happens : Event → Network → Network
happens (connects uuid fd client_ip interval timeout rate w) n =
    connect uuid fd client_ip interval timeout rate w n
happens (acts uuid i w reaches) n = handler_step reaches uuid i w n

unfoldable pub happen : List Event → Network → Network
happen [] n = n
happen (e ∷ events) n = happen events (happens e n)

-- A step of the handler of k whose call, if it makes one, does not reach the server.
abbrev misses : Text → Event → Bool
misses k (connects uuid fd client_ip interval timeout rate w) = false
misses k (acts uuid i w reaches) = uuid =t= k && not reaches

unfoldable pub any_misses : Text → List Event → Bool
any_misses k [] = false
any_misses k (e ∷ events) = misses k e || any_misses k events

abbrev pub Keyed : Text → Option (Text × SessionState) → Type 0
Keyed k none = Unit {0}
Keyed k (some (uuid, state)) = uuid ≡ k

pub record Inv (lost : Text → Bool) (n : Network) : Type 0 where
  pub keyed : (k : Text) → Keyed k (view (find k n.handlers))
  pub agrees :
      (k : Text)
      → Agrees (lost k) (listed_state (find k n.service.sessions)) (view (find k n.handlers))

Outcome-uuid :
    (uuid : Text) (state : SessionState) (s' : Session) → Outcome uuid state s' → s'.uuid ≡ uuid
Outcome-uuid uuid state s' (quiet q) = q.same_uuid
Outcome-uuid uuid state s' (tells t) = t.same_uuid

Outcome-reports :
    (uuid : Text) (state : SessionState) (s' : Session)
    → Outcome uuid state s'
    → reports uuid (state_name s'.state) s'.log ≡ true
Outcome-reports uuid state s' (quiet q) = silent-reports uuid (state_name s'.state) s'.log q.nothing
Outcome-reports uuid state s' (tells t) = t.truly

-- The handler of a has stepped from s to s', and its calls are carried out.
module _ (lost : Text → Bool) (a : Text) (s s' : Session) (n : Network)
    (e : find a n.handlers ≡ some s) (o : Outcome s.uuid s.state s') (v : Inv lost n) where
  abbrev stepped : Network
  stepped = record n { handlers = insert a (record s' { log = s'.log ++ s.log }) n.handlers }

  key : s.uuid ≡ a
  key = subst (λ h. Keyed a (view h)) e (v.keyed a)

  view_after :
      (reaches : Bool) (k : Text)
      → view (find k (serve_all reaches s'.log stepped).handlers)
        ≡ (if a =t= k then some (s'.uuid, s'.state) else view (find k n.handlers))
  view_after reaches k =
      serve_all-view reaches k s'.log stepped
      ∙ rw (find-insert a k (record s' { log = s'.log ++ s.log }) n.handlers)
          (elim (Bool-cases (a =t= k)) [ inl same ↦ rw same refl | inr differ ↦ rw differ refl ])

  listed_after :
      (k : Text)
      → listed_state (find k (serve_all true s'.log stepped).service.sessions) ≡ (
          if a =t= k
          then restate
              (silent s'.log)
              (state_name s'.state)
              (listed_state (find k n.service.sessions))
          else listed_state (find k n.service.sessions))
  listed_after k = serve_all-listed a k (state_name s'.state) s'.log stepped (
      subst (λ u. reports u (state_name s'.state) s'.log ≡ true) key
        (Outcome-reports s.uuid s.state s' o))

  uuid_after :
      (reaches : Bool) (k : Text)
      → Keyed k (view (find k (serve_all reaches s'.log stepped).handlers))
  uuid_after reaches k = rw (view_after reaches k) (elim (Bool-cases (a =t= k)) [
    | inl same ↦ rw same (Outcome-uuid s.uuid s.state s' o ∙ key ∙ =t=_true a k same)
    | inr differ ↦ rw differ (v.keyed k)
  ])

  -- What the invariant says of the handler itself, before its step.
  agreed :
      (k : Text)
      → (a =t= k) ≡ true
      → Agrees (lost k) (listed_state (find k n.service.sessions)) (some (s.uuid, s.state))
  agreed k same =
      let here : find k n.handlers ≡ some s = rw (=t=_true a k same) at e in
      subst (λ h. Agrees (lost k) (listed_state (find k n.service.sessions)) (view h)) here
        (v.agrees k)

  reached-Inv : Inv lost (serve_all true s'.log stepped)
  reached-Inv = record {
    keyed = uuid_after true;
    agrees = λ k.
        rw (view_after true k, listed_after k)
          (elim (Bool-cases (a =t= k)) [
            | inl same ↦ rw same (
                Outcome-Agrees (lost k) s.uuid s.state s' (listed_state (find k n.service.sessions))
                  o (agreed k same))
            | inr differ ↦ rw differ (v.agrees k)
          ]);
  }

  lost-Inv : lost a ≡ true → Inv lost (serve_all false s'.log stepped)
  lost-Inv missed = record {
    keyed = uuid_after false;
    agrees = λ k.
        rw (view_after false k, serve_all-lost s'.log stepped)
          (elim (Bool-cases (a =t= k)) [
            | inl same ↦
                let here : lost k ≡ true = rw (=t=_true a k same) at missed in
                rw (same, here)
                  (Outcome-Agrees-lost s.uuid s.state s' (listed_state (find k n.service.sessions))
                    o
                    (subst
                      (λ b.
                        Agrees b (listed_state (find k n.service.sessions))
                          (some (s.uuid, s.state)))
                      here (agreed k same)))
            | inr differ ↦ rw differ (v.agrees k)
          ]);
  }

handler_step-Inv :
    (lost : Text → Bool) (reaches : Bool) (a : Text) (i : Input) (w : World) (n : Network)
    → (reaches ≡ true) ⊎ (lost a ≡ true)
    → Inv lost n
    → Inv lost (handler_step reaches a i w n)
unfolding handler_step
handler_step-Inv lost reaches a i w n h v = elim (Option-cases (find a n.handlers)) [
  | inl e ↦ rw e v
  | inr (s, e) ↦
      let o = step-Outcome i w (fresh s) refl in
      rw e (elim h [
        | inl got ↦ rw got (reached-Inv lost a s (step i w (fresh s)) n e o v)
        | inr missed ↦ elim (Bool-cases reaches) [
          | inl got ↦ rw got (reached-Inv lost a s (step i w (fresh s)) n e o v)
          | inr not_got ↦ rw not_got (lost-Inv lost a s (step i w (fresh s)) n e o v missed)
        ]
      ])
]

connect-Inv :
    (lost : Text → Bool) (uuid : Text) (fd : ℕ) (ip : Text) (interval timeout rate : ℕ) (w : World)
    (n : Network)
    → Inv lost n
    → Inv lost (connect uuid fd ip interval timeout rate w n)
unfolding connect create state_name
connect-Inv lost uuid fd ip interval timeout rate w n v =
    let h = create uuid ip interval timeout rate w in
    let listed = (register_session_lists uuid fd ip n.service).1 in
    elim (Bool-cases (register_session uuid fd ip n.service).0) [
      | inr full ↦
          rw full (record { keyed = v.keyed; agrees = λ k. rw (listed k, full) (v.agrees k) })
      | inl ok ↦ rw ok (record {
        keyed = λ k. rw (find-insert uuid k h n.handlers) (elim (Bool-cases (uuid =t= k)) [
          | inl same ↦ rw same (=t=_true uuid k same)
          | inr differ ↦ rw differ (v.keyed k)
        ]);
        agrees = λ k.
            rw (find-insert uuid k h n.handlers, listed k, ok)
              (elim (Bool-cases (uuid =t= k)) [
                | inl same ↦ rw same (inl refl)
                | inr differ ↦ rw differ (v.agrees k)
              ]);
      })
    ]

-- The calls that an event loses are lost.
Covers : (Text → Bool) → Event → Type 0
Covers lost e = (k : Text) → misses k e ≡ true → lost k ≡ true

reached_or_lost :
    (lost : Text → Bool) (uuid : Text) (i : Input) (w : World) (reaches : Bool)
    → Covers lost (acts uuid i w reaches)
    → (reaches ≡ true) ⊎ (lost uuid ≡ true)
unfolding Covers
reached_or_lost lost uuid i w true c = inl refl
reached_or_lost lost uuid i w false c = inr (c uuid (rw (=t=_refl uuid) refl))

happens-Inv :
    (lost : Text → Bool) (e : Event) (n : Network)
    → Covers lost e
    → Inv lost n
    → Inv lost (happens e n)
happens-Inv lost (connects uuid fd ip interval timeout rate w) n c v =
    connect-Inv lost uuid fd ip interval timeout rate w n v
happens-Inv lost (acts uuid i w reaches) n c v =
    handler_step-Inv lost reaches uuid i w n (reached_or_lost lost uuid i w reaches c) v

happen-Inv :
    (lost : Text → Bool) (events : List Event) (n : Network)
    → ((k : Text) → any_misses k events ≡ true → lost k ≡ true)
    → Inv lost n
    → Inv lost (happen events n)
unfolding happen any_misses Covers
happen-Inv lost [] n c v = v
happen-Inv lost (e ∷ events) n c v =
    happen-Inv lost events (happens e n) (λ k m. c k (rw m (or_true (misses k e))))
      (happens-Inv lost e n (λ k m. c k (rw m refl)) v)

-- A server that starts without sessions.
abbrev pub started : Registry → Network
started registry = record { service = create_service registry; handlers = [] }

started-Inv : (lost : Text → Bool) (registry : Registry) → Inv lost (started registry)
unfolding create_service find
started-Inv lost registry = record { keyed = λ k. tt; agrees = λ k. tt }

-- However connections and the inputs of all handlers interleave, and whichever calls of the server are
-- lost: the state that the server lists for a session is the state that its handler is in, or the
-- handler's session has ended, or there was a step of this handler whose call did not reach the server,
-- and the session is still listed as OPEN.
pub happen_agrees :
    (registry : Registry) (events : List Event) (uuid : Text) (info : SessionInfo) (s : Session)
    → let n = happen events (started registry) in
      find uuid n.service.sessions ≡ some info
      → find uuid n.handlers ≡ some s
      → (info.state ≡ state_name s.state)
        ⊎ (s.state ≡ unbound)
        ⊎ ((any_misses uuid events ≡ true) × (info.state ≡ text "OPEN"))
happen_agrees registry events uuid info s listed found =
    let lost : Text → Bool = λ k. any_misses k events in
    let n = happen events (started registry) in
    let v = happen-Inv lost events (started registry) (λ k m. m) (started-Inv lost registry) in
    subst (λ o. Agrees (lost uuid) (listed_state o) (some (s.uuid, s.state))) listed
      (subst (λ h. Agrees (lost uuid) (listed_state (find uuid n.service.sessions)) (view h)) found
        (v.agrees uuid))
