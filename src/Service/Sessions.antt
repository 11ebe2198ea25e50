-- ===== src/Service/Sessions.antt =====
-- The list of sessions of `SmppServerService` under its methods.
use opensmsc.Base.Ordered.{IsSorted, erase-IsSorted, find-insert_ordered, insert_ordered-IsSorted}
use opensmsc.Registry.State.{add}
use opensmsc.Base.Dict.{find}
use opensmsc.Service.State.{
  Service, SessionInfo, deliver_to, disconnect_all, disconnect_each, first_receiver, get_socket,
  register_session, route_message, session_started, set_max_connections_per_ip, target_of,
  targets_of, unregister_session, update_session_details,
}
use mathlib.Core.Option
use opensmsc.Base.{
  ℕ, Bool-cases, List, Option, Option-cases, Text, [], arith, if◌then◌else◌, inl, inr, refl, some,
  text, ◌&&◌, ◌=t=◌, ◌∷◌, ◌≡◌, =t=_true, none, ◌∙◌,
}

-- The calls that change a service.
pub data Call : Type 0 where
  registers : Text → ℕ → Text → Call
  unregisters gets_socket : Text → Call
  updates : Text → Text → Text → Call
  sets_limit : Text → ℕ → Call
  disconnects : Text → Text → Call
  routes : (Text → Text → Text → Text → Option ℕ) → Text → Text → Text → Text → Call

unfoldable pub step : Call → Service → Service
step (registers uuid fd ip) s = (register_session uuid fd ip s).1
step (unregisters uuid) s = unregister_session uuid s
step (gets_socket uuid) s = (get_socket uuid s).1
step (updates uuid system_id state) s = update_session_details uuid system_id state s
step (sets_limit ip max) s = set_max_connections_per_ip ip max s
step (disconnects ip reason) s = disconnect_all ip reason s
step (routes deliver src dst msg id) s = (route_message deliver src dst msg id s).1

pub disconnect_each_sessions :
    (reason : Text) (targets : List Text) (s : Service)
    → (disconnect_each reason targets s).sessions ≡ s.sessions
unfolding disconnect_each
disconnect_each_sessions reason [] s = refl
disconnect_each_sessions reason (u ∷ targets) s = disconnect_each_sessions reason targets _

pub deliver_to_sessions :
    (deliver : Text → Text → Text → Text → Option ℕ) (target src dst msg : Text) (s : Service)
    → (deliver_to deliver target src dst msg s).1.sessions ≡ s.sessions
unfolding deliver_to
deliver_to_sessions deliver [] src dst msg s = refl
deliver_to_sessions deliver (c ∷ u) src dst msg s = ground arith

-- Every method that changes the service keeps the sessions in the order of their uuids, each uuid once.
pub step-IsSorted : (c : Call) (s : Service) → IsSorted s.sessions → IsSorted (step c s).sessions
unfolding step register_session unregister_session get_socket update_session_details
    set_max_connections_per_ip disconnect_all route_message
step-IsSorted (registers uuid fd ip) s h = ground (
  arith,
  insert_ordered-IsSorted uuid (record { client_ip = ip; system_id = []; state = text "OPEN" })
      s.sessions h,
)
step-IsSorted (unregisters uuid) s h = erase-IsSorted uuid s.sessions h
step-IsSorted (gets_socket uuid) s h = h
step-IsSorted (updates uuid sid state) s h = elim (Option-cases (find uuid s.sessions)) [
  | inl e ↦ rw (e, update_session_details, step) h
  | inr (i, e) ↦
      rw (e, update_session_details, step)
        (insert_ordered-IsSorted uuid (record i { system_id = sid; state = state }) s.sessions h)
]
step-IsSorted (sets_limit ip max) s h = h
step-IsSorted (disconnects ip reason) s h =
    rw (disconnect_each_sessions reason (targets_of ip s.sessions) s) h
step-IsSorted (routes deliver src dst msg id) s h =
    rw (deliver_to_sessions deliver (target_of (first_receiver s.sessions)) src dst msg s) h

-- A connection that the registry lets in is listed as OPEN under its address, and its start is
-- signalled; one that it refuses changes neither the list nor the log. Every other session keeps its
-- entry.
pub register_session_lists :
    (uuid : Text) (fd : ℕ) (ip : Text) (s : Service)
    → let (ok, s') = register_session uuid fd ip s in
      let entered : SessionInfo = record { client_ip = ip; system_id = []; state = text "OPEN" } in
      (ok ≡ (add uuid fd ip s.registry).0)
      × ((k : Text)
          → find k s'.sessions ≡ (if ok && uuid =t= k then some entered else find k s.sessions))
      × (s'.log ≡ (if ok then session_started uuid ip ∷ s.log else s.log))
unfolding register_session
register_session_lists uuid fd ip s = elim (Bool-cases (add uuid fd ip s.registry).0) [
  | inl e ↦ rw e (refl, λ k. find-insert_ordered uuid k _ s.sessions, refl)
  | inr e ↦ rw e (refl, λ k. refl, refl)
]

-- UpdateSessionDetails changes the system_id and state of the session that it names, and nothing else:
-- no address, no other session, and no session is made up for an unknown uuid.
pub update_session_details_one :
    (uuid system_id state k : Text) (s : Service)
    → find k (update_session_details uuid system_id state s).sessions ≡ (
        if uuid =t= k
        then Option.map
            (λ (i : SessionInfo). record i { system_id = system_id; state = state })
            (find k s.sessions)
        else find k s.sessions)
unfolding update_session_details
update_session_details_one uuid sid state k s = elim (Option-cases (find uuid s.sessions)) [
  | inl e ↦
      rw (e, update_session_details)
        (elim (Bool-cases (uuid =t= k)) [
          | inl same ↦
              let f : find k s.sessions ≡ none = rw (=t=_true uuid k same) at e in rw (same, f)
          | inr ne ↦ rw ne
        ])
  | inr (i, e) ↦
      rw (e, update_session_details)
        (find-insert_ordered uuid k _ s.sessions ∙ elim (Bool-cases (uuid =t= k)) [
          | inl same ↦
              let f : find k s.sessions ≡ some i = rw (=t=_true uuid k same) at e in rw (same, f)
          | inr ne ↦ rw ne
        ])
]
