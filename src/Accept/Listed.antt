-- ===== src/Accept/Listed.antt =====
-- The sessions that the server lists, over its connections and the calls of its D-Bus interface.
use opensmsc.Base.Dict.{Dict, erase, find}
use opensmsc.Base.Ordered.{insert_ordered, text_lt}
use opensmsc.Base.{Bool-cases, Option-cases, Text, [], inl, inr, some, subst, ℕ, ◌=t=◌, ◌∷◌, ◌≡◌}
use opensmsc.Registry.State.{add}
use opensmsc.Service.State.{
  Service, SessionInfo, disconnect_all, first_receiver, get_socket, register_session, route_message,
  set_max_connections_per_ip, target_of, targets_of, unregister_session, update_session_details,
}
use opensmsc.Service.Sessions.{
  Call, step, registers, unregisters, gets_socket, updates, sets_limit, disconnects, routes,
  disconnect_each_sessions, deliver_to_sessions,
}

-- A call that comes by D-Bus: RegisterSession is none.
abbrev pub IsRemote : Call → Type 0
IsRemote (registers uuid fd ip) = ⊥
IsRemote _ = Unit {0}

-- Every listed session has an address of this kind.
module _ (Good : Text → Type 0) where
  abbrev pub Listed : Dict SessionInfo → Type 0
  Listed [] = Unit {0}
  Listed ((uuid, info) ∷ m) = Good info.client_ip × Listed m

  pub Listed-find :
      (uuid : Text) (info : SessionInfo) (m : Dict SessionInfo)
      → find uuid m ≡ some info
      → Listed m
      → Good info.client_ip
  unfolding find
  Listed-find uuid info [] e l = cc
  Listed-find uuid info ((u, i) ∷ m) e l = elim (Bool-cases (u =t= uuid)) [
    | inl same ↦
        let f : some i ≡ some info = rw same at e in
        let g : i ≡ info = cc in subst (λ (x : SessionInfo). Good x.client_ip) g l.0
    | inr differ ↦ Listed-find uuid info m (rw differ at e) l.1
  ]

  insert_ordered-Listed :
      (uuid : Text) (info : SessionInfo) (m : Dict SessionInfo)
      → Good info.client_ip
      → Listed m
      → Listed (insert_ordered uuid info m)
  unfolding insert_ordered
  insert_ordered-Listed uuid info [] g l = (g, tt)
  insert_ordered-Listed uuid info ((u, i) ∷ m) g l = elim (Bool-cases (u =t= uuid)) [
    | inl same ↦ rw same (g, l.1)
    | inr differ ↦ rw differ (elim (Bool-cases (text_lt uuid u)) [
      | inl below ↦ rw below (g, l)
      | inr above ↦ rw above (l.0, insert_ordered-Listed uuid info m g l.1)
    ])
  ]

  erase-Listed : (uuid : Text) (m : Dict SessionInfo) → Listed m → Listed (erase uuid m)
  unfolding erase
  erase-Listed uuid [] l = tt
  erase-Listed uuid ((u, i) ∷ m) l = elim (Bool-cases (u =t= uuid)) [
    | inl same ↦ rw same l.1
    | inr differ ↦ rw differ (l.0, erase-Listed uuid m l.1)
  ]

  pub register_session-Listed :
      (uuid : Text) (fd : ℕ) (ip : Text) (s : Service)
      → Good ip
      → Listed s.sessions
      → Listed (register_session uuid fd ip s).1.sessions
  unfolding register_session
  register_session-Listed uuid fd ip s g l = elim (Bool-cases (add uuid fd ip s.registry).0) [
    | inl ok ↦ rw ok (insert_ordered-Listed uuid _ s.sessions g l)
    | inr full ↦ rw full l
  ]

  pub step-Listed :
      (c : Call) (s : Service) → IsRemote c → Listed s.sessions → Listed (step c s).sessions
  unfolding step unregister_session get_socket update_session_details set_max_connections_per_ip
      disconnect_all route_message
  step-Listed (registers uuid fd ip) s r l = absurd r
  step-Listed (unregisters uuid) s r l = erase-Listed uuid s.sessions l
  step-Listed (gets_socket uuid) s r l = l
  step-Listed (updates uuid sid state) s r l = elim (Option-cases (find uuid s.sessions)) [
    | inl e ↦ rw (e, update_session_details, step) l
    | inr (i, e) ↦
        rw (e, update_session_details, step)
          (insert_ordered-Listed uuid _ s.sessions (Listed-find uuid i s.sessions e l) l)
  ]
  step-Listed (sets_limit ip max) s r l = l
  step-Listed (disconnects ip reason) s r l =
      rw (disconnect_each_sessions reason (targets_of ip s.sessions) s) l
  step-Listed (routes deliver src dst msg id) s r l =
      rw (deliver_to_sessions deliver (target_of (first_receiver s.sessions)) src dst msg s) l
