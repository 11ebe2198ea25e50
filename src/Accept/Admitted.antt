-- ===== src/Accept/Admitted.antt =====
-- What an accepted connection leads to: who is listed, and what the handler that was launched claims.
use opensmsc.Base.Dict.{find}
use opensmsc.Service.State.{SessionInfo}
use opensmsc.Accept.Listed.{IsRemote, Listed, Listed-find, register_session-Listed, step-Listed}
use opensmsc.Base.{
  All, Bool-cases, List, Option, Option-cases, Text, [], inl, inr, refl, some, true, ℕ, ◌∙◌, ◌∷◌,
  ◌≡◌, subst, sym,
}
use opensmsc.Validator.State.{Validator, is_allowed}
use opensmsc.Accept.Connection.{Connection, Server, admit, handle_connection, launch_client_handler}
use opensmsc.Service.Sessions.{Call, step}

-- What the server's threads run: the handler of an accepted socket, or a D-Bus call.
pub data Event : Type 0 where
  accepted : Connection → Event
  called : Call → Event

abbrev pub IsFrom : Event → Type 0
IsFrom (accepted c) = Unit {0}
IsFrom (called c) = IsRemote c

module _ (inet_pton : Text → Option ℕ) where
  abbrev pub happens : Event → Server → Server
  happens (accepted c) s = handle_connection inet_pton c s
  happens (called c) s = record s { service = step c s.service }

  unfoldable pub happen : List Event → Server → Server
  happen [] s = s
  happen (e ∷ events) s = happen events (happens e s)

  abbrev Allowed : Validator → Text → Type 0
  Allowed v ip = is_allowed inet_pton ip v ≡ true

  handle_connection-Listed :
      (c : Connection) (s : Server)
      → Listed (Allowed s.validator) s.service.sessions
      → Listed (Allowed s.validator) (handle_connection inet_pton c s).service.sessions
  unfolding handle_connection admit launch_client_handler
  handle_connection-Listed c s l = elim (Option-cases c.remote) [
    | inl e ↦ rw e l
    | inr (ip, e) ↦ rw e (elim (Bool-cases (is_allowed inet_pton ip s.validator)) [
      | inl ok ↦ rw ok (register_session-Listed (Allowed s.validator) _ c.raw_fd ip s.service ok l)
      | inr refused ↦ rw refused l
    ])
  ]

  handle_connection-validator :
      (c : Connection) (s : Server) → (handle_connection inet_pton c s).validator ≡ s.validator
  unfolding handle_connection admit launch_client_handler
  handle_connection-validator c s = elim (Option-cases c.remote) [
    | inl e ↦ rw e refl
    | inr (ip, e) ↦ rw e (elim (Bool-cases (is_allowed inet_pton ip s.validator)) [
      | inl ok ↦ rw ok refl
      | inr refused ↦ rw refused refl
    ])
  ]

  happens-Listed :
      (e : Event) (s : Server)
      → IsFrom e
      → Listed (Allowed s.validator) s.service.sessions
      → Listed (Allowed s.validator) (happens e s).service.sessions
  happens-Listed (accepted c) s r l = handle_connection-Listed c s l
  happens-Listed (called c) s r l = step-Listed (Allowed s.validator) c s.service r l

  happens-validator : (e : Event) (s : Server) → (happens e s).validator ≡ s.validator
  happens-validator (accepted c) s = handle_connection-validator c s
  happens-validator (called c) s = refl

  happen-Listed :
      (events : List Event) (v : Validator) (s : Server)
      → s.validator ≡ v
      → All IsFrom events
      → Listed (Allowed v) s.service.sessions
      → Listed (Allowed v) (happen events s).service.sessions
  unfolding happen
  happen-Listed [] v s same r l = l
  happen-Listed (e ∷ events) v s same r l =
      happen-Listed events v (happens e s) (happens-validator e s ∙ same) r.1 (
        subst (λ w. Listed (Allowed w) (happens e s).service.sessions) same
          (happens-Listed e s r.0
            (subst (λ w. Listed (Allowed w) s.service.sessions) (sym same) l)))

  -- Whatever connections are accepted and whatever calls come by D-Bus, in any order, from a server on
  -- that lists no session: every session that it lists has an address that the whitelist allows.
  pub happen_allowed :
      (events : List Event) (s : Server) (uuid : Text) (info : SessionInfo)
      → s.service.sessions ≡ []
      → All IsFrom events
      → find uuid (happen events s).service.sessions ≡ some info
      → is_allowed inet_pton info.client_ip s.validator ≡ true
  happen_allowed events s uuid info empty_list r e =
      Listed-find (Allowed s.validator) uuid info _ e
        (happen-Listed events s.validator s refl r (rw empty_list tt))
