-- ===== src/Accept/Refused.antt =====
-- A connection that the registry refuses.
use opensmsc.Base.Dict.{find}
use opensmsc.Service.State.{get_socket, Service, register_session}
use opensmsc.Accept.SessionId.{generate_session_id}
use opensmsc.Accept.Claimed.{admit_lem, admitted_lem, register_session-registry}
use opensmsc.Registry.State.{add, claim_fd, Registry}
use opensmsc.Validator.State.{is_allowed}
use opensmsc.Base.{Option, Text, false, none, some, true, ℕ, ◌∷◌, ◌≡◌, arith, refl}
use opensmsc.Accept.Connection.{Connection, Server, command_run, handle_connection, socket_released}
use opensmsc.Accept.Launch.{build_launch_command}

add_refused :
    (uuid : Text) (fd : ℕ) (ip : Text) (r : Registry)
    → (add uuid fd ip r).0 ≡ false
    → (add uuid fd ip r).1.sessions ≡ r.sessions
unfolding add
add_refused uuid fd ip r h = ground arith

register_session_refused :
    (uuid : Text) (fd : ℕ) (ip : Text) (s : Service)
    → (add uuid fd ip s.registry).0 ≡ false
    → (register_session uuid fd ip s).1.sessions ≡ s.sessions
unfolding register_session
register_session_refused uuid fd ip s h = rw h refl

claim_fd_missing :
    (uuid : Text) (r : Registry) → find uuid r.sessions ≡ none → (claim_fd uuid r).0 ≡ none
unfolding claim_fd
claim_fd_missing uuid r h = rw (claim_fd, h) refl

module _ (inet_pton : Text → Option ℕ) where
  -- A connection whose address is allowed, but for which the registry has no room, under a session
  -- identifier that is new: its descriptor is given up and a handler is launched all the same. No entry of
  -- the registry holds it and no session is listed, and GetSocket has no descriptor for the handler.
  pub refused_leaks :
      (c : Connection) (s : Server) (ip : Text)
      → c.remote ≡ some ip
      → is_allowed inet_pton ip s.validator ≡ true
      → (add (generate_session_id c.ts c.rnd) c.raw_fd ip s.service.registry).0 ≡ false
      → find (generate_session_id c.ts c.rnd) s.service.registry.sessions ≡ none
      → let s' = handle_connection inet_pton c s in
        let uuid = generate_session_id c.ts c.rnd in
        (s'.log ≡ command_run (build_launch_command uuid ip) ∷ socket_released c.raw_fd ∷ s.log)
        × (s'.service.registry.sessions ≡ s.service.registry.sessions)
        × (s'.service.sessions ≡ s.service.sessions)
        × ((get_socket uuid s'.service).0 ≡ none)
  unfolding get_socket
  refused_leaks c s ip remote ok full new =
      let uuid = generate_session_id c.ts c.rnd in
      let (service, log) = admit_lem ip c s in
      let entered = register_session-registry uuid c.raw_fd ip s.service in
      let kept = add_refused uuid c.raw_fd ip s.service.registry full in
      rw (admitted_lem inet_pton c s ip remote ok) (
        log,
        rw (service, entered) kept,
        rw service (register_session_refused uuid c.raw_fd ip s.service full),
        rw (service, entered) (claim_fd_missing uuid _ (rw kept new)),
      )
