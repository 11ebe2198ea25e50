-- ===== src/Accept/Claimed.antt =====
-- A connection from its acceptance to the handler that claims its socket.
use opensmsc.Registry.Limit.{claim_fd-add}
use opensmsc.Service.Sessions.{register_session_lists}
use opensmsc.Validator.State.{is_allowed, contains}
use opensmsc.Base.Dict.{find}
use opensmsc.Accept.SessionId.{generate_session_id}
use opensmsc.Accept.Words.{IsOption, IsWord, join, launch_arguments}
use opensmsc.Service.State.{Service, get_socket, register_session}
use opensmsc.Accept.Launch.{
  Arguments, build_launch_command, main_arguments, starts_with, claim_socket, svc_name,
}
use opensmsc.Base.{
  All, Bool-cases, List, Option, Text, [], drop, false, inl, inr, refl, some, true, ℕ, ◌++◌, ◌∷◌,
  ◌≡◌, text, =t=_refl, none, ◌∙◌, Bool, if◌then◌else◌, ◌&&◌,
}
use opensmsc.Accept.Connection.{
  Connection, Server, admit, command_run, handle_connection, launch_client_handler, socket_released,
}
use opensmsc.Registry.Count.{Inv}
use opensmsc.Registry.State.{add}

pub register_session-registry :
    (uuid : Text) (fd : ℕ) (ip : Text) (s : Service)
    → (register_session uuid fd ip s).1.registry ≡ (add uuid fd ip s.registry).1
unfolding register_session
register_session-registry uuid fd ip s = elim (Bool-cases (add uuid fd ip s.registry).0) [
  | inl ok ↦ rw ok refl
  | inr full ↦ rw full refl
]

-- What an accepted connection leaves.
pub admit_lem :
    (ip : Text) (c : Connection) (s : Server)
    → let uuid = generate_session_id c.ts c.rnd in
      ((admit ip c s).service ≡ (register_session uuid c.raw_fd ip s.service).1)
      × ((admit ip c s).log
          ≡ command_run (build_launch_command uuid ip) ∷ socket_released c.raw_fd ∷ s.log)
unfolding admit launch_client_handler
admit_lem ip c s = (refl, refl)

module _ (inet_pton : Text → Option ℕ) where
  pub admitted_lem :
      (c : Connection) (s : Server) (ip : Text)
      → c.remote ≡ some ip
      → is_allowed inet_pton ip s.validator ≡ true
      → handle_connection inet_pton c s ≡ admit ip c s
  unfolding handle_connection
  admitted_lem c s ip e ok = rw (e, ok) refl

  -- What the launched handler claims, from what `get_socket` gives it.
  claim_socket-get_socket :
      (connects : Text → Bool) (creates : Bool) (v : Arguments) (server : Service) (fd : ℕ)
      → v.server_svc ≡ text "com.telecom.smpp.Server"
      → (get_socket v.uuid server).0 ≡ some fd
      → (claim_socket connects creates v server).0
        ≡ (if connects (svc_name v) && creates then some fd else none)
  unfolding claim_socket
  claim_socket-get_socket connects creates v server fd svc e =
      rw (svc, =t=_refl (text "com.telecom.smpp.Server"))
        (elim (Bool-cases (connects (svc_name v))) [
          | inl named ↦
              rw named (elim (Bool-cases creates) [
                | inl made ↦ rw made e
                | inr not_made ↦ rw not_made refl
              ])
          | inr unnamed ↦ rw unnamed refl
        ])

  -- A connection whose address is allowed and of plain characters, in a server whose registry counts
  -- correctly and has room for it: the server lists it as OPEN under its new session identifier, gives the
  -- descriptor up and runs one command; and where the shell splits plain words at blanks and `systemd-run`
  -- runs what stands behind its options, the handler that this starts reads the identifier and the address
  -- from its arguments. If the bus gives it the name com.telecom.smpp.Client.<identifier> and it can create
  -- its object there, it claims the descriptor of the connection with that identifier; else it claims
  -- nothing.
  pub handle_connection_claimed :
      (shell : Text → List Text) (systemd_run : List Text → List Text) (connects : Text → Bool)
      (creates : Bool)
      → ((ws : List Text) → All IsWord ws → shell (join ws) ≡ ws)
      → ((opts argv : List Text) (program : Text)
          → All IsOption opts
          → starts_with (text "-") program ≡ false
          → systemd_run (opts ++ (program ∷ argv)) ≡ program ∷ argv)
      → (c : Connection) (s : Server) (ip : Text) → c.remote ≡ some ip
      → is_allowed inet_pton ip s.validator ≡ true
      → IsWord ip
      → Inv s.service.registry
      → (add (generate_session_id c.ts c.rnd) c.raw_fd ip s.service.registry).0 ≡ true
      → let s' = handle_connection inet_pton c s in
        let name = text "com.telecom.smpp.Client." ++ generate_session_id c.ts c.rnd in
        (command : Text) × (v : Arguments) × (s'.log
          ≡ command_run command ∷ socket_released c.raw_fd ∷ s.log)
        × (main_arguments (systemd_run (drop 1 (shell command))) ≡ some v)
        × (v.client_ip ≡ ip)
        × ((claim_socket connects creates v s'.service).0
            ≡ (if connects name && creates then some c.raw_fd else none))
        × (find v.uuid s'.service.sessions
            ≡ some (record { client_ip = ip; system_id = []; state = text "OPEN" }))
  unfolding get_socket
  handle_connection_claimed shell systemd_run connects creates splits runs c s ip remote ok word inv
        room =
      let uuid = generate_session_id c.ts c.rnd in
      let v : Arguments = record {
        uuid = uuid;
        client_ip = ip;
        server_svc = text "com.telecom.smpp.Server";
      } in
      let (service, log) = admit_lem ip c s in
      let (entered, listed, signalled) = register_session_lists uuid c.raw_fd ip s.service in
      rw (admitted_lem c s ip remote ok) (
        build_launch_command uuid ip,
        v,
        log,
        launch_arguments shell systemd_run splits runs c.ts c.rnd ip word,
        refl,
        claim_socket-get_socket connects creates v (admit ip c s).service c.raw_fd refl (
            rw (service, register_session-registry uuid c.raw_fd ip s.service)
              (claim_fd-add uuid c.raw_fd ip s.service.registry inv room).0),
        rw service (listed uuid ∙ rw (entered ∙ room, =t=_refl uuid) refl),
      )

  -- An IPv4 client comes to the server's IPv6 socket with an address such as ::ffff:10.0.0.1, which
  -- `inet_pton` does not take for one of IPv4: unless the whitelist has a line with this very text, the
  -- connection is refused whatever networks it lists, and the server stays as it is.
  pub mapped_refused :
      (c : Connection) (s : Server) (address : Text)
      → ((ip : Text) → starts_with (text "::ffff:") ip ≡ true → inet_pton ip ≡ none)
      → c.remote ≡ some (text "::ffff:" ++ address)
      → contains (text "::ffff:" ++ address) s.validator.exact_set ≡ false
      → handle_connection inet_pton c s ≡ s
  unfolding handle_connection is_allowed starts_with
  mapped_refused c s address v6 remote unlisted =
      rw (remote, unlisted, v6 (text "::ffff:" ++ address) refl) refl
