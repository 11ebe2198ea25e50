-- ===== src/Accept/Tests.antt =====
-- A concrete server, shell and `systemd-run`, on which the theorems about accepting are applied.
use opensmsc.Accept.Shell.{shell, shell-join, systemd_run, systemd_run_options}
use opensmsc.Accept.Acceptor.{aborted, accept_all, accept_all_lem, connected, failed, listen}
use opensmsc.Accept.Refused.{refused_leaks}
use opensmsc.Registry.Count.{run, run_counts}
use opensmsc.Registry.State.{create, add}
use opensmsc.Service.Sessions.{updates}
use opensmsc.Validator.State.{is_allowed, contains}
use opensmsc.Accept.Claimed.{handle_connection_claimed, mapped_refused}
use opensmsc.Base.Dict.{find}
use opensmsc.Service.State.{SessionInfo, create_service, get_socket}
use opensmsc.Accept.Words.{launch_arguments}
use opensmsc.Accept.SessionId.{generate_session_id, session_id_digit}
use opensmsc.Accept.Connection.{Connection, Server, command_run, handle_connection, socket_released}
use opensmsc.Accept.Launch.{Arguments, build_launch_command, main_arguments, claim_socket}
use opensmsc.Base.{
  List, Option, Text, [], arith, drop, none, refl, some, true, ℕ, ◌∷◌, ◌≡◌, ◌≤◌, text, ◌=t=◌, Bool,
}
use opensmsc.Accept.Admitted.{Event, accepted, called, happen}

abbrev ip : Text
ip = text "10.0.0.1"

abbrev resolve : Text → Option ℕ
resolve t = none

abbrev server : Server
server = record {
  validator = record { exact_set = ip ∷ []; cidrs = [] };
  service = create_service (create 2);
  log = [];
}

abbrev connection : Connection
connection = record {
  remote = some ip;
  raw_fd = 7;
  ts = 0x0195_F3A7_B2C1;
  rnd = 0xA3F8_D901_C4B7_2E5D;
  rc = 0;
}

session_id_digit_example :
    (c : ℕ) × (s : Text) × (generate_session_id 0x0195_F3A7_B2C1 5 ≡ c ∷ s)
    × (b'0' ≤ c)
    × (c ≤ b'9')
session_id_digit_example = session_id_digit 0x0195_F3A7_B2C1 5 (omega arith)

launch_arguments_example :
    main_arguments
      (systemd_run (drop 1 (shell (build_launch_command (generate_session_id 5 6) ip))))
    ≡ some (record {
      uuid = generate_session_id 5 6;
      client_ip = ip;
      server_svc = text "com.telecom.smpp.Server";
    })
launch_arguments_example =
    launch_arguments shell systemd_run shell-join systemd_run_options 5 6 ip (omega arith, refl)

abbrev events : List Event
events =
    accepted connection
    ∷ called (updates (generate_session_id 5 6) (text "esme") (text "BOUND_TX"))
    ∷ []

abbrev uuid : Text
uuid = generate_session_id connection.ts connection.rnd

abbrev listed_info : SessionInfo
listed_info = record { client_ip = ip; system_id = []; state = text "OPEN" }

-- A bus that gives every name away.
abbrev any_name : Text → Bool
any_name name = true

handle_connection_claimed_example :
    let s' = handle_connection resolve connection server in
    (command : Text) × (v : Arguments) × (s'.log ≡ command_run command ∷ socket_released 7 ∷ [])
    × (main_arguments (systemd_run (drop 1 (shell command))) ≡ some v)
    × (v.client_ip ≡ ip)
    × ((claim_socket any_name true v s'.service).0 ≡ some 7)
    × (find v.uuid s'.service.sessions ≡ some listed_info)
unfolding create_service run
handle_connection_claimed_example =
    handle_connection_claimed resolve shell systemd_run any_name true shell-join systemd_run_options
      connection server ip refl (unfold is_allowed contains ◌=t=◌ in refl) (omega arith, refl)
      (run_counts 2 [] (omega arith) tt) (unfold create_service add create find in refl)

abbrev mapped : Connection
mapped = record connection { remote = some (text "::ffff:172.17.0.9") }

mapped_refused_example : handle_connection resolve mapped server ≡ server
mapped_refused_example =
    mapped_refused resolve mapped server (text "172.17.0.9") (λ t h. refl) refl
      (unfold contains ◌=t=◌ in refl)

-- A server whose registry admits nobody.
abbrev full : Server
full = record server { service = create_service (create 0) }

refused_leaks_example :
    let s' = handle_connection resolve connection full in
    (s'.log ≡ command_run (build_launch_command uuid ip) ∷ socket_released 7 ∷ [])
    × (s'.service.registry.sessions ≡ full.service.registry.sessions)
    × (s'.service.sessions ≡ full.service.sessions)
    × ((get_socket uuid s'.service).0 ≡ none)
refused_leaks_example =
    refused_leaks resolve connection full ip refl (unfold is_allowed contains ◌=t=◌ in refl)
      (unfold create_service add create find in refl) (unfold create_service create find in refl)

accept_all_lem_example :
    let results = failed (text "accept") ∷ connected connection ∷ aborted ∷ [] in
    let a = accept_all resolve results (listen none server) in
    (a.server ≡ happen resolve (accepted connection ∷ []) server) × (a.awaited ≡ 1)
accept_all_lem_example =
    accept_all_lem resolve none server
      (failed (text "accept") ∷ connected connection ∷ aborted ∷ [])
