-- ===== src/Startup/Tests.antt =====
-- Concrete command lines, worlds and threads, on which the theorems about start and stop are applied.
use opensmsc.Startup.Others.{handler_main_lem}
use opensmsc.Startup.Launched.{launched_handler_fails}
use opensmsc.Accept.Shell.{shell, shell-join, systemd_run, systemd_run_options}
use opensmsc.Session.Submit.{hex_digits}
use opensmsc.Startup.Whitelisted.{happen_whitelisted}
use opensmsc.Accept.Connection.{Connection, admit, handle_connection, launch_client_handler}
use opensmsc.Base.Dict.{find}
use opensmsc.Base.Ordered.{insert_ordered, text_lt}
use opensmsc.Registry.State.{add}
use opensmsc.Accept.SessionId.{generate_session_id}
use opensmsc.Validator.Whitelist.{some_line_allows, Answers32}
use opensmsc.Accept.Admitted.{accepted, happen}
use opensmsc.Service.State.{SessionInfo, create_service, register_session}
use opensmsc.Accept.Launch.{starts_with, build_launch_command, main_arguments, read_arguments}
use opensmsc.Settings.State.{stoul, stoul_digits, stoul_sign}
use opensmsc.Startup.Reference.{last_value, main_options_lem, stopper}
use opensmsc.Startup.Process.{terminated, exit_failure, exited}
use opensmsc.Validator.Lines.{digits_value, trim_left, split_at_slash, trim, trim_right}
use opensmsc.Startup.Outcome.{all_start, is_ready, server_main_lem, serves_all}
use opensmsc.Startup.Options.{main_options, parsed, read_options}
use opensmsc.Base.{
  List, Option, Text, [], false, none, refl, some, true, ℕ, ◌=t=◌, ◌∷◌, ◌≡◌, text, ◌<◌, ◌≤◌, ◌⊎◌,
  arith, Bool, drop, leb, not, or_true, ◌&&◌, ◌++◌, ◌==◌, ◌||◌,
}
use opensmsc.Validator.State.{
  load_config, load_lines, Validator, contains, is_allowed, load_trimmed,
}
use opensmsc.Startup.Stop.{next, here, signal_came, Running, serve_with, ended, ◌⇒◌, signal_ends}
use opensmsc.Registry.State.{create as create_registry}
use opensmsc.Startup.Mains.{Host, caller_threw, server_main, handler_main}

abbrev arguments : List Text
arguments = text "--port=1" ∷ text "--log-level=debug" ∷ text "--port=70000" ∷ []

main_options_lem_example :
    main_options none (some (text "2776")) (text "simple_smpp_server" ∷ arguments)
    ≡ parsed (record {
      port = 4464;
      ip_config = text "/etc/simple_smpp_server/allowed_ips.conf";
      log_level_str = text "debug";
    })
unfolding last_value stopper starts_with ◌=t=◌ stoul stoul_sign stoul_digits trim_left digits_value
main_options_lem_example =
    main_options_lem none (some (text "2776")) (text "simple_smpp_server") arguments

-- An empty file that can be opened, a bus that answers, four processors, and a port that is taken.
abbrev busy_port : Host
busy_port = record {
  lines_of = λ path. some [];
  toml_of = λ path. none;
  connects = λ name. true;
  creates = true;
  serves = true;
  finishes = true;
  claims = λ uuid. true;
  awaits = true;
  starts = λ n. true;
  listens = λ port. false;
  cores = 4;
  served = caller_threw;
}

abbrev no_addresses : Text → Option ℕ
no_addresses s = none

server_main_lem_example : server_main no_addresses busy_port none none (text "s" ∷ []) ≡ terminated
unfolding load_config load_lines serves_all is_ready all_start main_options read_options
server_main_lem_example = server_main_lem no_addresses busy_port none none (text "s" ∷ [])

-- A signal reaches a server with one worker.
abbrev told : Running
told = record (serve_with 1) { waits = false; stopped = true; left = true }

abbrev steps : ℕ
steps = 1

signal_ends_example :
    ((told.waits ≡ true) × (steps ≡ 0))
    ⊎ ((told.waits ≡ false)
        × (steps ≤ 6)
        × (((steps ≡ 6) × (told.place ≡ ended) × (told.workers ≡ 0) × (told.looping ≡ false))
            ⊎ ((steps < 6) × (t : Running) × (told ⇒ t))))
signal_ends_example = signal_ends 1 steps told (next here (signal_came refl refl))

-- A file of one address, and a connection from it.
abbrev lines : List Text
lines = text "::1" ∷ []

abbrev whitelist : Validator
whitelist = record { exact_set = text "::1" ∷ []; cidrs = [] }

abbrev with_file : Host
with_file = record busy_port { lines_of = λ path. some lines }

abbrev local : Connection
local = record { remote = some (text "::1"); raw_fd = 7; ts = 1; rnd = 2; rc = 0 }

abbrev uuid : Text
uuid = generate_session_id 1 2

abbrev listed_info : SessionInfo
listed_info = record { client_ip = text "::1"; system_id = []; state = text "OPEN" }

Answers32-no_addresses : Answers32 no_addresses
Answers32-no_addresses t a e = ground arith

happen_whitelisted_example : some_line_allows no_addresses (text "::1") lines ≡ true
happen_whitelisted_example =
    happen_whitelisted no_addresses (text "f") with_file lines whitelist refl
      (unfold load_config load_lines load_trimmed trim trim_left trim_right split_at_slash in refl)
      Answers32-no_addresses (accepted local ∷ []) uuid listed_info (tt, tt)
      (unfold happen handle_connection is_allowed contains admit register_session create_service add
          create_registry generate_session_id hex_digits launch_client_handler find insert_ordered
          text_lt ◌=t=◌ in
        refl)

-- A bus that refuses the names of the handlers, as D-Bus does those with an element such as 0195f3a7.
abbrev digit : ℕ → Bool
digit c = leb b'0' c && leb c b'9'

unfoldable has_digit_element : Text → Bool
has_digit_element [] = false
has_digit_element (a ∷ []) = false
has_digit_element (a ∷ c ∷ s) = (a == b'.' && digit c) || has_digit_element (c ∷ s)

has_digit_element_found :
    (front s : Text) (c : ℕ)
    → b'0' ≤ c
    → c ≤ b'9'
    → has_digit_element (front ++ (b'.' ∷ c ∷ s)) ≡ true
unfolding has_digit_element
has_digit_element_found [] s c lo hi = ground arith
has_digit_element_found (a ∷ []) s c lo hi = rw (has_digit_element_found [] s c lo hi) (or_true _)
has_digit_element_found (a ∷ b ∷ front) s c lo hi =
    rw (has_digit_element_found (b ∷ front) s c lo hi) (or_true _)

abbrev strict_bus : Host
strict_bus = record busy_port { connects = λ name. not (has_digit_element name) }

launched_handler_fails_example :
    handler_main strict_bus (
      systemd_run (
        drop 1
          (shell (build_launch_command (generate_session_id 0x0195_F3A7_B2C1 2) (text "::1")))))
    ≡ exited exit_failure
launched_handler_fails_example =
    launched_handler_fails shell systemd_run strict_bus shell-join systemd_run_options
      (λ front s c lo hi. rw (has_digit_element_found front s c lo hi) refl) 0x0195_F3A7_B2C1 2
      (text "::1") (omega arith) (omega arith, refl)

-- Without arguments there is only the message of how to use it.
handler_main_lem_example :
    handler_main strict_bus (text "smpp_client_handler" ∷ []) ≡ exited exit_failure
unfolding main_arguments read_arguments
handler_main_lem_example = handler_main_lem strict_bus (text "smpp_client_handler" ∷ [])
