-- ===== src/Startup/Options.antt =====
-- The environment and the command line of the server and of the authenticator.
-- SMPPServer/include/logger.hpp, `level_from_string`, is here too.
use opensmsc.Accept.Launch.{starts_with}
use opensmsc.Base.Dict.{or_default}
use opensmsc.Base.{
  List, Option, Text, [], drop, if◌then◌else◌, none, some, text, ℕ, ◌=t=◌, ◌||◌, ◌∷◌,
}
use opensmsc.Settings.State.{stoul, u16}

-- The levels of spdlog that the code names.
pub data Level : Type 0 where
  trace debug info warn err critical : Level

unfoldable level_from_string : Text → Level
level_from_string s =
    if s =t= text "trace"
    then trace
    else if s =t= text "debug"
    then debug
    else if s =t= text "info"
    then info
    else if s =t= text "warn" || s =t= text "warning"
    then warn
    else if s =t= text "error" || s =t= text "err"
    then err
    else if s =t= text "critical" || s =t= text "fatal"
    then critical
    else info

-- The variables of the server's `main` that its arguments set.
pub record Options : Type 0 where
  pub port : ℕ
  pub ip_config : Text
  pub log_level_str : Text

abbrev pub default_options : Options
default_options = record {
  port = 2775;
  ip_config = text "/etc/simple_smpp_server/allowed_ips.conf";
  log_level_str = text "info";
}

-- The variables behind the loop, or how `main` ended before: with the usage message and EXIT_SUCCESS,
-- or by the exception of `std::stoul`, which nothing catches.
pub data Parsed : Type 0 where
  parsed : Options → Parsed
  helped uncaught : Parsed

abbrev pub set_port : Option ℕ → Options → Parsed
set_port none o = uncaught
set_port (some n) o = parsed (record o { port = u16 n })

-- One round of the loop over `argv`.
unfoldable pub read_option : Text → Options → Parsed
read_option a o =
    if starts_with (text "--port=") a
    then set_port (stoul (drop 7 a)) o
    else if starts_with (text "--ip-config=") a
    then parsed (record o { ip_config = drop 12 a })
    else if starts_with (text "--log-level=") a
    then parsed (record o { log_level_str = drop 12 a })
    else if a =t= text "--help" || a =t= text "-h"
    then helped
    else parsed o

-- `main` goes on only with variables.
abbrev pub and_then : Parsed → (Options → Parsed) → Parsed
and_then (parsed o) f = f o
and_then helped f = helped
and_then uncaught f = uncaught

unfoldable pub read_options : List Text → Options → Parsed
read_options [] o = parsed o
read_options (a ∷ argv) o = and_then (read_option a o) (read_options argv)

abbrev pub arguments_of : List Text → List Text
arguments_of [] = []
arguments_of (program ∷ argv) = argv

-- SMPP_PORT, where it is set.
abbrev pub read_env_port : Option Text → Options → Parsed
read_env_port none o = parsed o
read_env_port (some env) o = set_port (stoul env) o

-- The first variables, with SMPP_LOG_LEVEL where it is set.
abbrev pub with_level : Option Text → Options
with_level env_level = record default_options {
  log_level_str = or_default env_level default_options.log_level_str;
}

-- From SMPP_LOG_LEVEL, SMPP_PORT and `argv` to the variables.
unfoldable pub main_options : Option Text → Option Text → List Text → Parsed
main_options env_level env_port argv =
    and_then (read_env_port env_port (with_level env_level)) (read_options (arguments_of argv))

-- The authenticator: its default, SMPP_CREDENTIALS, and the loop over its arguments.
abbrev pub default_credentials : Text
default_credentials = text "/etc/smpp-server/credentials.toml"

unfoldable pub read_credentials : List Text → Text → Text
read_credentials [] path = path
read_credentials (a ∷ argv) path =
    read_credentials argv (if starts_with (text "--credentials=") a then drop 14 a else path)

unfoldable pub creds_path : Option Text → List Text → Text
creds_path env argv = read_credentials (arguments_of argv) (or_default env default_credentials)
