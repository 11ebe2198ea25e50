-- ===== src/Startup/Logging.antt =====
-- The loggers: SMPPServer/include/logger.hpp and Common/src/logger.cpp. Of spdlog the registry by name, the
-- default logger and the levels are modelled; patterns, colours, rotation and flushing only change how and
-- when a message is shown.
use opensmsc.Startup.Options.{Level, critical, debug, err, info, trace, warn}
use opensmsc.Base.Dict.{Dict, Unique, erase, find, find-erase, insert}
use opensmsc.Base.{
  Bool, List, Option, Text, [], arith, false, if◌then◌else◌, leb, length, map, none, refl,
  replicate, some, true, ℕ, ◌++◌, ◌-◌, ◌∷◌, ◌≡◌, text,
}
use mathlib.Core.Option

-- The outputs of a logger, and the least level that each lets through.
pub data Target : Type 0 where
  stdout journal : Target
  file : Text → Target

pub record Sink : Type 0 where
  pub target : Target
  pub level : Level

pub record Logger : Type 0 where
  pub name : Text
  pub sinks : List Sink
  pub level : Level

abbrev severity : Level → ℕ
severity trace = 0
severity debug = 1
severity info = 2
severity warn = 3
severity err = 4
severity critical = 5

-- The outputs that get a message of a level: the logger and the sink both let it through.
unfoldable targets_in : Level → List Sink → List Target
targets_in level [] = []
targets_in level (s ∷ sinks) =
    let rest = targets_in level sinks in
    if leb (severity s.level) (severity level) then s.target ∷ rest else rest

unfoldable targets : Level → Logger → List Target
targets level l = if leb (severity l.level) (severity level) then targets_in level l.sinks else []

-- The server's `logger::init`, by whether the file can be opened.
unfoldable init : Bool → Text → Level → Logger
init opens path level = record {
  name = text "smpp";
  sinks =
      record { target = stdout; level = level }
      ∷ (if opens then record { target = file path; level = level } ∷ [] else []);
  level = level;
}

-- The LOG_ macros put the module before the message, filled up to twenty characters.
abbrev fill_right : ℕ → Text → Text
fill_right n s = s ++ replicate (n - length s) b' '

unfoldable log_line : Text → Text → Text
log_line component message = b'[' ∷ (fill_right 20 component ++ (text "] " ++ message))

-- spdlog's registry, and `s_logger` of the common library.
pub record Loggers : Type 0 where
  pub registry : Dict Logger
  pub s_logger : Option Logger

-- `register_logger` throws for a name that is registered.
unfoldable register_logger : Logger → Dict Logger → Option (Dict Logger)
register_logger l registry = elim (find l.name registry) [
  | none ↦ some (insert l.name l registry)
  | some l2 ↦ none
]

abbrev common_logger : Bool → Text → Logger
common_logger journal_opens service_name = record {
  name = service_name;
  sinks = record { target = if journal_opens then journal else stdout; level = trace } ∷ [];
  level = trace;
}

-- `Logger::init`, by whether the sink of the journal can be made.
unfoldable common_init : Bool → Text → Loggers → Option Loggers
common_init journal_opens service_name s =
    let l = common_logger journal_opens service_name in
    Option.map (λ (registry : Dict Logger). record { registry = registry; s_logger = some l })
      (register_logger l (erase service_name s.registry))

pub record LogContext : Type 0 where
  pub session_id : Text
  pub client_ip : Text
  pub system_id : Text

unfoldable format : LogContext → Text → Text
format ctx msg =
    text "[sid="
    ++ ctx.session_id
    ++ text " ip="
    ++ ctx.client_ip
    ++ text " sys="
    ++ ctx.system_id
    ++ text "] "
    ++ msg

-- `Logger::info`, `warn`, `error` and `debug` by their level: what each output gets.
unfoldable log : Level → Text → Loggers → List (Target × Text)
log level msg s = elim s.s_logger [
  | none ↦ []
  | some l ↦ map (λ (t : Target). (t, msg)) (targets level l)
]

unfoldable log_with : Level → LogContext → Text → Loggers → List (Target × Text)
log_with level ctx msg s = log level (format ctx msg) s

-- Both outputs of the server take the same messages: those of at least the level that it was given.
targets-init :
    (level least : Level) (opens : Bool) (path : Text)
    → targets level (init opens path least) ≡ (
        if leb (severity least) (severity level)
        then stdout ∷ (if opens then file path ∷ [] else [])
        else [])
unfolding targets targets_in init
targets-init level least true path = ground arith
targets-init level least false path = ground arith

register_logger_new :
    (l : Logger) (registry : Dict Logger)
    → find l.name registry ≡ none
    → register_logger l registry ≡ some (insert l.name l registry)
unfolding register_logger
register_logger_new l registry h = rw (register_logger, h) refl

common_init_lem :
    (opens : Bool) (service_name : Text) (s : Loggers)
    → Unique s.registry
    → let l = common_logger opens service_name in
      common_init opens service_name s
      ≡ some (record {
        registry = insert service_name l (erase service_name s.registry);
        s_logger = some l;
      })
unfolding common_init
common_init_lem opens service_name s u =
    rw
      (
        common_init,
        register_logger_new (common_logger opens service_name) (erase service_name s.registry)
            (find-erase service_name s.registry u),
      )
      refl

-- Behind an `init`, which does not throw, each message is written once, to the journal or else to stdout.
log-common_init :
    (opens : Bool) (service_name : Text) (level : Level) (msg : Text) (s : Loggers)
    → Unique s.registry
    → (s' : Loggers) × (common_init opens service_name s ≡ some s')
      × (log level msg s' ≡ (if opens then journal else stdout, msg) ∷ [])
unfolding log targets targets_in
log-common_init opens service_name level msg s u =
    (_, common_init_lem opens service_name s u, ground arith)
