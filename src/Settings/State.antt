-- ===== src/Settings/State.antt =====
-- `Config::load`. toml++ is not in the repository: `load` takes what `parse_file` gives, by the values of
-- the keys that it reads, or `none` where it throws. An `int64_t` is given by its 64 bits, as a number
-- below 2^64, so that the casts to unsigned types are remainders.
use opensmsc.Base.{
  Bool, Option, Text, [], false, if◌then◌else◌, ltb, none, some, true, u32, ℕ, ◌%◌, ◌&&◌, ◌-◌, ◌==◌,
  ◌^◌, ◌∷◌, text,
}
use mathlib.Core.Option
use opensmsc.Base.Dict.{or_default}
use opensmsc.Validator.Lines.{digits_value, is_digit, trim_left}

pub record ServerConfig : Type 0 where
  pub port : ℕ
  pub ip_whitelist : Text
  pub max_connections_per_ip : ℕ

pub record SessionConfig : Type 0 where
  pub enquire_link_interval_sec : ℕ
  pub enquire_link_timeout_sec : ℕ

pub record AuthConfig : Type 0 where
  pub credentials_file : Text

pub record LoggingConfig : Type 0 where
  pub level : Text

pub record Config : Type 0 where
  pub server : ServerConfig
  pub session : SessionConfig
  pub auth : AuthConfig
  pub logging : LoggingConfig

-- A default-constructed `Config`.
abbrev pub default_config : Config
default_config = record {
  server = record {
    port = 2775;
    ip_whitelist = text "/etc/smpp-server/allowed_ips.conf";
    max_connections_per_ip = 5;
  };
  session = record { enquire_link_interval_sec = 60; enquire_link_timeout_sec = 10 };
  auth = record { credentials_file = text "/etc/smpp-server/credentials.toml" };
  logging = record { level = text "info" };
}

-- The tables of the file, each by the values that have the type that is asked for.
pub record ServerTable : Type 0 where
  pub port_value : Option ℕ
  pub whitelist_value : Option Text
  pub max_value : Option ℕ

pub record SessionTable : Type 0 where
  pub interval_value : Option ℕ
  pub timeout_value : Option ℕ

pub record Tables : Type 0 where
  pub server_table : Option ServerTable
  pub session_table : Option SessionTable
  pub auth_table : Option (Option Text)
  pub logging_table : Option (Option Text)

abbrev pub u16 : ℕ → ℕ
u16 n = n % 2 ^ 16

abbrev pub read_server : Option ServerTable → ServerConfig → ServerConfig
read_server none c = c
read_server (some t) c = record {
  port = or_default (Option.map u16 t.port_value) c.port;
  ip_whitelist = or_default t.whitelist_value c.ip_whitelist;
  max_connections_per_ip = or_default (Option.map u32 t.max_value) c.max_connections_per_ip;
}

abbrev pub read_session : Option SessionTable → SessionConfig → SessionConfig
read_session none c = c
read_session (some t) c = record {
  enquire_link_interval_sec =
      or_default (Option.map u32 t.interval_value) c.enquire_link_interval_sec;
  enquire_link_timeout_sec = or_default (Option.map u32 t.timeout_value) c.enquire_link_timeout_sec;
}

-- A table of one text.
abbrev pub read_text : Option (Option Text) → Text → Text
read_text none t = t
read_text (some v) t = or_default v t

-- What the file makes of the defaults.
unfoldable pub configured : Tables → Config
configured tbl = record {
  server = read_server tbl.server_table default_config.server;
  session = read_session tbl.session_table default_config.session;
  auth = record {
    credentials_file = read_text tbl.auth_table default_config.auth.credentials_file;
  };
  logging = record { level = read_text tbl.logging_table default_config.logging.level };
}

-- `std::stoul` behind spaces and sign: a digit must stand there, and the value must fit 64 bits.
unfoldable pub stoul_digits : Bool → Text → Option ℕ
stoul_digits negative [] = none
stoul_digits negative (c ∷ s) =
    let value = digits_value 0 (c ∷ s) in
    if is_digit c && ltb value (2 ^ 64)
    then some (if negative then (2 ^ 64 - value) % 2 ^ 64 else value)
    else none

unfoldable pub stoul_sign : Text → Option ℕ
stoul_sign [] = none
stoul_sign (c ∷ s) =
    if c == b'-'
    then stoul_digits true s
    else if c == b'+'
    then stoul_digits false s
    else stoul_digits false (c ∷ s)

unfoldable pub stoul : Text → Option ℕ
stoul s = stoul_sign (trim_left s)

-- `none` is the exception of `stoul`.
unfoldable pub env_uint16 : Option Text → ℕ → Option ℕ
env_uint16 none fallback = some fallback
env_uint16 (some v) fallback = Option.map u16 (stoul v)

-- The parsed file and the variable SMPP_PORT; `none` is an exception.
unfoldable pub load_config : Option Tables → Option Text → Option Config
load_config none env = none
load_config (some tbl) env =
    let cfg = configured tbl in
    Option.map (λ (port : ℕ). record cfg { server = record cfg.server { port = port } })
      (env_uint16 env cfg.server.port)
