-- ===== src/Startup/Reference.antt =====
-- The options, by the last argument that sets each.
use mathlib.Core.Option
use mathlib.Core.Path.{fun_ext, ap}
use opensmsc.Accept.Launch.{starts_with}
use opensmsc.Base.Dict.{or_default}
use opensmsc.Settings.State.{stoul, u16}
use opensmsc.Startup.Options.{
  Options, Parsed, helped, parsed, uncaught, read_options, read_option, main_options, and_then,
  set_port, with_level,
}
use opensmsc.Base.{
  Bool, List, Option, Text, [], arith, drop, false, if◌then◌else◌, length, none, refl, some, text,
  true, ℕ, ◌++◌, ◌=t=◌, ◌∷◌, ◌≡◌, ◌||◌, subst, sym, ◌∙◌,
}

-- What stands behind the prefix p in the last argument that has it.
unfoldable pub last_value : Text → List Text → Option Text
last_value p [] = none
last_value p (a ∷ argv) = elim (last_value p argv) [
  | some v ↦ some v
  | none ↦ if starts_with p a then some (drop (length p) a) else none
]

abbrev is_help : Text → Bool
is_help a = a =t= text "--help" || a =t= text "-h"

abbrev is_none : Option ℕ → Bool
is_none none = true
is_none (some n) = false

abbrev bad_port : Text → Bool
bad_port a = if starts_with (text "--port=") a then is_none (stoul (drop 7 a)) else false

abbrev bad_variable : Option Text → Bool
bad_variable none = false
bad_variable (some v) = is_none (stoul v)

-- What ends the loop before the last argument: the first request for help, or the first port that is no
-- number.
unfoldable pub stopper : List Text → Option Parsed
stopper [] = none
stopper (a ∷ argv) =
    let rest = stopper argv in
    if bad_port a then some uncaught else if is_help a then some helped else rest

-- The number of a text; where this is used, there is one.
abbrev pub number : Text → ℕ
number v = or_default (stoul v) 0

abbrev with_last : List Text → Options → Options
with_last argv o = record {
  port = or_default (Option.map (λ v. u16 (number v)) (last_value (text "--port=") argv)) o.port;
  ip_config = or_default (last_value (text "--ip-config=") argv) o.ip_config;
  log_level_str = or_default (last_value (text "--log-level=") argv) o.log_level_str;
}

abbrev reference : List Text → Options → Parsed
reference argv o = or_default (stopper argv) (parsed (with_last argv o))

starts_with-append : (p a : Text) → starts_with p a ≡ true → a ≡ p ++ drop (length p) a
unfolding starts_with
starts_with-append [] a h = refl
starts_with-append (c ∷ p) [] h = cc
starts_with-append (c ∷ p) (d ∷ a) h = ground (arith, starts_with-append p a)

-- A text has one of two prefixes at most that are not prefixes of each other, such as these three.
port_only :
    (a : Text)
    → starts_with (text "--port=") a ≡ true
    → (starts_with (text "--ip-config=") a ≡ false)
      × (starts_with (text "--log-level=") a ≡ false)
      × (is_help a ≡ false)
unfolding starts_with ◌=t=◌
port_only a h =
    subst
      (λ a.
        (starts_with (text "--ip-config=") a ≡ false)
        × (starts_with (text "--log-level=") a ≡ false)
        × (is_help a ≡ false))
      (sym (starts_with-append (text "--port=") a h)) (refl, refl, refl)

ip_config_only :
    (a : Text)
    → starts_with (text "--ip-config=") a ≡ true
    → (starts_with (text "--log-level=") a ≡ false) × (is_help a ≡ false)
unfolding starts_with ◌=t=◌
ip_config_only a h =
    subst (λ a. (starts_with (text "--log-level=") a ≡ false) × (is_help a ≡ false))
      (sym (starts_with-append (text "--ip-config=") a h)) (refl, refl)

log_level_only : (a : Text) → starts_with (text "--log-level=") a ≡ true → is_help a ≡ false
unfolding starts_with ◌=t=◌
log_level_only a h =
    subst (λ a. is_help a ≡ false) (sym (starts_with-append (text "--log-level=") a h)) refl

reference-cons :
    (a : Text) (argv : List Text) (o : Options)
    → and_then (read_option a o) (reference argv) ≡ reference (a ∷ argv) o
unfolding read_option last_value stopper
reference-cons a argv o = ground (arith, port_only a, ip_config_only a, log_level_only a)

read_options-reference : (argv : List Text) (o : Options) → read_options argv o ≡ reference argv o
unfolding read_options last_value stopper
read_options-reference [] o = refl
read_options-reference (a ∷ argv) o =
    ap (and_then (read_option a o)) (fun_ext (read_options-reference argv))
    ∙ reference-cons a argv o

-- The server runs with the values of the last arguments that set them, else with those of the variables,
-- else with the defaults, the port cut to 16 bits. It does not if SMPP_PORT or, before any request for
-- help, a --port is no number, which is an exception, or if help is asked for before that.
pub main_options_lem :
    (env_level env_port : Option Text) (program : Text) (argv : List Text)
    → main_options env_level env_port (program ∷ argv) ≡ (
        if bad_variable env_port
        then uncaught
        else or_default (stopper argv) (
            parsed (record {
              port = u16 (
                  or_default
                    (Option.map number (last_value (text "--port=") argv))
                    (or_default (Option.map number env_port) 2775));
              ip_config =
                  or_default
                    (last_value (text "--ip-config=") argv)
                    (text "/etc/simple_smpp_server/allowed_ips.conf");
              log_level_str =
                  or_default
                    (last_value (text "--log-level=") argv)
                    (or_default env_level (text "info"));
            })))
unfolding main_options
main_options_lem env_level none program argv = read_options-reference argv _ ∙ ground arith
main_options_lem env_level (some v) program argv =
    ap (and_then (set_port (stoul v) (with_level env_level)))
      (fun_ext (read_options-reference argv))
    ∙ ground arith
