-- ===== src/Validator/Tests.antt =====
-- A concrete file and resolver, on which the theorems about the whitelist are applied.
use opensmsc.Validator.Whitelist.{Answers32, line_allows, load_config_allows, some_line_allows}
use opensmsc.Validator.Lines.{
  digits_value, split_at_slash, stoi, stoi_digits, stoi_sign, trim, trim_left, trim_right,
}
use opensmsc.Base.{
  List, Option, Text, [], arith, if◌then◌else◌, none, refl, some, true, ℕ, ◌=t=◌, ◌∷◌, ◌≡◌, text,
}
use opensmsc.Validator.State.{is_allowed, load_config, load_lines, load_trimmed, valid_prefix}

-- A resolver that knows two texts.
abbrev resolve : Text → Option ℕ
resolve t =
    if t =t= text "10.0.0.0"
    then some 0x0A00_0000
    else if t =t= text "10.1.2.3"
    then some 0x0A01_0203
    else none

Answers32-resolve : Answers32 resolve
Answers32-resolve t a e = ground arith

abbrev file : List Text
file = text "# clients" ∷ text " ::1 " ∷ text "10.0.0.0/8" ∷ text "" ∷ []

load_config_allows_example :
    is_allowed resolve (text "10.1.2.3") (load_config resolve file).1
    ≡ some_line_allows resolve (text "10.1.2.3") file
unfolding load_config load_lines load_trimmed trim trim_left trim_right split_at_slash stoi
    stoi_sign stoi_digits digits_value valid_prefix ◌=t=◌
load_config_allows_example =
    load_config_allows resolve (text "10.1.2.3") file Answers32-resolve refl

-- The range lets in an address that agrees with it.
lets_in : some_line_allows resolve (text "10.1.2.3") file ≡ true
unfolding some_line_allows line_allows trim trim_left trim_right split_at_slash stoi stoi_sign
    stoi_digits digits_value valid_prefix ◌=t=◌
lets_in = refl
