-- ===== src/Validator/Lines.antt =====
-- What `load_config` does to the text of a line, by the standard library: trimming, `find` of a slash,
-- and `std::stoi`.
use opensmsc.Base.{
  Bool, Option, Text, [], false, if◌then◌else◌, leb, ltb, none, some, true, ℕ, ◌&&◌, ◌*◌, ◌+◌, ◌-◌,
  ◌==◌, ◌^◌, ◌||◌, ◌∷◌,
}
use mathlib.Core.Option

-- `std::isspace` in the C locale.
abbrev pub is_space : ℕ → Bool
is_space c = c == 32 || leb 9 c && leb c 13

unfoldable pub trim_left : Text → Text
trim_left [] = []
trim_left (c ∷ s) = let rest = trim_left s in if is_space c then rest else c ∷ s

abbrev pub put_unless_space : ℕ → Text → Text
put_unless_space c [] = if is_space c then [] else c ∷ []
put_unless_space c (d ∷ s) = c ∷ d ∷ s

unfoldable pub trim_right : Text → Text
trim_right [] = []
trim_right (c ∷ s) = put_unless_space c (trim_right s)

unfoldable pub trim : Text → Text
trim s = trim_right (trim_left s)

-- `line.find('/')`, as what stands before the first slash and what stands behind it.
unfoldable pub split_at_slash : Text → Option (Text × Text)
split_at_slash [] = none
split_at_slash (c ∷ s) =
    let rest = split_at_slash s in
    if c == b'/' then some ([], s) else Option.map (λ (p : Text × Text). (c ∷ p.0, p.1)) rest

abbrev pub is_digit : ℕ → Bool
is_digit c = leb b'0' c && leb c b'9'

-- The value of the digits at the front of a text, behind those of the value n.
unfoldable pub digits_value : ℕ → Text → ℕ
digits_value n [] = n
digits_value n (c ∷ s) =
    let rest = digits_value (n * 10 + (c - b'0')) s in if is_digit c then rest else n

-- `std::stoi` behind spaces and sign: a digit must stand there, and the value must fit an int.
unfoldable pub stoi_digits : Bool → Text → Option (Bool × ℕ)
stoi_digits negative [] = none
stoi_digits negative (c ∷ s) =
    let value = digits_value 0 (c ∷ s) in
    if is_digit c && ltb value (if negative then 2 ^ 31 + 1 else 2 ^ 31)
    then some (negative, value)
    else none

unfoldable pub stoi_sign : Text → Option (Bool × ℕ)
stoi_sign [] = none
stoi_sign (c ∷ s) =
    if c == b'-'
    then stoi_digits true s
    else if c == b'+'
    then stoi_digits false s
    else stoi_digits false (c ∷ s)

-- Whether the number is negative, and its magnitude; `none` is an exception.
unfoldable pub stoi : Text → Option (Bool × ℕ)
stoi s = stoi_sign (trim_left s)
