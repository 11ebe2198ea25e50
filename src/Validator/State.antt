-- ===== src/Validator/State.antt =====
-- `IpValidator`. `inet_pton` is the C library's, on the texts that it takes: `none` where it does not
-- answer 1, and otherwise the address in host-byte order. A set is a list: only membership is asked.
use opensmsc.Validator.Lines.{split_at_slash, stoi, trim}
use opensmsc.Base.{
  Bool, List, Option, Text, [], bit_and, false, if◌then◌else◌, ltb, none, some, true, u32, ℕ, ◌&&◌,
  ◌*◌, ◌++◌, ◌-◌, ◌==◌, ◌=t=◌, ◌^◌, ◌||◌, ◌∷◌,
}

pub record CidrV4 : Type 0 where
  pub network : ℕ
  pub mask : ℕ

pub record Validator : Type 0 where
  pub exact_set : List Text
  pub cidrs : List CidrV4

abbrev pub empty : Validator
empty = record { exact_set = []; cidrs = [] }

-- The mask of a prefix length.
unfoldable pub mask_of : ℕ → ℕ
mask_of prefix = if prefix == 0 then 0 else u32 ((2 ^ 32 - 1) * 2 ^ (32 - prefix))

-- `prefix < 0 || prefix > 32` is refused.
unfoldable pub valid_prefix : Bool × ℕ → Option ℕ
valid_prefix (negative, n) = if negative && ltb 0 n || ltb 32 n then none else some n

abbrev pub ignored : Text → Bool
ignored [] = true
ignored (c ∷ s) = c == b'#'

unfoldable pub matches_in : ℕ → List CidrV4 → Bool
matches_in addr [] = false
matches_in addr (c ∷ cs) =
    let rest = matches_in addr cs in if bit_and addr c.mask == c.network then true else rest

unfoldable pub contains : Text → List Text → Bool
contains ip [] = false
contains ip (t ∷ ts) = let rest = contains ip ts in if t =t= ip then true else rest

module _ (inet_pton : Text → Option ℕ) where
  -- A CIDR line from the parsed network on, from the prefix length on, and from `stoi` on, which
  -- throws where it gives `none`.
  abbrev pub load_network : ℕ → Option ℕ → Validator → Option Validator
  load_network prefix none v = some v
  load_network prefix (some net) v = some (record v {
    cidrs =
        v.cidrs ++ (record { network = bit_and net (mask_of prefix); mask = mask_of prefix } ∷ []);
  })

  abbrev pub load_prefix : Text → Option ℕ → Validator → Option Validator
  load_prefix network_str none v = some v
  load_prefix network_str (some prefix) v = load_network prefix (inet_pton network_str) v

  abbrev pub load_number : Text → Option (Bool × ℕ) → Validator → Option Validator
  load_number network_str none v = none
  load_number network_str (some number) v = load_prefix network_str (valid_prefix number) v

  -- A trimmed line without a slash, or cut there.
  abbrev pub load_parts : Text → Option (Text × Text) → Validator → Option Validator
  load_parts line none v = some (record v { exact_set = line ∷ v.exact_set })
  load_parts line (some (network_str, rest)) v = load_number network_str (stoi rest) v

  -- A line that has been trimmed.
  unfoldable pub load_trimmed : Text → Validator → Option Validator
  load_trimmed line v = if ignored line then some v else load_parts line (split_at_slash line) v

  -- The loop of `load_config`. If a line throws, the lines before it stay loaded.
  unfoldable pub load_lines : List Text → Validator → Bool × Validator
  load_lines [] v = (true, v)
  load_lines (line ∷ lines) v = elim (load_trimmed (trim line) v) [
    | none ↦ (false, v)
    | some v' ↦ load_lines lines v'
  ]

  -- `load_config` of a file that is open, with its lines.
  unfoldable pub load_config : List Text → Bool × Validator
  load_config lines = load_lines lines empty

  abbrev pub matches_cidr : Option ℕ → Validator → Bool
  matches_cidr none v = false
  matches_cidr (some addr) v = matches_in addr v.cidrs

  unfoldable pub is_allowed : Text → Validator → Bool
  is_allowed ip v = if contains ip v.exact_set then true else matches_cidr (inet_pton ip) v
