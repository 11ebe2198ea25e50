-- ===== src/Validator/Whitelist.antt =====
-- The whitelist that `load_config` makes, line by line.
use mathlib.Core.Bool.{false≢true}
use opensmsc.Validator.Masks.{same_network}
use opensmsc.Validator.State.{
  CidrV4, Validator, ignored, is_allowed, mask_of, matches_in, valid_prefix, contains, load_lines,
  load_trimmed, load_config, load_network, load_number, load_parts, load_prefix, empty,
}
use opensmsc.Base.{
  Bool, List, Option, Option-cases, Text, [], arith, bit_and, false, if◌then◌else◌, inl, inr, none,
  refl, some, ℕ, ◌++◌, ◌-◌, ◌/◌, ◌<◌, ◌==◌, ◌=t=◌, ◌^◌, ◌||◌, ◌∷◌, ◌≡◌, ◌≤◌, true, ◌∙◌, Bool-cases,
  ap, subst,
}
use opensmsc.Validator.Lines.{split_at_slash, stoi, trim}

matches_in-append :
    (a : ℕ) (cs ds : List CidrV4) → matches_in a (cs ++ ds) ≡ (matches_in a cs || matches_in a ds)
unfolding matches_in
matches_in-append a [] ds = refl
matches_in-append a (c ∷ cs) ds = ground (arith, matches_in-append a cs ds)

-- The addresses that agree in their first `prefix` bits.
abbrev pub agrees : ℕ → ℕ → Option ℕ → Bool
agrees net prefix none = false
agrees net prefix (some a) = a / 2 ^ (32 - prefix) == net / 2 ^ (32 - prefix)

or_false : (b : Bool) → b ≡ (b || false)
or_false true = refl
or_false false = refl

or_last : (b x y : Bool) → (if b then true else (x || y)) ≡ ((if b then true else x) || y)
or_last true x y = refl
or_last false x y = refl

if_itself : (b : Bool) → (if b then true else false) ≡ b
if_itself true = refl
if_itself false = refl

or_first :
    (b c d : Bool) → (if (if b then true else c) then true else d) ≡ ((if c then true else d) || b)
or_first true true d = refl
or_first true false true = refl
or_first true false false = refl
or_first false true d = refl
or_first false false true = refl
or_first false false false = refl

or_assoc : (b c d : Bool) → ((b || c) || d) ≡ (b || (c || d))
or_assoc true c d = refl
or_assoc false c d = refl

valid_prefix_bound :
    (number : Bool × ℕ) (prefix : ℕ) → valid_prefix number ≡ some prefix → prefix ≤ 32
unfolding valid_prefix
valid_prefix_bound (negative, n) prefix e = ground arith

-- A network that is pushed lets in the addresses that agree with it.
one_network :
    (a net prefix : ℕ)
    → a < 2 ^ 32
    → net < 2 ^ 32
    → prefix ≤ 32
    → matches_in a (record { network = bit_and net (mask_of prefix); mask = mask_of prefix } ∷ [])
      ≡ (a / 2 ^ (32 - prefix) == net / 2 ^ (32 - prefix))
unfolding matches_in
one_network a net prefix ha hn hp =
    if_itself (bit_and a (mask_of prefix) == bit_and net (mask_of prefix))
    ∙ same_network prefix a net hp ha hn

module _ (inet_pton : Text → Option ℕ) where
  abbrev pub network_allows : Text → ℕ → Option ℕ → Bool
  network_allows ip prefix none = false
  network_allows ip prefix (some net) = agrees net prefix (inet_pton ip)

  abbrev pub prefix_allows : Text → Text → Option ℕ → Bool
  prefix_allows ip network_str none = false
  prefix_allows ip network_str (some prefix) = network_allows ip prefix (inet_pton network_str)

  abbrev pub number_allows : Text → Text → Option (Bool × ℕ) → Bool
  number_allows ip network_str none = false
  number_allows ip network_str (some number) = prefix_allows ip network_str (valid_prefix number)

  abbrev pub parts_allow : Text → Text → Option (Text × Text) → Bool
  parts_allow ip line none = line =t= ip
  parts_allow ip line (some (network_str, rest)) = number_allows ip network_str (stoi rest)

  -- What a line lets in: nothing if it is blank or a comment, the address that it is, or the addresses
  -- that agree with a network in its first bits.
  unfoldable pub line_allows : Text → Text → Bool
  line_allows ip line = if ignored line then false else parts_allow ip line (split_at_slash line)

  unfoldable pub some_line_allows : Text → List Text → Bool
  some_line_allows ip [] = false
  some_line_allows ip (line ∷ lines) =
      let rest = some_line_allows ip lines in line_allows ip (trim line) || rest

  -- A line's outcome: where it does not throw, the whitelist lets in what it did before and what the
  -- line allows.
  abbrev Adds : Text → Validator → Bool → Option Validator → Type 0
  Adds ip v allowed none = Unit {0}
  Adds ip v allowed (some v') = is_allowed inet_pton ip v' ≡ (is_allowed inet_pton ip v || allowed)

  -- inet_pton answers an address of 32 bits.
  abbrev pub Answers32 : Type 0
  Answers32 = (t : Text) (a : ℕ) → inet_pton t ≡ some a → a < 2 ^ 32

  push_cidr :
      (ip : Text) (net prefix : ℕ) (v : Validator)
      → Answers32
      → net < 2 ^ 32
      → prefix ≤ 32
      → is_allowed inet_pton ip (record v {
        cidrs =
            v.cidrs
            ++ (record { network = bit_and net (mask_of prefix); mask = mask_of prefix } ∷ []);
      })
        ≡ (is_allowed inet_pton ip v || agrees net prefix (inet_pton ip))
  unfolding is_allowed
  push_cidr ip net prefix v h hn hp = elim (Option-cases (inet_pton ip)) [
    | inl e ↦ rw e (or_false _)
    | inr (a, e) ↦
        rw (e, matches_in-append, one_network a net prefix (h ip a e) hn hp)
          (or_last (contains ip v.exact_set) (matches_in a v.cidrs) _)
  ]

  load_network-Adds :
      (ip : Text) (prefix : ℕ) (o : Option ℕ) (v : Validator)
      → Answers32
      → ((net : ℕ) → o ≡ some net → net < 2 ^ 32)
      → prefix ≤ 32
      → Adds ip v (network_allows ip prefix o) (load_network inet_pton prefix o v)
  load_network-Adds ip prefix none v h small hp = or_false _
  load_network-Adds ip prefix (some net) v h small hp =
      push_cidr ip net prefix v h (small net refl) hp

  load_prefix-Adds :
      (ip network_str : Text) (o : Option ℕ) (v : Validator)
      → Answers32
      → ((prefix : ℕ) → o ≡ some prefix → prefix ≤ 32)
      → Adds ip v (prefix_allows ip network_str o) (load_prefix inet_pton network_str o v)
  load_prefix-Adds ip network_str none v h small = or_false _
  load_prefix-Adds ip network_str (some prefix) v h small =
      load_network-Adds ip prefix (inet_pton network_str) v h (h network_str) (small prefix refl)

  load_number-Adds :
      (ip network_str : Text) (o : Option (Bool × ℕ)) (v : Validator)
      → Answers32
      → Adds ip v (number_allows ip network_str o) (load_number inet_pton network_str o v)
  load_number-Adds ip network_str none v h = tt
  load_number-Adds ip network_str (some number) v h =
      load_prefix-Adds ip network_str (valid_prefix number) v h (valid_prefix_bound number)

  push_exact :
      (ip line : Text) (v : Validator)
      → is_allowed inet_pton ip (record v { exact_set = line ∷ v.exact_set })
        ≡ (is_allowed inet_pton ip v || line =t= ip)
  unfolding is_allowed contains
  push_exact ip line v = elim (Option-cases (inet_pton ip)) [
    | inl e ↦ rw e (or_first (line =t= ip) (contains ip v.exact_set) false)
    | inr (a, e) ↦ rw e (or_first (line =t= ip) (contains ip v.exact_set) (matches_in a v.cidrs))
  ]

  load_parts-Adds :
      (ip line : Text) (o : Option (Text × Text)) (v : Validator)
      → Answers32
      → Adds ip v (parts_allow ip line o) (load_parts inet_pton line o v)
  load_parts-Adds ip line none v h = push_exact ip line v
  load_parts-Adds ip line (some (network_str, rest)) v h =
      load_number-Adds ip network_str (stoi rest) v h

  load_trimmed-Adds :
      (ip line : Text) (v : Validator)
      → Answers32
      → Adds ip v (line_allows ip line) (load_trimmed inet_pton line v)
  unfolding load_trimmed line_allows
  load_trimmed-Adds ip line v h = elim (Bool-cases (ignored line)) [
    | inl skipped ↦ rw skipped (or_false _)
    | inr kept ↦ rw kept (load_parts-Adds ip line (split_at_slash line) v h)
  ]

  load_lines_adds :
      (ip : Text) (lines : List Text) (v : Validator)
      → Answers32
      → (load_lines inet_pton lines v).0 ≡ true
      → is_allowed inet_pton ip (load_lines inet_pton lines v).1
        ≡ (is_allowed inet_pton ip v || some_line_allows ip lines)
  unfolding load_lines some_line_allows
  load_lines_adds ip [] v h e = or_false _
  load_lines_adds ip (line ∷ lines) v h e =
      elim (Option-cases (load_trimmed inet_pton (trim line) v)) [
        | inl threw ↦
            let never : false ≡ true = rw (threw, load_lines) at e in absurd (false≢true never)
        | inr (v', loaded) ↦
            let rest : (load_lines inet_pton lines v').0 ≡ true = rw (loaded, load_lines) at e in
            let added : Adds ip v (line_allows ip (trim line)) (some v') =
              subst (Adds ip v (line_allows ip (trim line))) loaded
                (load_trimmed-Adds ip (trim line) v h) in
            rw (loaded, load_lines)
              (load_lines_adds ip lines v' h rest
                ∙ ap (λ (b : Bool). b || some_line_allows ip lines) added
                ∙ or_assoc (is_allowed inet_pton ip v) _ _)
      ]

  empty_allows : (ip : Text) → is_allowed inet_pton ip empty ≡ false
  unfolding is_allowed contains matches_in
  empty_allows ip = elim (Option-cases (inet_pton ip)) [
    | inl e ↦ rw e refl
    | inr (a, e) ↦ rw e refl
  ]

  -- If `load_config` reads all lines of a file without an exception, and inet_pton answers addresses of
  -- 32 bits, the whitelist lets in exactly the addresses that some line allows: those that are the line,
  -- or agree with the line's network in as many first bits as the line says.
  pub load_config_allows :
      (ip : Text) (lines : List Text)
      → Answers32
      → (load_config inet_pton lines).0 ≡ true
      → is_allowed inet_pton ip (load_config inet_pton lines).1 ≡ some_line_allows ip lines
  unfolding load_config
  load_config_allows ip lines h e =
      load_lines_adds ip lines empty h e
      ∙ ap (λ (b : Bool). b || some_line_allows ip lines) (empty_allows ip)
