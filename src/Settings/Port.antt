-- ===== src/Settings/Port.antt =====
-- The port that a decimal number sets.
use opensmsc.Validator.Lines.{digits_value, is_digit, trim_left, is_space}
use opensmsc.Base.{
  Bool, Text, [], ap, arith, length, length-append, refl, some, suc, true, zero, ℕ, ◌%◌, ◌&&◌, ◌*◌,
  ◌++◌, ◌+◌, ◌-◌, ◌/◌, ◌<◌, ◌^◌, ◌∙◌, ◌∷◌, ◌≡◌, false, lt→ltb, ◌==◌,
}
use opensmsc.Settings.State.{
  Tables, configured, env_uint16, load_config, stoul, stoul_digits, stoul_sign,
}
use native.Mathlib.Nat.{pow-succ'}

-- The k last decimal digits of a number.
unfoldable pub decimal : ℕ → ℕ → Text
decimal zero n = []
decimal (suc k) n = decimal k (n / 10) ++ ((b'0' + n % 10) ∷ [])

abbrev pub all_digits : Text → Bool
all_digits [] = true
all_digits (c ∷ s) = is_digit c && all_digits s

all_digits-append :
    (s : Text) (c : ℕ) → all_digits s ≡ true → is_digit c ≡ true → all_digits (s ++ (c ∷ [])) ≡ true
all_digits-append [] c hs hc = rw hc refl
all_digits-append (d ∷ s) c hs hc = ground (arith, all_digits-append s c)

digit_is : (d : ℕ) → d < 10 → is_digit (b'0' + d) ≡ true
digit_is d h = ground arith

all_digits-decimal : (k n : ℕ) → all_digits (decimal k n) ≡ true
unfolding decimal
all_digits-decimal zero n = refl
all_digits-decimal (suc k) n =
    all_digits-append (decimal k (n / 10)) (b'0' + n % 10) (all_digits-decimal k (n / 10))
      (digit_is (n % 10) (omega arith))

digits_value-append :
    (v : ℕ) (s : Text) (c : ℕ)
    → all_digits s ≡ true
    → is_digit c ≡ true
    → digits_value v (s ++ (c ∷ [])) ≡ digits_value v s * 10 + (c - b'0')
unfolding digits_value
digits_value-append v [] c hs hc = rw hc refl
digits_value-append v (d ∷ s) c hs hc =
    let here : is_digit d ≡ true = ground arith in
    let more : all_digits s ≡ true = ground arith in
    rw here (digits_value-append (v * 10 + (d - b'0')) s c more hc)

digits_value-decimal : (k n : ℕ) → n < 10 ^ k → digits_value 0 (decimal k n) ≡ n
unfolding decimal
digits_value-decimal zero n h = unfold digits_value in omega arith
digits_value-decimal (suc k) n h =
    let step : 10 ^ suc k ≡ 10 * 10 ^ k = pow-succ' 10 k in
    let small : n / 10 < 10 ^ k = omega arith in
    digits_value-append 0 (decimal k (n / 10)) (b'0' + n % 10) (all_digits-decimal k (n / 10))
      (digit_is (n % 10) (omega arith))
    ∙ rw (digits_value-decimal k (n / 10) small) (omega arith)

digit_only :
    (c : ℕ)
    → is_digit c ≡ true
    → (is_space c ≡ false) × ((c == b'-') ≡ false) × ((c == b'+') ≡ false)
digit_only c h = ground arith

-- Digits, of which there is one, are read whole.
stoul_all :
    (s : Text)
    → 0 < length s
    → all_digits s ≡ true
    → digits_value 0 s < 2 ^ 64
    → stoul s ≡ some (digits_value 0 s)
unfolding stoul stoul_sign stoul_digits trim_left
stoul_all [] pos h small = absurd (omega arith)
stoul_all (c ∷ s) pos h small =
    let d : is_digit c ≡ true = ground arith in
    let (no_space, no_minus, no_plus) = digit_only c d in
    rw (no_space, no_minus, no_plus, d, lt→ltb _ _ small) refl

length-decimal : (k n : ℕ) → length (decimal k n) ≡ k
unfolding decimal
length-decimal zero n = refl
length-decimal (suc k) n =
    omega
      (arith, length-append (decimal k (n / 10)) ((b'0' + n % 10) ∷ []), length-decimal k (n / 10))

stoul-decimal : (k n : ℕ) → 0 < k → n < 10 ^ k → n < 2 ^ 64 → stoul (decimal k n) ≡ some n
stoul-decimal k n pos h small =
    let value = digits_value-decimal k n h in
    stoul_all (decimal k n) (rw (length-decimal k n) pos) (all_digits-decimal k n) (rw value small)
    ∙ ap some value

-- A number below 2^64 in the variable SMPP_PORT, in decimal and with any zeros before it, sets the port
-- to its remainder by 2^16, and everything else is as the file says.
pub load_config_port :
    (tbl : Tables) (k n : ℕ)
    → 0 < k
    → n < 10 ^ k
    → n < 2 ^ 64
    → let cfg = configured tbl in
      load_config (some tbl) (some (decimal k n))
      ≡ some (record cfg { server = record cfg.server { port = n % 2 ^ 16 } })
unfolding load_config env_uint16
load_config_port tbl k n pos h small = rw (stoul-decimal k n pos h small) refl
