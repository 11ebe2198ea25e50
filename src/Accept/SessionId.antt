-- ===== src/Accept/SessionId.antt =====
-- `generate_session_id`. `ts` is the count of milliseconds of the clock and `rnd` what the generator
-- gives, both of type `uint64_t`.
use opensmsc.Base.{
  Text, [], ap, arith, bit_and, drop, drop-append_length, get_elem?, if◌then◌else◌, length, ltb,
  refl, some, suc, sym, take, take-append_length, zero, ℕ, ◌%◌, ◌*◌, ◌++◌, ◌+◌, ◌-◌, ◌/◌, ◌<◌, ◌^◌,
  ◌∙◌, ◌∷◌, ◌≡◌, drop-suc, get_elem?-drop, length-append, ◌≤◌,
}
use opensmsc.Session.Submit.{hex_digit, hex_digits}
use opensmsc.Session.Answers.{length-hex_digits}
use opensmsc.Base.Bits.{bit_and-low}
use native.Mathlib.Nat.{pow-succ'}

-- `setw(12)` and `setw(16)` are the lengths of the longest numbers.
unfoldable pub generate_session_id : ℕ → ℕ → Text
generate_session_id ts rnd =
    hex_digits 12 (bit_and ts 0xFFFF_FFFF_FFFF) ++ (b'-' ∷ hex_digits 16 rnd)

-- The value of a hexadecimal digit, and of digits behind a number.
abbrev hex_value : ℕ → ℕ
hex_value c = if ltb c b'a' then c - b'0' else c - b'a' + 10

unfoldable pub from_hex : ℕ → Text → ℕ
from_hex v [] = v
from_hex v (c ∷ s) = from_hex (v * 16 + hex_value c) s

hex_value-hex_digit : (d : ℕ) → d < 16 → hex_value (hex_digit d) ≡ d
hex_value-hex_digit d h = ground arith

from_hex-append :
    (v : ℕ) (s : Text) (c : ℕ) → from_hex v (s ++ (c ∷ [])) ≡ from_hex v s * 16 + hex_value c
unfolding from_hex
from_hex-append v [] c = refl
from_hex-append v (d ∷ s) c = from_hex-append (v * 16 + hex_value d) s c

from_hex-hex_digits : (k v : ℕ) → v < 16 ^ k → from_hex 0 (hex_digits k v) ≡ v
unfolding hex_digits
from_hex-hex_digits zero v h = unfold from_hex in omega arith
from_hex-hex_digits (suc k) v h =
    let step : 16 ^ suc k ≡ 16 * 16 ^ k = pow-succ' 16 k in
    let small : v / 16 < 16 ^ k = omega arith in
    from_hex-append 0 (hex_digits k (v / 16)) (hex_digit (v % 16))
    ∙ rw (from_hex-hex_digits k (v / 16) small, hex_value-hex_digit (v % 16) (omega arith))
        (omega arith)

masked : (ts : ℕ) → bit_and ts 0xFFFF_FFFF_FFFF ≡ ts % 2 ^ 48
masked ts = bit_and-low 48 ts

-- A session identifier is read back: twelve hexadecimal digits of the clock's 48 low bits, a dash, and
-- sixteen of a random number of 64 bits.
pub session_id_lem :
    (ts rnd : ℕ)
    → rnd < 2 ^ 64
    → let id = generate_session_id ts rnd in
      (from_hex 0 (take 12 id) ≡ ts % 2 ^ 48)
      × (get_elem? id 12 ≡ some b'-')
      × (from_hex 0 (drop 13 id) ≡ rnd)
      × (length id ≡ 29)
unfolding generate_session_id
session_id_lem ts rnd h =
    let front = hex_digits 12 (bit_and ts 0xFFFF_FFFF_FFFF) in
    let back = hex_digits 16 rnd in
    let size : length front ≡ 12 = length-hex_digits 12 _ in
    let first : take 12 (front ++ (b'-' ∷ back)) ≡ front =
      ap (λ n. take n (front ++ (b'-' ∷ back))) (sym size)
      ∙ take-append_length front (b'-' ∷ back) in
    let rest : drop 12 (front ++ (b'-' ∷ back)) ≡ b'-' ∷ back =
      ap (λ n. drop n (front ++ (b'-' ∷ back))) (sym size)
      ∙ drop-append_length front (b'-' ∷ back) in
    let more : length (b'-' ∷ back) ≡ 17 = ap suc (length-hex_digits 16 rnd) in
    (
      ap (from_hex 0) first ∙ from_hex-hex_digits 12 _ (rw (masked ts) (omega arith)) ∙ masked ts,
      get_elem?-drop 12 (front ++ (b'-' ∷ back)) b'-' back rest,
      ap (from_hex 0) (drop-suc 12 (front ++ (b'-' ∷ back)) b'-' back rest)
          ∙ from_hex-hex_digits 16 rnd h,
      omega (arith, length-append front (b'-' ∷ back)),
    )

hex_digits-front :
    (k v : ℕ)
    → v < 10 * 16 ^ k
    → (c : ℕ) × (s : Text) × (hex_digits (suc k) v ≡ c ∷ s) × (b'0' ≤ c) × (c ≤ b'9')
unfolding hex_digits
hex_digits-front zero v h = (hex_digit (v % 16), [], refl, ground arith, ground arith)
hex_digits-front (suc k) v h =
    let step : 16 ^ suc k ≡ 16 * 16 ^ k = pow-succ' 16 k in
    let (c, s, e, lo, hi) = hex_digits-front k (v / 16) (omega arith) in
    (c, s ++ (hex_digit (v % 16) ∷ []), ap (λ t. t ++ (hex_digit (v % 16) ∷ [])) e, lo, hi)

-- Before the year 7500, when the clock passes 10 * 2^44 milliseconds, a session identifier begins with a
-- decimal digit.
pub session_id_digit :
    (ts rnd : ℕ)
    → ts < 10 * 2 ^ 44
    → (c : ℕ) × (s : Text) × (generate_session_id ts rnd ≡ c ∷ s) × (b'0' ≤ c) × (c ≤ b'9')
unfolding generate_session_id
session_id_digit ts rnd h =
    let (c, s, e, lo, hi) =
      hex_digits-front 11 (bit_and ts 0xFFFF_FFFF_FFFF) (rw (masked ts) (omega arith)) in
    (c, s ++ (b'-' ∷ hex_digits 16 rnd), ap (λ t. t ++ (b'-' ∷ hex_digits 16 rnd)) e, lo, hi)
