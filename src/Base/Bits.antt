-- ===== src/Base/Bits.antt =====
-- The bit operations at variables: the digit recursion, and the two facts that the code needs.
use Prim.Native.Nat.{
  ℕ, zero, suc, ◌+◌, ◌-◌, ◌*◌, ◌/◌, ◌%◌, ◌^◌, ◌≤◌, ◌<◌, min, max, digits, bit_and, bit_or,
  bit_and-bitwise, bit_or-bitwise,
}
use mathlib.Core.Path.{◌≡◌, refl, ap, ◌∙◌}
use native.Mathlib.Nat.{pow-suc, div-add-mod', add-mul-mod_self_right, mod-eq_of_lt, mod-lt}
use native.Mathlib.Omega.{arith}

module _ (z : ℕ → ℕ) (op : ℕ → ℕ → ℕ) where
  digits_enough : (n m a b : ℕ) → a ≤ n → a ≤ m → digits z op n a b ≡ digits z op m a b
  digits_enough zero zero a b p q = refl
  digits_enough zero (suc m) zero b p q = refl
  digits_enough (suc n) zero zero b p q = refl
  digits_enough (suc n) (suc m) zero b p q = refl
  digits_enough zero (suc m) (suc a) b p q = absurd (omega arith)
  digits_enough (suc n) zero (suc a) b p q = absurd (omega arith)
  digits_enough (suc n) (suc m) (suc a) b p q =
      omega (arith, digits_enough n m (suc a / 2) (b / 2) (omega arith) (omega arith))

pub bit_or_digit : (a b : ℕ) → bit_or a b ≡ bit_or (a / 2) (b / 2) * 2 + max (a % 2) (b % 2)
bit_or_digit zero b = omega (arith, bit_or-bitwise 0 b, bit_or-bitwise 0 (b / 2))
bit_or_digit (suc a) b = omega (
  arith,
  bit_or-bitwise (suc a) b,
  bit_or-bitwise (suc a / 2) (b / 2),
  digits_enough (λ y. y) max a (suc a / 2) (suc a / 2) (b / 2) (omega arith) (omega arith),
)

bit_or-zero_below : (n a : ℕ) → a ≤ n → bit_or a 0 ≡ a
bit_or-zero_below zero zero h = refl
bit_or-zero_below zero (suc a) h = absurd (omega arith)
bit_or-zero_below (suc n) zero h = refl
bit_or-zero_below (suc n) (suc a) h =
    omega (arith, bit_or_digit (suc a) 0, bit_or-zero_below n (suc a / 2) (omega arith))

pub bit_or-zero : (a : ℕ) → bit_or a 0 ≡ a
bit_or-zero a = bit_or-zero_below a a (omega arith)

halve : (a : ℕ) → a * 2 / 2 ≡ a
halve a = omega arith

double_pow : (a k : ℕ) → a * 2 ^ suc k ≡ a * 2 ^ k * 2
double_pow a k = rw pow-suc (omega arith)

-- Fields that share no bit are joined by addition.
pub bit_or-shifted : (k a b : ℕ) → b < 2 ^ k → bit_or (a * 2 ^ k) b ≡ a * 2 ^ k + b
bit_or-shifted zero a zero h = rw bit_or-zero (omega arith)
bit_or-shifted zero a (suc b) h = absurd (omega arith)
bit_or-shifted (suc k) a b h =
    let e : a * 2 ^ suc k ≡ a * 2 ^ k * 2 = double_pow a k in
    let two : 2 ^ suc k ≡ 2 ^ k * 2 = pow-suc 2 k in
    rw e (
      omega (
        arith,
        bit_or_digit (a * 2 ^ k * 2) b,
        ap (λ (t : ℕ). bit_or t (b / 2)) (halve (a * 2 ^ k)),
        bit_or-shifted k a (b / 2) (omega arith),
      ))

pub bit_or-shifted_right : (k a b : ℕ) → b < 2 ^ k → bit_or b (a * 2 ^ k) ≡ a * 2 ^ k + b
bit_or-shifted_right zero a zero h = omega (arith, bit_or-bitwise 0 (a * 1))
bit_or-shifted_right zero a (suc b) h = absurd (omega arith)
bit_or-shifted_right (suc k) a b h =
    let e : a * 2 ^ suc k ≡ a * 2 ^ k * 2 = double_pow a k in
    let two : 2 ^ suc k ≡ 2 ^ k * 2 = pow-suc 2 k in
    rw e (
      omega (
        arith,
        bit_or_digit b (a * 2 ^ k * 2),
        ap (λ (t : ℕ). bit_or (b / 2) t) (halve (a * 2 ^ k)),
        bit_or-shifted_right k a (b / 2) (omega arith),
      ))

pub bit_and_digit : (a b : ℕ) → bit_and a b ≡ bit_and (a / 2) (b / 2) * 2 + min (a % 2) (b % 2)
bit_and_digit zero b = omega (arith, bit_and-bitwise 0 b, bit_and-bitwise 0 (b / 2))
bit_and_digit (suc a) b = omega (
  arith,
  bit_and-bitwise (suc a) b,
  bit_and-bitwise (suc a / 2) (b / 2),
  digits_enough (λ y. 0) min a (suc a / 2) (suc a / 2) (b / 2) (omega arith) (omega arith),
)

bit_and-zero_below : (n a : ℕ) → a ≤ n → bit_and a 0 ≡ 0
bit_and-zero_below zero zero h = refl
bit_and-zero_below zero (suc a) h = absurd (omega arith)
bit_and-zero_below (suc n) zero h = refl
bit_and-zero_below (suc n) (suc a) h =
    omega (arith, bit_and_digit (suc a) 0, bit_and-zero_below n (suc a / 2) (omega arith))

pub bit_and-zero : (a : ℕ) → bit_and a 0 ≡ 0
bit_and-zero a = bit_and-zero_below a a (omega arith)

mod_double : (a m : ℕ) → 0 < m → a % (m * 2) ≡ a / 2 % m * 2 + a % 2
mod_double a m h =
    let e : a ≡ a / 2 % m * 2 + a % 2 + a / 2 / m * (m * 2) =
      omega (arith, div-add-mod' (a / 2) m) in
    ap (λ (t : ℕ). t % (m * 2)) e
    ∙ add-mul-mod_self_right _ _ _
    ∙ mod-eq_of_lt (omega (arith, mod-lt (a / 2) h))

pow-pos : (k : ℕ) → 0 < 2 ^ k
pow-pos zero = omega arith
pow-pos (suc k) = omega (arith, pow-suc 2 k, pow-pos k)

half_mask : (m : ℕ) → 0 < m → (m * 2 - 1) / 2 ≡ m - 1
half_mask m h = omega arith

-- A mask of `k` ones keeps the `k` lowest digits.
pub bit_and-low : (k a : ℕ) → bit_and a (2 ^ k - 1) ≡ a % 2 ^ k
bit_and-low zero a = rw bit_and-zero (omega arith)
bit_and-low (suc k) a = rw (pow-suc 2 k) (
    omega (
      arith,
      pow-pos k,
      bit_and_digit a (2 ^ k * 2 - 1),
      ap (λ (t : ℕ). bit_and (a / 2) t) (half_mask (2 ^ k) (pow-pos k)),
      bit_and-low k (a / 2),
      mod_double a (2 ^ k) (pow-pos k),
    ))
