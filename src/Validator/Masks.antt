-- ===== src/Validator/Masks.antt =====
-- The masks of the prefix lengths.
use opensmsc.Validator.State.{mask_of}
use opensmsc.Base.{
  ap, arith, bit_and, suc, zero, ℕ, ◌%◌, ◌*◌, ◌+◌, ◌-◌, ◌/◌, ◌<◌, ◌==◌, ◌^◌, ◌≡◌, ◌≤◌, ==_iff,
  ==_refl, Bool-cases, inl, inr, refl, sym, u32, ◌∙◌, false,
}
use native.Mathlib.Nat.{
  pow-suc, pow-succ', add-mul, add-mul-mod_self_right, mod-eq_of_lt, div-div-eq-div-mul,
  mul-div_cancel, div-lt_iff_lt-mul,
}
use opensmsc.Base.Bits.{bit_and-low, bit_and_digit}

two_pow_pos : (k : ℕ) → 0 < 2 ^ k
two_pow_pos zero = omega arith
two_pow_pos (suc k) = omega (arith, pow-suc 2 k, two_pow_pos k)

-- A mask of n ones above k zeros.
bit_and-mask : (n k a : ℕ) → bit_and a ((2 ^ n - 1) * 2 ^ k) ≡ a / 2 ^ k % 2 ^ n * 2 ^ k
bit_and-mask n zero a =
    let e1 : (2 ^ n - 1) * 1 ≡ 2 ^ n - 1 = omega arith in
    let e2 : a / 1 ≡ a = omega arith in rw (e1, e2, bit_and-low n a) (omega arith)
bit_and-mask n (suc k) a =
    let x = (2 ^ n - 1) * 2 ^ k in
    let e1 : (2 ^ n - 1) * 2 ^ suc k ≡ x * 2 = rw pow-suc (omega arith) in
    let e2 : x * 2 / 2 ≡ x = omega arith in
    let e3 : a / 2 ^ suc k ≡ a / 2 / 2 ^ k =
      rw (pow-succ' 2 k) (sym (div-div-eq-div-mul a 2 (2 ^ k))) in
    let e4 : a / 2 / 2 ^ k % 2 ^ n * 2 ^ suc k ≡ a / 2 / 2 ^ k % 2 ^ n * 2 ^ k * 2 =
      rw pow-suc (omega arith) in
    rw (e1, e3, e4)
      (omega (
        arith,
        bit_and_digit a (x * 2),
        ap (λ (t : ℕ). bit_and (a / 2) t) e2,
        bit_and-mask n k (a / 2),
      ))

pred_mul : (p k : ℕ) → 0 < p → (p - 1) * k + k ≡ p * k
pred_mul zero k h = absurd (omega arith)
pred_mul (suc p) k h =
    let e1 : suc p - 1 ≡ p = omega arith in
    let e2 : suc p ≡ p + 1 = omega arith in rw (e1, e2, add-mul p 1 k) (omega arith)

two_pow_split : (p k : ℕ) → 2 ^ p * 2 ^ k ≡ 2 ^ (p + k)
two_pow_split zero k = let e : 0 + k ≡ k = omega arith in rw e (omega arith)
two_pow_split (suc p) k =
    let e1 : 2 ^ suc p ≡ 2 ^ p + 2 ^ p = omega (arith, pow-suc 2 p) in
    let e2 : 2 ^ (suc p + k) ≡ 2 ^ (p + k) * 2 =
      ap (λ (t : ℕ). 2 ^ t) {y = suc (p + k)} (omega arith) ∙ pow-suc 2 (p + k) in
    rw (e1, e2, add-mul) (omega (arith, two_pow_split p k))

-- The two parts of an address.
parts : (prefix : ℕ) → prefix ≤ 32 → 2 ^ prefix * 2 ^ (32 - prefix) ≡ 2 ^ 32
parts prefix h = two_pow_split prefix (32 - prefix) ∙ ap (λ (t : ℕ). 2 ^ t) {y = 32} (omega arith)

shifted_ones : (p k : ℕ) → 0 < p → 0 < k → p * k ≡ 2 ^ 32 → u32 ((2 ^ 32 - 1) * k) ≡ (p - 1) * k
shifted_ones p k hp hk e =
    let e1 : (2 ^ 32 - 1) * k ≡ (p - 1) * k + (k - 1) * 2 ^ 32 = omega (arith, pred_mul p k hp) in
    rw (e1, add-mul-mod_self_right) (mod-eq_of_lt (omega (arith, pred_mul p k hp)))

mask_of-ones : (prefix : ℕ) → prefix ≤ 32 → mask_of prefix ≡ (2 ^ prefix - 1) * 2 ^ (32 - prefix)
unfolding mask_of
mask_of-ones zero h = refl
mask_of-ones (suc n) h =
    let e : (suc n == 0) ≡ false = ground arith in
    rw e (
      shifted_ones (2 ^ suc n) (2 ^ (32 - suc n)) (two_pow_pos (suc n)) (two_pow_pos (32 - suc n))
        (parts (suc n) h))

-- The part of a 32-bit address that a mask keeps.
masked :
    (prefix a : ℕ)
    → prefix ≤ 32
    → a < 2 ^ 32
    → bit_and a (mask_of prefix) ≡ a / 2 ^ (32 - prefix) * 2 ^ (32 - prefix)
masked prefix a h ha =
    let k = 2 ^ (32 - prefix) in
    let below : a / k < 2 ^ prefix =
      (div-lt_iff_lt-mul (two_pow_pos (32 - prefix))).1 (rw (parts prefix h) ha) in
    rw (mask_of-ones prefix h, bit_and-mask prefix (32 - prefix) a, mod-eq_of_lt below) refl

scaled_test : (x y k : ℕ) → 0 < k → (x * k == y * k) ≡ (x == y)
scaled_test x y k h = elim (Bool-cases (x == y)) [
  | inl e ↦ rw ((==_iff x y).0 e, ==_refl (y * k), ==_refl y)
  | inr ne ↦ elim (Bool-cases (x * k == y * k)) [
    | inl e ↦
        let same : x ≡ y =
          sym (mul-div_cancel x h)
          ∙ ap (λ (t : ℕ). t / k) ((==_iff (x * k) (y * k)).0 e)
          ∙ mul-div_cancel y h in
        absurd (ground (arith, (==_iff x y).1 same))
    | inr e ↦ rw (e, ne)
  ]
]

-- For a prefix of at most 32 bits and 32-bit addresses, the test by the prefix's mask is the comparison
-- of the first bits.
pub same_network :
    (prefix a net : ℕ)
    → prefix ≤ 32
    → a < 2 ^ 32
    → net < 2 ^ 32
    → (bit_and a (mask_of prefix) == bit_and net (mask_of prefix))
      ≡ (a / 2 ^ (32 - prefix) == net / 2 ^ (32 - prefix))
same_network prefix a net h ha hn =
    rw (masked prefix a h ha, masked prefix net h hn)
      (scaled_test _ _ _ (two_pow_pos (32 - prefix)))
