-- ===== src/Base/Tests.antt =====
-- Boolean tests on the native numbers and on texts, the conditional, and case splits.
use Prim.Native.Char.{code}
use Prim.Native.Nat.{ℕ, ◌≤◌, ◌<◌, ◌%◌, ◌^◌, compare, Ordering}
use Prim.Native.String.{String}
use mathlib.Core.Path.{◌≡◌, refl}
use mathlib.Core.Logic.{◌↔◌, ◌⊎◌, inl, inr}
use mathlib.Core.Bool.{Bool, true, false, ◌&&◌, ◌||◌}
use mathlib.Core.Option.{Option, none, some}
use mathlib.Core.List.{List, [], ◌∷◌}
use native.Mathlib.Omega.{arith}

abbrev pub ltb : ℕ → ℕ → Bool
ltb a b = elim (compare a b) [ Ordering.lt ↦ true | _ ↦ false ]

abbrev pub leb : ℕ → ℕ → Bool
leb a b = elim (compare a b) [ Ordering.gt ↦ false | _ ↦ true ]

infix 50 ◌==◌
abbrev pub ◌==◌ : ℕ → ℕ → Bool
a == b = elim (compare a b) [ Ordering.eq ↦ true | _ ↦ false ]

infix 1 if◌then◌else◌
abbrev pub if◌then◌else◌ {ℓ} : {A : Type ℓ} → Bool → A → A → A
if true then x else y = x
if false then x else y = y

pub ltb→lt : (a b : ℕ) → ltb a b ≡ true → a < b
ltb→lt a b h = ground arith

pub lt→ltb : (a b : ℕ) → a < b → ltb a b ≡ true
lt→ltb a b h = ground arith

pub le→ltb_false : (a b : ℕ) → b ≤ a → ltb a b ≡ false
le→ltb_false a b h = ground arith

pub le→leb : (a b : ℕ) → a ≤ b → leb a b ≡ true
le→leb a b h = ground arith

pub lt→leb_false : (a b : ℕ) → b < a → leb a b ≡ false
lt→leb_false a b h = ground arith

pub ==_iff : (a b : ℕ) → ((a == b) ≡ true) ↔ (a ≡ b)
==_iff a b = ground arith

pub ==_refl : (a : ℕ) → (a == a) ≡ true
==_refl a = ground arith

pub Bool-cases : (b : Bool) → (b ≡ true) ⊎ (b ≡ false)
Bool-cases true = inl refl
Bool-cases false = inr refl

pub Option-cases {ℓ} : {A : Type ℓ} (o : Option A) → (o ≡ none) ⊎ ((a : A) × (o ≡ some a))
Option-cases none = inl refl
Option-cases (some a) = inr (a, refl)

-- The fixed widths of C++, by their wrap-around.
abbrev pub u8 : ℕ → ℕ
u8 n = n % 2 ^ 8

abbrev pub u32 : ℕ → ℕ
u32 n = n % 2 ^ 32

-- `std::string`: its bytes.
abbrev pub Text : Type 0
Text = List ℕ

-- The bytes of an ASCII literal.
abbrev pub text : String → Text
text String.[] = []
text (String.◌∷◌ c s) = code c ∷ text s

infix 50 ◌=t=◌
unfoldable pub ◌=t=◌ : Text → Text → Bool
[] =t= [] = true
[] =t= (y ∷ t) = false
(x ∷ s) =t= [] = false
(x ∷ s) =t= (y ∷ t) = x == y && s =t= t

pub =t=_true : (s t : Text) → (s =t= t) ≡ true → s ≡ t
unfolding ◌=t=◌
=t=_true [] [] h = refl
=t=_true [] (y ∷ t) h = cc
=t=_true (x ∷ s) [] h = cc
=t=_true (x ∷ s) (y ∷ t) h = ground (arith, =t=_true s t)

pub =t=_refl : (s : Text) → (s =t= s) ≡ true
unfolding ◌=t=◌
=t=_refl [] = refl
=t=_refl (x ∷ s) = ground (arith, =t=_refl s)

pub =t=_sym : (s t : Text) → (s =t= t) ≡ (t =t= s)
unfolding ◌=t=◌
=t=_sym [] [] = refl
=t=_sym [] (y ∷ t) = refl
=t=_sym (x ∷ s) [] = refl
=t=_sym (x ∷ s) (y ∷ t) = ground (arith, =t=_sym s t)

pub =t=_iff : (s t : Text) → ((s =t= t) ≡ true) ↔ (s ≡ t)
=t=_iff s t = (=t=_true s t, λ e. rw e (=t=_refl t))

pub or_true : (b : Bool) → (b || true) ≡ true
or_true true = refl
or_true false = refl
