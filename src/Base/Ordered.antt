-- ===== src/Base/Ordered.antt =====
-- Texts in lexicographic order, and `std::map<std::string, V>`: a dictionary whose entries stand in
-- the order of their keys, which is the order in which the program goes through them.
use mathlib.Core.Bool.{Bool, true, false}
use mathlib.Core.List.{[], ◌∷◌}
use mathlib.Core.Logic.{inl, inr}
use mathlib.Core.Option.{some}
use mathlib.Core.Path.{◌≡◌, refl}
use native.Mathlib.Omega.{arith}
use opensmsc.Base.Dict.{Dict, find, erase}
use opensmsc.Base.Tests.{
  Text, ◌=t=◌, =t=_iff, =t=_true, =t=_sym, ltb, ◌==◌, if◌then◌else◌, Bool-cases,
}

-- `operator<` of `std::string`.
unfoldable pub text_lt : Text → Text → Bool
text_lt s [] = false
text_lt [] (y ∷ t) = true
text_lt (x ∷ s) (y ∷ t) = if x == y then text_lt s t else ltb x y

text_lt_total : (s t : Text) → (s =t= t) ≡ false → text_lt s t ≡ false → text_lt t s ≡ true
unfolding text_lt ◌=t=◌
text_lt_total [] [] h k = cc
text_lt_total [] (y ∷ t) h k = cc
text_lt_total (x ∷ s) [] h k = refl
text_lt_total (x ∷ s) (y ∷ t) h k = ground (arith, text_lt_total s t)

pub text_lt_trans : (s t u : Text) → text_lt s t ≡ true → text_lt t u ≡ true → text_lt s u ≡ true
unfolding text_lt
text_lt_trans s t [] h k = cc
text_lt_trans s [] (z ∷ u) h k = cc
text_lt_trans [] (y ∷ t) (z ∷ u) h k = refl
text_lt_trans (x ∷ s) (y ∷ t) (z ∷ u) h k = ground (arith, text_lt_trans s t u)

pub text_lt_irrefl : (s : Text) → text_lt s s ≡ false
unfolding text_lt
text_lt_irrefl [] = refl
text_lt_irrefl (x ∷ s) = ground (arith, text_lt_irrefl s)

module _ {V : Type 0} where
  -- `m[k] = v` at the key's place.
  unfoldable pub insert_ordered : Text → V → Dict V → Dict V
  insert_ordered k v [] = (k, v) ∷ []
  insert_ordered k v ((j, w) ∷ m) =
      if j =t= k
      then (j, v) ∷ m
      else if text_lt k j
      then (k, v) ∷ (j, w) ∷ m
      else (j, w) ∷ insert_ordered k v m

  pub find-insert_ordered :
      (k i : Text) (v : V) (m : Dict V)
      → find i (insert_ordered k v m) ≡ (if k =t= i then some v else find i m)
  unfolding find insert_ordered
  find-insert_ordered k i v [] = refl
  find-insert_ordered k i v ((j, w) ∷ m) =
      ground (arith, =t=_iff k i, =t=_iff j k, =t=_iff j i, find-insert_ordered k i v m)

  -- Every key is above `k`, and so on along the entries.
  abbrev pub Above : Text → Dict V → Type 0
  Above k [] = Unit {0}
  Above k ((j, w) ∷ m) = (text_lt k j ≡ true) × Above j m

  abbrev pub IsSorted : Dict V → Type 0
  IsSorted [] = Unit {0}
  IsSorted ((j, w) ∷ m) = Above j m

  insert_ordered-Above :
      (b k : Text) (v : V) (m : Dict V)
      → text_lt b k ≡ true
      → Above b m
      → Above b (insert_ordered k v m)
  unfolding insert_ordered
  insert_ordered-Above b k v [] h a = (h, tt)
  insert_ordered-Above b k v ((j, w) ∷ m) h a =
      ground
        (arith, text_lt_total j k, text_lt_total k j, =t=_sym j k, insert_ordered-Above j k v m)

  pub insert_ordered-IsSorted :
      (k : Text) (v : V) (m : Dict V) → IsSorted m → IsSorted (insert_ordered k v m)
  unfolding insert_ordered
  insert_ordered-IsSorted k v [] h = tt
  insert_ordered-IsSorted k v ((j, w) ∷ m) h =
      ground (arith, text_lt_total k j, =t=_sym j k, insert_ordered-Above j k v m)

  Above-mono : (a b : Text) (m : Dict V) → text_lt a b ≡ true → Above b m → Above a m
  Above-mono a b [] h k = tt
  Above-mono a b ((j, w) ∷ m) h k = (text_lt_trans a b j h k.0, k.1)

  erase-Above : (b k : Text) (m : Dict V) → Above b m → Above b (erase k m)
  unfolding erase
  erase-Above b k [] h = tt
  erase-Above b k ((j, w) ∷ m) h = elim (Bool-cases (j =t= k)) [
    | inl e ↦ rw e (Above-mono b j m h.0 h.1)
    | inr e ↦ rw e (h.0, erase-Above j k m h.1)
  ]

  pub Above-IsSorted : (b : Text) (m : Dict V) → Above b m → IsSorted m
  Above-IsSorted b [] h = tt
  Above-IsSorted b ((j, w) ∷ m) h = h.1

  pub erase-IsSorted : (k : Text) (m : Dict V) → IsSorted m → IsSorted (erase k m)
  unfolding erase
  erase-IsSorted k [] h = tt
  erase-IsSorted k ((j, w) ∷ m) h = elim (Bool-cases (j =t= k)) [
    | inl e ↦ rw e (Above-IsSorted j m h)
    | inr e ↦ rw e (erase-Above j k m h)
  ]

  -- A key that is found behind a bound is above it.
  pub find-Above :
      (b k : Text) (v : V) (m : Dict V) → Above b m → find k m ≡ some v → text_lt b k ≡ true
  unfolding find
  find-Above b k v [] h e = cc
  find-Above b k v ((j, w) ∷ m) h e = elim (Bool-cases (j =t= k)) [
    | inl same ↦ rw (← =t=_true j k same) h.0
    | inr ne ↦ text_lt_trans b j k h.0 (find-Above j k v m h.1 (rw ne at e))
  ]
