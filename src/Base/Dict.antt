-- ===== src/Base/Dict.antt =====
-- A dictionary with texts for keys, as an association list: `std::unordered_map<std::string, V>`.
-- Only look-ups observe it, so the order of its entries is of no account.
use opensmsc.Base.Tests.{Text, ◌=t=◌, if◌then◌else◌, Bool-cases, =t=_iff, =t=_sym}
use mathlib.Core.Path.{◌≡◌, refl, ◌∙◌}
use mathlib.Core.Bool.{false}
use mathlib.Core.Logic.{inl, inr}
use mathlib.Core.Option.{Option, none, some}
use mathlib.Core.List.{List, [], ◌∷◌}
use native.Mathlib.Omega.{arith}

abbrev pub Dict : Type 0 → Type 0
Dict V = List (Text × V)

module _ {V : Type 0} where
  unfoldable pub find : Text → Dict V → Option V
  find k [] = none
  find k ((j, v) ∷ m) = if j =t= k then some v else find k m

  -- `m[k] = v`
  unfoldable pub insert : Text → V → Dict V → Dict V
  insert k v [] = (k, v) ∷ []
  insert k v ((j, w) ∷ m) = if j =t= k then (j, v) ∷ m else (j, w) ∷ insert k v m

  unfoldable pub erase : Text → Dict V → Dict V
  erase k [] = []
  erase k ((j, w) ∷ m) = if j =t= k then m else (j, w) ∷ erase k m

  abbrev pub or_default : Option V → V → V
  or_default none d = d
  or_default (some v) d = v

  -- No key stands twice.
  abbrev pub Unique : Dict V → Type 0
  Unique [] = Unit {0}
  Unique ((k, v) ∷ m) = (find k m ≡ none) × Unique m

  pub find-insert :
      (k i : Text) (v : V) (m : Dict V)
      → find i (insert k v m) ≡ (if k =t= i then some v else find i m)
  unfolding find insert
  find-insert k i v [] = refl
  find-insert k i v ((j, w) ∷ m) =
      ground (arith, =t=_iff k i, =t=_iff j k, =t=_iff j i, find-insert k i v m)

  pub find-erase_ne : (k i : Text) (m : Dict V) → (k =t= i) ≡ false → find i (erase k m) ≡ find i m
  unfolding find erase
  find-erase_ne k i [] h = refl
  find-erase_ne k i ((j, w) ∷ m) h =
      ground (arith, =t=_iff j k, =t=_iff j i, =t=_iff k i, find-erase_ne k i m h)

  pub find-erase : (k : Text) (m : Dict V) → Unique m → find k (erase k m) ≡ none
  unfolding find erase
  find-erase k [] h = refl
  find-erase k ((j, w) ∷ m) h = ground (arith, =t=_iff j k, find-erase k m h.1)

  pub insert-Unique : (k : Text) (v : V) (m : Dict V) → Unique m → Unique (insert k v m)
  unfolding insert
  insert-Unique k v [] h = (unfold find in refl, tt)
  insert-Unique k v ((j, w) ∷ m) h = elim (Bool-cases (j =t= k)) [
    | inl e ↦ rw e h
    | inr e ↦ rw e (rw (find-insert k j v m, =t=_sym k j, e) h.0, insert-Unique k v m h.1)
  ]

  pub erase-Unique : (k : Text) (m : Dict V) → Unique m → Unique (erase k m)
  unfolding erase
  erase-Unique k [] h = tt
  erase-Unique k ((j, w) ∷ m) h = elim (Bool-cases (j =t= k)) [
    | inl e ↦ rw e h.1
    | inr e ↦ rw e (rw (find-erase_ne k j m (=t=_sym k j ∙ e)) h.0, erase-Unique k m h.1)
  ]
