-- ===== src/Framer/Tests.antt =====
-- Concrete PDUs, on which the theorems about the framer are applied.
use opensmsc.Base.{List, [], arith, refl, true, ℕ, ◌++◌, ◌∷◌, ◌≡◌}
use opensmsc.Framer.Reassembly.{complete, feed_all, feed_all_reassembles, joined}
use opensmsc.Framer.Invariant.{Inv, feed_bytes-Inv, reset-Inv}
use opensmsc.Framer.State.{feed_bytes, reset}

abbrev front : List ℕ
front = 0 ∷ 0 ∷ 0 ∷ 18 ∷ 0 ∷ []

abbrev back : List ℕ
back = 0 ∷ 0 ∷ 4 ∷ 0 ∷ 0 ∷ 0 ∷ 0 ∷ 0 ∷ 0 ∷ 0 ∷ 1 ∷ []

abbrev letters : List ℕ
letters = 65 ∷ 66 ∷ []

feed_bytes-Inv_example : Inv (feed_bytes front reset).0
feed_bytes-Inv_example = feed_bytes-Inv front reset reset-Inv

feed_all_reassembles_example :
    feed_all (letters ∷ []) (feed_all (front ∷ back ∷ []) reset).0
    ≡ (complete 18 4 0 1 (joined (front ∷ back ∷ []) ++ joined (letters ∷ [])), true)
feed_all_reassembles_example =
    feed_all_reassembles 18 4 0 1 front (back ∷ []) letters [] (omega arith) (omega arith)
      (omega arith) (omega arith) (omega arith, (omega arith, tt)) (omega arith, tt) refl refl
