-- ===== src/Registry/Tests.antt =====
-- A concrete registry, on which the theorems about it are applied.
use opensmsc.Base.Dict.{erase, find, insert}
use opensmsc.Registry.State.{
  Registry, add, claim_fd, count, create, release, remove, set_max_per_ip,
}
use opensmsc.Registry.Limit.{IsWithin, add-spec_add, serve, serve_unlimited, spec_add}
use opensmsc.Base.{List, Text, [], arith, refl, true, ℕ, ◌=t=◌, ◌∷◌, ◌≡◌, text}
use opensmsc.Registry.Count.{
  AreFresh, Call, Inv, adds, claims, removes, run, run_counts, sets_max, step,
}

abbrev registry : Registry
registry = create 2

abbrev ip : Text
ip = text "10.0.0.1"

abbrev calls : List Call
calls =
    adds (text "a") 7 ip
    ∷ adds (text "b") 8 ip
    ∷ claims (text "a")
    ∷ removes (text "b")
    ∷ sets_max 3
    ∷ []

AreFresh-calls : AreFresh (create 2) calls
unfolding step add claim_fd remove set_max_per_ip release find insert erase create ◌=t=◌
AreFresh-calls = (refl, (refl, (tt, (tt, (omega arith, tt)))))

run_counts_example : Inv (run (create 2) calls)
run_counts_example = run_counts 2 calls (omega arith) AreFresh-calls

Inv-registry : Inv registry
unfolding create run
Inv-registry = run_counts 2 [] (omega arith) tt

add-spec_add_example :
    ((add (text "a") 7 ip registry).0, (add (text "a") 7 ip registry).1.sessions)
    ≡ spec_add registry.max_per_ip (text "a") (record { fd = 7; client_ip = ip }) registry.sessions
add-spec_add_example = add-spec_add (text "a") 7 ip registry Inv-registry

IsWithin-registry : IsWithin registry
unfolding create count find
IsWithin-registry j = omega arith

abbrev connections : List (Text × ℕ)
connections = (text "a", 7) ∷ (text "b", 8) ∷ (text "c", 9) ∷ []

serve_unlimited_example : (serve ip connections registry).0 ≡ true
unfolding create find count
serve_unlimited_example =
    serve_unlimited ip connections registry (refl, (refl, (refl, tt))) (omega arith) (omega arith)
