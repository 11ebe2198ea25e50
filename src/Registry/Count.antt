-- ===== src/Registry/Count.antt =====
-- The counts that `ConnectionRegistry` keeps, against the sessions that it holds.
use opensmsc.Pdu.Wire.{IsU32}
use opensmsc.Registry.State.{
  Registry, SessionEntry, add, count, create, release, claim_fd, remove, set_max_per_ip,
}
use opensmsc.Base.Dict.{Dict, Unique, erase, erase-Unique, find, find-insert, insert, insert-Unique}
use opensmsc.Base.{
  ℕ, =t=_iff, Text, [], arith, if◌then◌else◌, ltb, none, refl, some, ◌+◌, ◌-◌, ◌=t=◌, ◌∷◌, ◌≡◌,
  Bool-cases, List, Option-cases, inl, inr, leb, u32,
}

-- How many of the waiting sessions come from an address.
abbrev pub sessions_of : Text → Dict SessionEntry → ℕ
sessions_of ip [] = 0
sessions_of ip ((u, e) ∷ m) = (if e.client_ip =t= ip then 1 else 0) + sessions_of ip m

sessions_of-insert :
    (ip uuid : Text) (e : SessionEntry) (m : Dict SessionEntry)
    → find uuid m ≡ none
    → sessions_of ip (insert uuid e m) ≡ (if e.client_ip =t= ip then 1 else 0) + sessions_of ip m
unfolding find insert
sessions_of-insert ip uuid e [] h = refl
sessions_of-insert ip uuid e ((u, d) ∷ m) h = ground (arith, sessions_of-insert ip uuid e m)

sessions_of-erase :
    (ip uuid : Text) (e : SessionEntry) (m : Dict SessionEntry)
    → find uuid m ≡ some e
    → sessions_of ip m ≡ (if e.client_ip =t= ip then 1 else 0) + sessions_of ip (erase uuid m)
unfolding find erase
sessions_of-erase ip uuid e [] h = cc
sessions_of-erase ip uuid e ((u, d) ∷ m) h = ground (arith, sessions_of-erase ip uuid e m)

pub record Inv (r : Registry) : Type 0 where
  pub unique : Unique r.sessions
  pub max_u32 : IsU32 r.max_per_ip
  pub counted : (ip : Text) → count ip r ≡ sessions_of ip r.sessions

create-Inv : (max : ℕ) → IsU32 max → Inv (create max)
unfolding create count find
create-Inv max h = record { unique = tt; max_u32 = h; counted = λ ip. refl }

add-Inv :
    (uuid : Text) (fd : ℕ) (ip : Text) (r : Registry)
    → find uuid r.sessions ≡ none
    → Inv r
    → Inv (add uuid fd ip r).1
unfolding add count
add-Inv uuid fd ip r h v =
    let e : SessionEntry = record { fd = fd; client_ip = ip } in
    elim (Bool-cases (leb r.max_per_ip (count ip r))) [
      | inl full ↦ rw full (record {
        unique = v.unique;
        max_u32 = v.max_u32;
        counted = λ j. ground (
          arith,
          find-insert ip j (count ip r) r.ip_counts,
          =t=_iff ip j,
          v.counted j,
          v.counted ip,
        );
      })
      | inr room ↦ rw room (record {
        unique = insert-Unique uuid e r.sessions v.unique;
        max_u32 = v.max_u32;
        counted = λ j. ground (
          arith,
          find-insert ip j (u32 (count ip r + 1)) r.ip_counts,
          =t=_iff ip j,
          v.counted j,
          v.counted ip,
          sessions_of-insert j uuid e r.sessions h,
        );
      })
    ]

release-Inv :
    (uuid : Text) (e : SessionEntry) (r : Registry)
    → find uuid r.sessions ≡ some e
    → Inv r
    → Inv (release uuid e r)
unfolding release count
release-Inv uuid e r h v = record {
  unique = erase-Unique uuid r.sessions v.unique;
  max_u32 = v.max_u32;
  counted = λ ip. ground (
    arith,
    find-insert e.client_ip ip
        (if ltb 0 (count e.client_ip r) then count e.client_ip r - 1 else count e.client_ip r)
        r.ip_counts,
    =t=_iff e.client_ip ip,
    sessions_of-erase ip uuid e r.sessions h,
    v.counted ip,
    v.counted e.client_ip,
  );
}

pub data Call : Type 0 where
  adds : Text → ℕ → Text → Call
  claims removes : Text → Call
  sets_max : ℕ → Call

unfoldable pub step : Registry → Call → Registry
step r (adds uuid fd ip) = (add uuid fd ip r).1
step r (claims uuid) = (claim_fd uuid r).1
step r (removes uuid) = remove uuid r
step r (sets_max max) = set_max_per_ip max r

-- The caller makes up a new uuid for each connection, and a limit is a uint32_t.
abbrev pub IsFresh : Registry → Call → Type 0
IsFresh r (adds uuid fd ip) = find uuid r.sessions ≡ none
IsFresh r (sets_max max) = IsU32 max
IsFresh r _ = Unit {0}

pub step-Inv : (r : Registry) (c : Call) → IsFresh r c → Inv r → Inv (step r c)
unfolding step claim_fd remove set_max_per_ip
step-Inv r (adds uuid fd ip) f v = add-Inv uuid fd ip r f v
step-Inv r (claims uuid) f v = elim (Option-cases (find uuid r.sessions)) [
  | inl e ↦ rw (e, claim_fd, step) v
  | inr (d, e) ↦ rw (e, claim_fd, step) (release-Inv uuid d r e v)
]
step-Inv r (removes uuid) f v = elim (Option-cases (find uuid r.sessions)) [
  | inl e ↦ rw (e, remove, step) v
  | inr (d, e) ↦ rw (e, remove, step) (release-Inv uuid d r e v)
]
step-Inv r (sets_max max) f v = record {
  unique = v.unique;
  max_u32 = f;
  counted = unfold count in v.counted;
}

unfoldable pub run : Registry → List Call → Registry
unfolding step
run r [] = r
run r (c ∷ cs) = run (step r c) cs

abbrev pub AreFresh : Registry → List Call → Type 0
AreFresh r [] = Unit {0}
AreFresh r (c ∷ cs) = IsFresh r c × AreFresh (step r c) cs

run-Inv : (r : Registry) (cs : List Call) → AreFresh r cs → Inv r → Inv (run r cs)
unfolding run
run-Inv r [] f v = v
run-Inv r (c ∷ cs) f v = run-Inv (step r c) cs f.1 (step-Inv r c f.0 v)

-- After any calls on a new registry, with limits of 32 bits and each added uuid one that is not waiting
-- at that time, the count of
-- every address is the number of sessions from it that wait to be claimed, and no uuid waits twice.
pub run_counts :
    (max : ℕ) (cs : List Call) → IsU32 max → AreFresh (create max) cs → Inv (run (create max) cs)
run_counts max cs h f = run-Inv (create max) cs f (create-Inv max h)
