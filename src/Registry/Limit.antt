-- ===== src/Registry/Limit.antt =====
-- The limit of `ConnectionRegistry`: `add` and `claim_fd` together.
use opensmsc.Pdu.Wire.{IsU32}
use opensmsc.Registry.Count.{Inv, sessions_of}
use opensmsc.Base.Dict.{
  Dict, find-insert, insert, erase, find, find-erase, insert-Unique, or_default,
}
use opensmsc.Registry.State.{Registry, SessionEntry, add, claim_fd, count, release}
use opensmsc.Base.{
  ℕ, Bool, Text, arith, false, if◌then◌else◌, leb, none, some, true, u32, ◌+◌, ◌≡◌, ◌≤◌, =t=_refl,
  List, Option, [], ap, ◌&&◌, ◌<◌, ◌∷◌, ltb, refl, ◌-◌,
}

-- The registry as its clients see it: sessions and a limit, with no counts kept.
abbrev pub spec_add : ℕ → Text → SessionEntry → Dict SessionEntry → Bool × Dict SessionEntry
spec_add max uuid e m =
    if leb max (sessions_of e.client_ip m) then (false, m) else (true, insert uuid e m)

-- Where the counts are those of the sessions, `add` does what the count-free registry does: it refuses exactly when as many sessions of the
-- address wait as the limit allows, and then leaves the sessions alone.
pub add-spec_add :
    (uuid : Text) (fd : ℕ) (ip : Text) (r : Registry)
    → Inv r
    → let (ok, r') = add uuid fd ip r in
      (ok, r'.sessions) ≡ spec_add r.max_per_ip uuid (record { fd = fd; client_ip = ip }) r.sessions
unfolding add
add-spec_add uuid fd ip r v = unfold count in ground (arith, v.counted ip)

-- No address has more sessions waiting than the limit.
abbrev pub IsWithin : Registry → Type 0
IsWithin r = (ip : Text) → count ip r ≤ r.max_per_ip

-- If no address has a count above the limit, none has after an `add`, whether it answers true or false.
pub add-IsWithin :
    (uuid : Text) (fd : ℕ) (ip : Text) (r : Registry) → IsWithin r → IsWithin (add uuid fd ip r).1
unfolding add count
add-IsWithin uuid fd ip r w = λ j. ground (
  arith,
  w ip,
  w j,
  find-insert ip j (count ip r) r.ip_counts,
  find-insert ip j (u32 (count ip r + 1)) r.ip_counts,
)

claim_fd_found :
    (uuid : Text) (r : Registry) (e : SessionEntry)
    → find uuid r.sessions ≡ some e
    → claim_fd uuid r ≡ (some e.fd, release uuid e r)
unfolding claim_fd
claim_fd_found uuid r e h = rw (h, claim_fd)

claim_fd_missing :
    (uuid : Text) (r : Registry) → find uuid r.sessions ≡ none → claim_fd uuid r ≡ (none, r)
unfolding claim_fd
claim_fd_missing uuid r h = rw (h, claim_fd)

-- What a successful `add` leaves.
add_success :
    (uuid : Text) (fd : ℕ) (ip : Text) (r : Registry)
    → (add uuid fd ip r).0 ≡ true
    → ((add uuid fd ip r).1.sessions ≡ insert uuid (record { fd = fd; client_ip = ip }) r.sessions)
      × ((add uuid fd ip r).1.ip_counts ≡ insert ip (u32 (count ip r + 1)) r.ip_counts)
      × ((add uuid fd ip r).1.max_per_ip ≡ r.max_per_ip)
unfolding add count
add_success uuid fd ip r h = ground arith

-- In a registry whose counts are those of its sessions, a uuid that was added is claimed with its descriptor, and a second claim finds nothing.
pub claim_fd-add :
    (uuid : Text) (fd : ℕ) (ip : Text) (r : Registry)
    → Inv r
    → (add uuid fd ip r).0 ≡ true
    → let (got, r') = claim_fd uuid (add uuid fd ip r).1 in
      (got ≡ some fd) × ((claim_fd uuid r').0 ≡ none)
claim_fd-add uuid fd ip r v h =
    let e : SessionEntry = record { fd = fd; client_ip = ip } in
    let r1 = (add uuid fd ip r).1 in
    let (held, counts, max) = add_success uuid fd ip r h in
    let found : find uuid r1.sessions ≡ some e =
      rw (held, find-insert uuid uuid e r.sessions, =t=_refl uuid) in
    let once : find uuid (release uuid e r1).sessions ≡ none =
      unfold release in
      find-erase uuid r1.sessions (rw held (insert-Unique uuid e r.sessions v.unique)) in
    let c = claim_fd_found uuid r1 e found in
    (
      ap (λ (p : Option ℕ × Registry). p.0) c,
      rw c (ap (λ (p : Option ℕ × Registry). p.0) (claim_fd_missing uuid (release uuid e r1) once)),
    )

erase-insert :
    (uuid : Text) (e : SessionEntry) (m : Dict SessionEntry)
    → find uuid m ≡ none
    → erase uuid (insert uuid e m) ≡ m
unfolding find insert erase
erase-insert uuid e [] h = ground (arith, =t=_refl uuid)
erase-insert uuid e ((u, d) ∷ m) h = ground (arith, erase-insert uuid e m)

-- Connections of one address, each added and then claimed by its handler, as the server does it.
unfoldable pub serve : Text → List (Text × ℕ) → Registry → Bool × Registry
serve ip [] r = (true, r)
serve ip ((uuid, fd) ∷ rest) r =
    let (ok, r1) = add uuid fd ip r in
    let (all_ok, r2) = serve ip rest (claim_fd uuid r1).1 in (ok && all_ok, r2)

count-release :
    (uuid : Text) (e : SessionEntry) (r : Registry)
    → count e.client_ip (release uuid e r) ≡ count e.client_ip r - 1
unfolding release count
count-release uuid e r =
    let cnt = or_default (find e.client_ip r.ip_counts) 0 in
    rw
      (
        find-insert e.client_ip e.client_ip (if ltb 0 cnt then cnt - 1 else cnt) r.ip_counts,
        =t=_refl e.client_ip,
      )
      (ground arith)

serve_one :
    (uuid : Text) (fd : ℕ) (ip : Text) (r : Registry)
    → find uuid r.sessions ≡ none
    → count ip r < r.max_per_ip
    → IsU32 r.max_per_ip
    → let r' = (claim_fd uuid (add uuid fd ip r).1).1 in
      ((add uuid fd ip r).0 ≡ true)
      × (r'.sessions ≡ r.sessions)
      × (count ip r' ≡ count ip r)
      × (r'.max_per_ip ≡ r.max_per_ip)
serve_one uuid fd ip r f room small =
    let e : SessionEntry = record { fd = fd; client_ip = ip } in
    let r1 = (add uuid fd ip r).1 in
    let ok : (add uuid fd ip r).0 ≡ true = unfold add count in ground arith in
    let (held, counts, max) = add_success uuid fd ip r ok in
    let found : find uuid r1.sessions ≡ some e =
      rw (held, find-insert uuid uuid e r.sessions, =t=_refl uuid) in
    let c = claim_fd_found uuid r1 e found in
    let counted : count ip r1 ≡ count ip r + 1 =
      unfold count in
      rw (counts, find-insert ip ip (u32 (count ip r + 1)) r.ip_counts, =t=_refl ip)
        (omega arith) in
    rw c (
      ok,
      (unfold release in rw held (erase-insert uuid e r.sessions f)),
      omega (arith, count-release uuid e r1, counted),
      (unfold release in max),
    )

-- None of the uuids waits in the registry.
abbrev pub AllNew : List (Text × ℕ) → Registry → Type 0
AllNew [] r = Unit {0}
AllNew ((uuid, fd) ∷ rest) r = (find uuid r.sessions ≡ none) × AllNew rest r

AllNew-same :
    (conns : List (Text × ℕ)) (r r' : Registry)
    → r'.sessions ≡ r.sessions
    → AllNew conns r
    → AllNew conns r'
AllNew-same [] r r' e h = tt
AllNew-same ((uuid, fd) ∷ rest) r r' e h = (rw e h.0, AllNew-same rest r r' e h.1)

-- A handler's claim gives the place of its connection free: where the limit is of 32 bits, an address
-- below it may open any number of connections with uuids that are not waiting, if each is claimed before
-- the next arrives.
pub serve_unlimited :
    (ip : Text) (conns : List (Text × ℕ)) (r : Registry)
    → AllNew conns r
    → count ip r < r.max_per_ip
    → IsU32 r.max_per_ip
    → (serve ip conns r).0 ≡ true
unfolding serve
serve_unlimited ip [] r new room small = refl
serve_unlimited ip ((uuid, fd) ∷ rest) r new room small =
    let r' = (claim_fd uuid (add uuid fd ip r).1).1 in
    let (ok, same, cnt, max) = serve_one uuid fd ip r new.0 room small in
    rw ok (
      serve_unlimited ip rest r' (AllNew-same rest r r' same new.1) (rw (cnt, max) room)
        (rw max small))
