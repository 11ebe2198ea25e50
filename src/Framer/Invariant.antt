-- ===== src/Framer/Invariant.antt =====
-- The invariant of an `SmppPduFramer`.
use opensmsc.Framer.State.{
  Framer, FramerState, accept_header, advance, be32_to_host, needed_in, parse_header, pdu_complete,
  reset, waiting_body, waiting_header, bytes_needed, feed_bytes,
}
use opensmsc.Base.{
  ℕ, List, [], arith, get_or, length, length-append, refl, suc, zero, ◌++◌, ◌+◌, ◌<◌, ◌∷◌, ◌≡◌, ◌≤◌,
  length-take, min, take,
}

-- The bytes of the header are those of the fields.
abbrev pub Parsed : Framer → Type 0
Parsed f =
    (f.command_length ≡ be32_to_host f.full_pdu 0)
    × (f.command_id ≡ be32_to_host f.full_pdu 4)
    × (f.command_status ≡ be32_to_host f.full_pdu 8)
    × (f.sequence_number ≡ be32_to_host f.full_pdu 12)

abbrev pub InvIn : FramerState → Framer → Type 0
InvIn waiting_header f = length f.full_pdu ≤ 16
InvIn waiting_body f = (16 ≤ length f.full_pdu) × (length f.full_pdu ≤ f.command_length) × Parsed f
InvIn pdu_complete f = (16 ≤ length f.full_pdu) × (length f.full_pdu ≡ f.command_length) × Parsed f

abbrev pub Inv : Framer → Type 0
Inv f = InvIn f.state f

pub reset-Inv : Inv reset
unfolding reset
reset-Inv = omega arith

-- Bytes behind a header change none of its words.
get_or-append : (xs ys : List ℕ) (i : ℕ) → i < length xs → get_or (xs ++ ys) i 0 ≡ get_or xs i 0
get_or-append [] ys i h = absurd (omega arith)
get_or-append (x ∷ xs) ys zero h = refl
get_or-append (x ∷ xs) ys (suc i) h = get_or-append xs ys i (omega arith)

be32_to_host-append :
    (xs ys : List ℕ) (off : ℕ)
    → off + 4 ≤ length xs
    → be32_to_host (xs ++ ys) off ≡ be32_to_host xs off
unfolding be32_to_host
be32_to_host-append xs ys off h = rw (
  get_or-append xs ys off (omega arith),
  get_or-append xs ys (off + 1) (omega arith),
  get_or-append xs ys (off + 2) (omega arith),
  get_or-append xs ys (off + 3) (omega arith),
)

Parsed-append :
    (f : Framer) (ys : List ℕ)
    → 16 ≤ length f.full_pdu
    → Parsed f
    → Parsed (record f { full_pdu = f.full_pdu ++ ys })
Parsed-append f ys h p = (
  rw (be32_to_host-append f.full_pdu ys 0 (omega arith)) p.0,
  rw (be32_to_host-append f.full_pdu ys 4 (omega arith)) p.1,
  rw (be32_to_host-append f.full_pdu ys 8 (omega arith)) p.2,
  rw (be32_to_host-append f.full_pdu ys 12 (omega arith)) p.3,
)

advance-Inv :
    (st : FramerState) (f : Framer) (ys : List ℕ)
    → InvIn st f
    → f.state ≡ st
    → length ys ≤ needed_in st f
    → Inv (advance st (record f { full_pdu = f.full_pdu ++ ys })).0
unfolding accept_header parse_header
advance-Inv waiting_header f ys v e h = ground (arith, length-append f.full_pdu ys)
advance-Inv waiting_body f ys v e h =
    ground (arith, length-append f.full_pdu ys, Parsed-append f ys v.0 v.2)
advance-Inv pdu_complete f ys v e h =
    ground (arith, length-append f.full_pdu ys, Parsed-append f ys v.0 v.2)

-- `feed_bytes` keeps the framer well formed: no more
-- than a header while it waits for one, no more than the announced length behind it, exactly that
-- length in a complete PDU, and fields that are the words of the header.
pub feed_bytes-Inv : (bytes : List ℕ) (f : Framer) → Inv f → Inv (feed_bytes bytes f).0
unfolding feed_bytes bytes_needed
feed_bytes-Inv [] f v = v
feed_bytes-Inv (b ∷ bytes) f v =
    advance-Inv f.state f (take _ (b ∷ bytes)) v refl
      (omega (arith, length-take (min (length (b ∷ bytes)) (needed_in f.state f)) (b ∷ bytes)))
