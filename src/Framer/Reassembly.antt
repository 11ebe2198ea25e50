-- ===== src/Framer/Reassembly.antt =====
-- `SmppPduFramer::feed_bytes`, call after call on the pieces of a byte stream.
use opensmsc.Pdu.WireLaws.{header_bytes, be32, read_u32-be32}
use mathlib.Core.List.{append-nil, append_assoc}
use opensmsc.Pdu.Wire.{IsU32, read_u32}
use opensmsc.Pdu.RoundTrip.{pdu}
use opensmsc.Framer.State.{
  Framer, bytes_needed, feed_bytes, waiting_body, accept_header, be32_to_host, parse_header,
  pdu_complete, waiting_header, reset,
}
use opensmsc.Base.{
  ℕ, Bool, List, [], arith, false, length, min, take_all, ◌++◌, ◌+◌, ◌-◌, ◌<◌, ◌∷◌, ◌≡◌,
  if◌then◌else◌, leb, length-append, true, ◌∙◌, ap, le→leb, refl, take, lt→leb_false, suc, take-min,
}

-- The pieces are fed one after the other.
unfoldable pub feed_all : List (List ℕ) → Framer → Framer × Bool
feed_all [] f = (f, false)
feed_all (p ∷ []) f = feed_bytes p f
feed_all (p ∷ q ∷ ps) f = feed_all (q ∷ ps) (feed_bytes p f).0

-- All pieces, joined.
abbrev pub joined : List (List ℕ) → List ℕ
joined [] = []
joined (p ∷ ps) = p ++ joined ps

abbrev pub NonEmpty : List (List ℕ) → Type 0
NonEmpty [] = Unit {0}
NonEmpty (p ∷ ps) = (0 < length p) × NonEmpty ps

-- A framer that waits for the rest of a body, with what it has.
abbrev pub in_body : ℕ → ℕ → ℕ → ℕ → List ℕ → Framer
in_body total id status seq pdu = record {
  state = waiting_body;
  full_pdu = pdu;
  command_length = total;
  command_id = id;
  command_status = status;
  sequence_number = seq;
}

-- One piece that leaves something to be read.
feed_part :
    (total id status seq : ℕ) (pdu p : List ℕ)
    → 0 < length p
    → length pdu + length p < total
    → feed_bytes p (in_body total id status seq pdu)
      ≡ (in_body total id status seq (pdu ++ p), false)
unfolding feed_bytes bytes_needed
feed_part total id status seq pdu [] h k = absurd (omega arith)
feed_part total id status seq pdu (b ∷ p) h k =
    let e : min (length (b ∷ p)) (total - length pdu) ≡ length (b ∷ p) = omega arith in
    rw (e, take_all (length (b ∷ p)) (b ∷ p) (omega arith))
      (ground (arith, length-append pdu (b ∷ p)))

-- A complete PDU.
abbrev pub complete : ℕ → ℕ → ℕ → ℕ → List ℕ → Framer
complete total id status seq pdu = record (in_body total id status seq pdu) { state = pdu_complete }

pub feed_rest :
    (total id status seq : ℕ) (pdu p : List ℕ)
    → 0 < length p
    → length pdu + length p ≡ total
    → feed_bytes p (in_body total id status seq pdu)
      ≡ (complete total id status seq (pdu ++ p), true)
unfolding feed_bytes bytes_needed
feed_rest total id status seq pdu [] h k = absurd (omega arith)
feed_rest total id status seq pdu (b ∷ p) h k =
    let e : min (length (b ∷ p)) (total - length pdu) ≡ length (b ∷ p) = omega arith in
    rw (e, take_all (length (b ∷ p)) (b ∷ p) (omega arith))
      (ground (arith, length-append pdu (b ∷ p)))

feed_all-body :
    (total id status seq : ℕ) (p : List ℕ) (ps : List (List ℕ)) (pdu : List ℕ)
    → NonEmpty (p ∷ ps)
    → length pdu + length (joined (p ∷ ps)) ≡ total
    → feed_all (p ∷ ps) (in_body total id status seq pdu)
      ≡ (complete total id status seq (pdu ++ joined (p ∷ ps)), true)
unfolding feed_all
feed_all-body total id status seq p [] pdu h k =
    rw (append-nil p) (feed_rest total id status seq pdu p h.0 (omega (arith, length-append p [])))
feed_all-body total id status seq p (q ∷ ps) pdu h k =
    rw
      (feed_part total id status seq pdu p h.0
        (omega (arith, length-append p (joined (q ∷ ps)), length-append q (joined ps), h.1.0)))
      (feed_all-body total id status seq q ps (pdu ++ p) h.1
          (omega (arith, length-append p (joined (q ∷ ps)), length-append pdu p))
        ∙ rw append_assoc)

-- A framer with the beginning of a header.
abbrev pub in_header : List ℕ → Framer
in_header pdu = record {
  state = waiting_header;
  full_pdu = pdu;
  command_length = 0;
  command_id = 0;
  command_status = 0;
  sequence_number = 0;
}

feed_header_part :
    (pdu p : List ℕ)
    → 0 < length p
    → length pdu + length p < 16
    → feed_bytes p (in_header pdu) ≡ (in_header (pdu ++ p), false)
unfolding feed_bytes bytes_needed
feed_header_part pdu [] h k = absurd (omega arith)
feed_header_part pdu (b ∷ p) h k =
    let e : min (length (b ∷ p)) (16 - length pdu) ≡ length (b ∷ p) = omega arith in
    rw (e, take_all (length (b ∷ p)) (b ∷ p) (omega arith))
      (ground (arith, length-append pdu (b ∷ p)))

header_words :
    (total id status seq : ℕ)
    → IsU32 total
    → IsU32 id
    → IsU32 status
    → IsU32 seq
    → let h = header_bytes total id status seq in
      (be32_to_host h 0 ≡ total)
      × (be32_to_host h 4 ≡ id)
      × (be32_to_host h 8 ≡ status)
      × (be32_to_host h 12 ≡ seq)
unfolding be32_to_host read_u32
header_words total id status seq ht hi hs hq = (
  read_u32-be32 [] (be32 id ++ (be32 status ++ be32 seq)) total ht,
  read_u32-be32 (be32 total) (be32 status ++ be32 seq) id hi,
  read_u32-be32 (be32 total ++ be32 id) (be32 seq) status hs,
  read_u32-be32 (be32 total ++ (be32 id ++ be32 status)) [] seq hq,
)

-- The sixteen bytes of a header, parsed.
parsed_header :
    (total id status seq : ℕ)
    → IsU32 total
    → IsU32 id
    → IsU32 status
    → IsU32 seq
    → accept_header (in_header (header_bytes total id status seq)) ≡ (
        if leb 16 total
        then (in_body total id status seq (header_bytes total id status seq), false)
        else (
          record (in_body total id status seq (header_bytes total id status seq)) {
            state = waiting_header;
          },
          false,
        ))
unfolding accept_header parse_header
parsed_header total id status seq ht hi hs hq =
    let (e1, e2, e3, e4) = header_words total id status seq ht hi hs hq in
    rw (e1, e2, e3, e4) (ground arith)

-- The last bytes of a header: they are copied, and the header is parsed.
feed_header_rest :
    (pdu p h : List ℕ)
    → 0 < length p
    → pdu ++ p ≡ h
    → length h ≡ 16
    → feed_bytes p (in_header pdu) ≡ accept_header (in_header h)
unfolding feed_bytes bytes_needed
feed_header_rest pdu [] h pos e k = absurd (omega arith)
feed_header_rest pdu (b ∷ p) h pos e k =
    let len = length-append pdu (b ∷ p) in
    let size : length (pdu ++ (b ∷ p)) ≡ 16 = rw e k in
    let m : min (length (b ∷ p)) (16 - length pdu) ≡ length (b ∷ p) = omega arith in
    rw (m, take_all (length (b ∷ p)) (b ∷ p) (omega arith), e) (ground arith)

feed_all-header :
    (p : List ℕ) (ps : List (List ℕ)) (pdu h : List ℕ)
    → NonEmpty (p ∷ ps)
    → pdu ++ joined (p ∷ ps) ≡ h
    → length h ≡ 16
    → feed_all (p ∷ ps) (in_header pdu) ≡ accept_header (in_header h)
unfolding feed_all
feed_all-header p [] pdu h pos e k = feed_header_rest pdu p h pos.0 (rw append-nil at e) k
feed_all-header p (q ∷ ps) pdu h pos e k =
    let l1 = length-append pdu (p ++ joined (q ∷ ps)) in
    let l2 = length-append p (joined (q ∷ ps)) in
    let l3 = length-append q (joined ps) in
    rw (feed_header_part pdu p pos.0 (omega (arith, ap (length {A = ℕ}) e, pos.1.0)))
      (feed_all-header q ps (pdu ++ p) h pos.1 (rw append_assoc e) k)

-- A PDU with a body and 32-bit header fields, cut into pieces anywhere but across the end of its header: when all pieces have
-- been fed to a new framer, in order and each not empty, the last call reports a complete PDU, which
-- is the bytes fed, with the fields of its header.
pub feed_all_reassembles :
    (total id status seq : ℕ) (h1 : List ℕ) (hs : List (List ℕ)) (b1 : List ℕ) (bs : List (List ℕ))
    → IsU32 total
    → IsU32 id
    → IsU32 status
    → IsU32 seq
    → NonEmpty (h1 ∷ hs)
    → NonEmpty (b1 ∷ bs)
    → joined (h1 ∷ hs) ≡ header_bytes total id status seq
    → 16 + length (joined (b1 ∷ bs)) ≡ total
    → feed_all (b1 ∷ bs) (feed_all (h1 ∷ hs) reset).0
      ≡ (complete total id status seq (joined (h1 ∷ hs) ++ joined (b1 ∷ bs)), true)
unfolding reset
feed_all_reassembles total id status seq h1 hs b1 bs ht hi hst hq ph pb eh eb =
    let h = header_bytes total id status seq in
    rw
      (
        feed_all-header h1 hs [] h ph eh refl,
        parsed_header total id status seq ht hi hst hq,
        le→leb 16 total (omega arith),
        eh,
      )
      (feed_all-body total id status seq b1 bs h pb eb)

pub header_fed :
    (total id status seq : ℕ)
    → IsU32 total
    → IsU32 id
    → IsU32 status
    → IsU32 seq
    → feed_bytes (header_bytes total id status seq) reset ≡ (
        if leb 16 total
        then (in_body total id status seq (header_bytes total id status seq), false)
        else (
          record (in_body total id status seq (header_bytes total id status seq)) {
            state = waiting_header;
          },
          false,
        ))
unfolding reset
header_fed total id status seq ht hi hs hq =
    feed_header_rest [] (header_bytes total id status seq) (header_bytes total id status seq)
      (omega arith) refl refl
    ∙ parsed_header total id status seq ht hi hs hq

-- A new framer that is fed the whole header of a PDU without a body, with 32-bit fields, is not done:
-- it reports the PDU on the next bytes, of which it takes none.
pub header_only_waits :
    (id status seq b : ℕ) (bytes : List ℕ)
    → IsU32 id
    → IsU32 status
    → IsU32 seq
    → let h = header_bytes 16 id status seq in
      let (f, done) = feed_bytes h reset in
      (done ≡ false) × (feed_bytes (b ∷ bytes) f ≡ (complete 16 id status seq h, true))
header_only_waits id status seq b bytes hi hs hq =
    rw (header_fed 16 id status seq (omega arith) hi hs hq) (refl, take_none b bytes)
  where
    take_none :
        (c : ℕ) (more : List ℕ)
        → feed_bytes (c ∷ more) (in_body 16 id status seq (header_bytes 16 id status seq))
          ≡ (complete 16 id status seq (header_bytes 16 id status seq), true)
    take_none c more =
        let e : min (suc (length more)) 0 ≡ 0 = omega arith in
        unfold feed_bytes bytes_needed in rw e

-- A header with 32-bit fields that announces less than sixteen bytes stops a new framer: it is
-- unchanged by any bytes that come later, and they do not complete a PDU.
pub short_length_sticks :
    (total id status seq : ℕ) (bytes : List ℕ)
    → total < 16
    → IsU32 id
    → IsU32 status
    → IsU32 seq
    → let f = (feed_bytes (header_bytes total id status seq) reset).0 in
      feed_bytes bytes f ≡ (f, false)
short_length_sticks total id status seq bytes ht hi hs hq =
    rw (header_fed total id status seq (omega arith) hi hs hq, lt→leb_false 16 total ht)
      (stuck bytes)
  where
    h : List ℕ
    h = header_bytes total id status seq

    f : Framer
    f = record (in_body total id status seq h) { state = waiting_header }

    stuck : (more : List ℕ) → feed_bytes more f ≡ (f, false)
    stuck [] = unfold feed_bytes in refl
    stuck (c ∷ more) =
        let e : min (suc (length more)) 0 ≡ 0 = omega arith in
        let (e1, e2, e3, e4) = header_words total id status seq (omega arith) hi hs hq in
        unfold feed_bytes bytes_needed accept_header parse_header in
        rw (e, e1, e2, e3, e4) (ground arith)

-- What is fed to a new framer beyond the sixteen bytes of a header is lost.
pub feed_bytes_drops : (bytes : List ℕ) → (feed_bytes bytes reset).0.full_pdu ≡ take 16 bytes
unfolding feed_bytes reset bytes_needed accept_header parse_header
feed_bytes_drops [] = refl
feed_bytes_drops (b ∷ bytes) =
    let e : min (suc (length bytes)) 16 ≡ min 16 (suc (length bytes)) = omega arith in
    rw e (ground (arith, take-min 16 (b ∷ bytes)))
