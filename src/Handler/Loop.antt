-- ===== src/Handler/Loop.antt =====
-- The reads of the handler: the loop of `on_read` and the dispatch of the PDU that the framer hands it.
use opensmsc.Framer.Reassembly.{complete, feed_rest, header_fed}
use opensmsc.Pdu.WireLaws.{header_bytes, be32, read_u32-be32}
use opensmsc.Framer.State.{reset, be32_to_host, feed_bytes}
use opensmsc.Handler.State.{
  Handler, command_of, dispatch_pdu, drain, handle_bind, handle_enquire_link, handle_unbind,
  handle_unknown, is_complete, send_pdu, dispatch_command, ntoh32, binding, enquiring, unbinding,
  unknown, do_read, on_read, read_started,
}
use opensmsc.Base.{
  Bool-cases, List, Option, Text, false, if◌then◌else◌, inl, inr, refl, suc, true, zero, ℕ, ◌++◌,
  ◌==◌, ◌||◌, ◌≡◌, arith, length, ltb, Bool, ◌+◌, ◌∷◌, ap, le→leb, ◌-◌, ◌∙◌,
}
use opensmsc.Pdu.Wire.{IsU32, read_u32}
use opensmsc.Handler.Responses.{BindKind, build_generic_nack}

framer_reset : is_complete reset.state ≡ false
unfolding reset
framer_reset = refl

header_body_words :
    (total id status seq : ℕ) (body : List ℕ)
    → IsU32 id
    → IsU32 seq
    → let p = header_bytes total id status seq ++ body in
      (ltb (length p) 16 ≡ false) × (ntoh32 p 4 ≡ id) × (ntoh32 p 12 ≡ seq)
unfolding be32_to_host read_u32
header_body_words total id status seq body hi hq = (
  ground arith,
  read_u32-be32 (be32 total) (be32 status ++ (be32 seq ++ body)) id hi,
  read_u32-be32 (be32 total ++ (be32 id ++ be32 status)) body seq hq,
)

-- The two reads by which the framer takes a whole PDU.
framer_pdu :
    (total id status seq b : ℕ) (bytes : List ℕ)
    → IsU32 total
    → IsU32 id
    → IsU32 status
    → IsU32 seq
    → 16 + length (b ∷ bytes) ≡ total
    → let header = header_bytes total id status seq in
      let first = (feed_bytes header reset).0 in
      (is_complete first.state ≡ false)
      × ((feed_bytes (b ∷ bytes) first).0 ≡ complete total id status seq (header ++ (b ∷ bytes)))
framer_pdu total id status seq b bytes ht hi hst hq e =
    let header = header_bytes total id status seq in
    rw (header_fed total id status seq ht hi hst hq, le→leb 16 total (omega arith))
      (refl, ap (λ r. r.0) (feed_rest total id status seq header (b ∷ bytes) (omega arith) e))

-- A handler that waits for its first PDU.
abbrev pub listening : Handler → Handler
listening h = record h { framer = reset; reading = 1 }

module _ (parse : BindKind → List ℕ → Option (Text × Text)) where
  drain_waits :
      (fuel : ℕ) (h : Handler) → is_complete h.framer.state ≡ false → drain parse fuel h ≡ h
  unfolding drain
  drain_waits zero h w = refl
  drain_waits (suc fuel) h w = rw (w, drain) refl

  drain_complete :
      (fuel : ℕ) (h : Handler)
      → is_complete h.framer.state ≡ true
      → drain parse (suc fuel) h
        ≡ record (dispatch_pdu parse h.framer.full_pdu h) { framer = reset }
  unfolding drain
  drain_complete fuel h c = rw (c, drain) (drain_waits fuel _ framer_reset)

  -- The loop of `on_read` ends: no framer is left with a complete PDU after one round, and more fuel
  -- than one changes nothing.
  pub drain_ends :
      (fuel : ℕ) (h : Handler)
      → (is_complete (drain parse (suc fuel) h).framer.state ≡ false)
        × (drain parse (suc fuel) h ≡ drain parse 1 h)
  drain_ends fuel h = elim (Bool-cases (is_complete h.framer.state)) [
    | inl c ↦ rw (drain_complete fuel h c, drain_complete 0 h c) (framer_reset, refl)
    | inr w ↦ rw (drain_waits (suc fuel) h w, drain_waits 1 h w) (w, refl)
  ]

  tests :
      (b1 b2 b9 b6 b15 : Bool) (id : ℕ) (full_pdu : List ℕ) (seq : ℕ) (h : Handler)
      → dispatch_command parse
          (if b1
            then binding
            else if b2
            then binding
            else if b9
            then binding
            else if b6
            then unbinding
            else if b15
            then enquiring
            else unknown)
          id
          full_pdu
          seq
          h
        ≡ (if b1 || b2 || b9
            then handle_bind parse id full_pdu seq h
            else if b6
            then handle_unbind seq h
            else if b15
            then handle_enquire_link seq h
            else handle_unknown id seq h)
  tests true b2 b9 b6 b15 id full_pdu seq h = refl
  tests false true b9 b6 b15 id full_pdu seq h = refl
  tests false false true b6 b15 id full_pdu seq h = refl
  tests false false false true b15 id full_pdu seq h = refl
  tests false false false false true id full_pdu seq h = refl
  tests false false false false false id full_pdu seq h = refl

  command_cases :
      (id : ℕ) (full_pdu : List ℕ) (seq : ℕ) (h : Handler)
      → dispatch_command parse (command_of id) id full_pdu seq h ≡ (
          if id == 1 || id == 2 || id == 9
          then handle_bind parse id full_pdu seq h
          else if id == 6
          then handle_unbind seq h
          else if id == 15
          then handle_enquire_link seq h
          else handle_unknown id seq h)
  unfolding command_of
  command_cases id full_pdu seq h =
      tests (id == 1) (id == 2) (id == 9) (id == 6) (id == 15) id full_pdu seq h

  -- A PDU of at least sixteen bytes with 32-bit header fields: bind_receiver, bind_transmitter and
  -- bind_transceiver are bound, UNBIND and command 0x0F are answered, and any other command is refused
  -- with status 3.
  pub dispatch_pdu-header :
      (total id status seq : ℕ) (body : List ℕ) (h : Handler)
      → IsU32 total
      → IsU32 id
      → IsU32 status
      → IsU32 seq
      → let full_pdu = header_bytes total id status seq ++ body in
        dispatch_pdu parse full_pdu h ≡ (
          if id == 1 || id == 2 || id == 9
          then handle_bind parse id full_pdu seq h
          else if id == 6
          then handle_unbind seq h
          else if id == 15
          then handle_enquire_link seq h
          else send_pdu (build_generic_nack 3 seq) h)
  unfolding dispatch_pdu handle_unknown
  dispatch_pdu-header total id status seq body h ht hi hs hq =
      let (long, word, last) = header_body_words total id status seq body hi hq in
      rw (long, word, last) (command_cases id _ seq h)

  -- asio hands the bytes of a read over.
  abbrev pub reads : List ℕ → Handler → Handler
  reads bytes h = on_read parse false bytes (record h { reading = h.reading - 1 })

  reads_waiting :
      (bytes : List ℕ) (h : Handler)
      → is_complete (feed_bytes bytes h.framer).0.state ≡ false
      → reads bytes h
        ≡ do_read (record h { reading = h.reading - 1; framer = (feed_bytes bytes h.framer).0 })
  unfolding on_read
  reads_waiting bytes h w = ap do_read (
      drain_waits 1 (record h { reading = h.reading - 1; framer = (feed_bytes bytes h.framer).0 })
        w)

  reads_pdu :
      (bytes full_pdu : List ℕ) (total id status seq : ℕ) (h : Handler)
      → (feed_bytes bytes h.framer).0 ≡ complete total id status seq full_pdu
      → reads bytes h
        ≡ do_read
            (record (dispatch_pdu parse full_pdu (record h {
              reading = h.reading - 1;
              framer = complete total id status seq full_pdu;
            })) { framer = reset })
  unfolding on_read
  reads_pdu bytes full_pdu total id status seq h e = rw e (
      ap do_read (
        drain_complete 0
          (record h { reading = h.reading - 1; framer = complete total id status seq full_pdu })
          refl))

  -- A PDU with a body and 32-bit header fields, whose header and body come by two reads to a handler
  -- with a new framer: it is dispatched once and whole, the framer is new again, and one read is started.
  pub reads_dispatch :
      (total id status seq b : ℕ) (bytes : List ℕ) (h : Handler)
      → IsU32 total
      → IsU32 id
      → IsU32 status
      → IsU32 seq
      → 16 + length (b ∷ bytes) ≡ total
      → let header = header_bytes total id status seq in
        let full_pdu = header ++ (b ∷ bytes) in
        reads (b ∷ bytes) (reads header (listening h))
        ≡ do_read
            (record (dispatch_pdu parse full_pdu (record h {
              log = read_started ∷ h.log;
              reading = 0;
              framer = complete total id status seq full_pdu;
            })) { framer = reset })
  unfolding do_read
  reads_dispatch total id status seq b bytes h ht hi hst hq e =
      let header = header_bytes total id status seq in
      let (waits, done) = framer_pdu total id status seq b bytes ht hi hst hq e in
      let h1 = do_read (record h { reading = 0; framer = (feed_bytes header reset).0 }) in
      ap (reads (b ∷ bytes)) (reads_waiting header (listening h) waits)
      ∙ reads_pdu (b ∷ bytes) (header ++ (b ∷ bytes)) total id status seq h1 done
