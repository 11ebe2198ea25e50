-- ===== src/Handler/Binds.antt =====
-- A bind from the bytes of the socket to the state of the session.
use opensmsc.Pdu.WireLaws.{header_bytes}
use opensmsc.Framer.Reassembly.{complete}
use opensmsc.Handler.Session.{is_bound}
use opensmsc.Pdu.Wire.{IsU32}
use opensmsc.Handler.Binding.{accepted, bind_response_lem}
use opensmsc.Handler.Loop.{dispatch_pdu-header, listening, reads, reads_dispatch}
use opensmsc.Handler.State.{
  Handler, do_read, do_write, enqueue_pdu, handle_bind, read_started, send_pdu, write_front,
}
use opensmsc.Base.{
  Bool-cases, List, Option, Text, [], if◌then◌else◌, inl, inr, length, not, refl, true, ℕ, ◌&&◌,
  ◌++◌, ◌+◌, ◌==◌, ◌||◌, ◌∙◌, ◌∷◌, ◌≡◌, text,
}
use opensmsc.Handler.Responses.{BindKind, bind_kind, bind_response, bound_state, build_bind_resp}

write_front-session : (q : List (List ℕ)) (h : Handler) → (write_front q h).session ≡ h.session
write_front-session [] h = refl
write_front-session (p ∷ q) h = refl

send_pdu-session : (bytes : List ℕ) (h : Handler) → (send_pdu bytes h).session ≡ h.session
unfolding enqueue_pdu do_write
send_pdu-session bytes h = elim (Bool-cases h.write_in_progress) [
  | inl b ↦ rw b refl
  | inr b ↦ rw b (write_front-session (h.write_queue ++ (bytes ∷ [])) _)
]

module _ (parse : BindKind → List ℕ → Option (Text × Text)) where
  handle_bind-session :
      (id : ℕ) (raw_pdu : List ℕ) (seq : ℕ) (h : Handler)
      → (handle_bind parse id raw_pdu seq h).session
        ≡ (bind_response parse id raw_pdu seq h.session).1
  unfolding handle_bind build_bind_resp
  handle_bind-session id raw_pdu seq h = send_pdu-session _ _

  -- A bind PDU with a body and 32-bit header fields, whose header and body come by two reads to a
  -- handler with a new framer, binds a session that is not bound, as its command says and under the
  -- system_id "test", if the request can be read and its credentials are the allowed ones; in all other
  -- cases the session stays as it is.
  pub reads-bind :
      (total id status seq b : ℕ) (bytes : List ℕ) (h : Handler)
      → IsU32 total
      → IsU32 id
      → IsU32 status
      → IsU32 seq
      → 16 + length (b ∷ bytes) ≡ total
      → (id == 1 || id == 2 || id == 9) ≡ true
      → let header = header_bytes total id status seq in
        let kind = bind_kind id in
        (reads parse (b ∷ bytes) (reads parse header (listening h))).session ≡ (
          if not (is_bound h.session) && accepted (parse kind (header ++ (b ∷ bytes)))
          then record h.session { state = bound_state kind; system_id = text "test" }
          else h.session)
  unfolding do_read
  reads-bind total id status seq b bytes h ht hi hst hq e binds =
      let full_pdu = header_bytes total id status seq ++ (b ∷ bytes) in
      rw
        (
          reads_dispatch parse total id status seq b bytes h ht hi hst hq e,
          dispatch_pdu-header parse total id status seq (b ∷ bytes)
              (record h {
                log = read_started ∷ h.log;
                reading = 0;
                framer = complete total id status seq full_pdu;
              })
              ht hi hst hq,
          binds,
        )
        (handle_bind-session id full_pdu seq _
          ∙ (bind_response_lem parse id full_pdu seq h.session).3)
