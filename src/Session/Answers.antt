-- ===== src/Session/Answers.antt =====
-- The answers of `SmppSession::dispatch`.
use opensmsc.Pdu.BuildLaws.{bind_resp_id-add, decode_header-make_response}
use opensmsc.Pdu.RoundTrip.{pdu}
use opensmsc.Session.Dispatch.{
  Command, delivered, enquired, other, binding, command_of, dispatch, dispatch_command, enquiring,
  handle_enquire_link, submitting, unbinding,
}
use opensmsc.Pdu.Constants.{
  esme_ralybnd, esme_rok, generic_nack, submit_sm_resp, enquire_link, esme_rinvcmdid, submit_sm,
  unbind,
}
use opensmsc.Session.Bind.{finish_bind, handle_bind, is_open, verdict, handle_unbind}
use opensmsc.Session.Submit.{
  handle_submit_sm, hex_digit, hex_digits, next_message_id, route, submit_status, take_token,
  throttle_check,
}
use opensmsc.Pdu.Build.{bind_resp_id, make_response, response_body}
use opensmsc.Pdu.Wire.{Header, IsU32, decode_header}
use opensmsc.Session.State.{
  Effect, Session, World, authenticated, do_disconnect, emit, sent, update_session_details,
}
use opensmsc.Pdu.Submit.{SubmitSm, parse_submit_sm, read_cstr}
use opensmsc.Base.{
  ℕ, Bool, Bool-cases, List, Text, [], ap, arith, false, inl, inr, length, length-append, refl, suc,
  text, true, u32, zero, ◌%◌, ◌++◌, ◌+◌, ◌/◌, ◌==◌, ◌^◌, ◌∙◌, ◌∷◌, ◌≡◌, ◌≤◌, ◌<◌,
}

-- The PDUs that were sent, newest first.
abbrev pub sents : List Effect → List (List ℕ)
sents [] = []
sents (sent pdu ∷ l) = pdu ∷ sents l
sents (_ ∷ l) = sents l

-- The commands that SMPP answers by a response with the top bit set, and those it does not answer.
-- All others are answered by a generic_nack.
abbrev pub is_answer : Command → Bool
is_answer enquired = true
is_answer delivered = true
is_answer _ = false

abbrev pub answer_id : Command → ℕ → ℕ
answer_id other id = generic_nack
answer_id _ id = id + 2 ^ 31

-- One response more than before, with the command, the sequence number, and a text that fits.
abbrev Answers : ℕ → ℕ → Session → Session → Type 0
Answers id seq s s' =
    (status : ℕ) × (t : Text) × (sents s'.log ≡ make_response id status seq t ∷ sents s.log)
    × IsU32 status
    × (length t ≤ 16)

sents-do_disconnect :
    (reason : Text) (s : Session) → sents (do_disconnect reason s).log ≡ sents s.log
unfolding do_disconnect
sents-do_disconnect reason s = ground arith

finish_bind-Answers :
    (hdr : Header) (sid : Text) (v : Bool × ℕ) (w : World) (s : Session)
    → IsU32 v.1
    → Answers (bind_resp_id hdr.command_id) hdr.sequence_number s (finish_bind hdr sid v w s)
unfolding finish_bind update_session_details
finish_bind-Answers hdr sid (false, err_code) w s h =
    (err_code, [], sents-do_disconnect _ _, h, omega arith)
finish_bind-Answers hdr sid (true, err_code) w s h =
    (esme_rok, text "smpp-server", refl, omega arith, omega arith)

-- IAuth.Authenticate returns its code as a uint32_t.
abbrev pub HasU32Codes : World → Type 0
HasU32Codes w = (u sid pass ip : Text) → IsU32 (verdict (w.authenticate u sid pass ip)).1

handle_bind-Answers :
    (hdr : Header) (body : List ℕ) (w : World) (s : Session)
    → HasU32Codes w
    → Answers (bind_resp_id hdr.command_id) hdr.sequence_number s (handle_bind hdr body w s)
unfolding handle_bind
handle_bind-Answers hdr body w s h = elim (Bool-cases (is_open s.state)) [
  | inl e ↦ rw e (
      finish_bind-Answers hdr (read_cstr body 0).0 _ w (emit (authenticated _ _ _) s)
        (h s.uuid _ _ s.client_ip))
  | inr e ↦ rw e (esme_ralybnd, [], refl, omega arith, omega arith)
]

pub length-hex_digits : (k v : ℕ) → length (hex_digits k v) ≡ k
unfolding hex_digits
length-hex_digits zero v = refl
length-hex_digits (suc k) v = omega (
  arith,
  length-append (hex_digits k (v / 16)) (hex_digit (v % 16) ∷ []),
  length-hex_digits k (v / 16),
)

-- `submit_status` sends nothing, and leaves the prefix of the identifiers alone.
submit_status_log :
    (w : World) (s : Session)
    → ((submit_status w s).1.log ≡ s.log)
      × ((submit_status w s).1.msg_id_prefix ≡ s.msg_id_prefix)
      × IsU32 (submit_status w s).0
unfolding submit_status throttle_check take_token
submit_status_log w s = ground arith

sents-route :
    (sm : SubmitSm) (msg_id : Text) (s : Session) → sents (route sm msg_id s).log ≡ sents s.log
sents-route sm [] s = refl
sents-route sm (c ∷ msg_id) s = refl

handle_submit_sm-Answers :
    (hdr : Header) (body : List ℕ) (w : World) (s : Session)
    → length s.msg_id_prefix ≤ 8
    → Answers submit_sm_resp hdr.sequence_number s (handle_submit_sm hdr body w s)
unfolding handle_submit_sm next_message_id
handle_submit_sm-Answers hdr body w s h =
    let (same, prefix, small) = submit_status_log w s in
    let st = (submit_status w s).0 in
    let s1 = (submit_status w s).1 in
    let seq = u32 (s1.msg_seq + 1) in
    let id = s1.msg_id_prefix ++ hex_digits 8 seq in
    elim (Bool-cases (st == esme_rok)) [
      | inl e ↦ rw e (
        st,
        id,
        sents-route (parse_submit_sm body) id _
            ∙ ap
                (λ (l : List Effect).
                  make_response submit_sm_resp st hdr.sequence_number id ∷ sents l)
                same,
        small,
        omega (
          arith,
          length-append s1.msg_id_prefix (hex_digits 8 seq),
          length-hex_digits 8 seq,
          ap length prefix,
        ),
      )
      | inr e ↦ rw e (
        st,
        [],
        ap (λ (l : List Effect). make_response submit_sm_resp st hdr.sequence_number [] ∷ sents l)
            same,
        small,
        omega arith,
      )
    ]

-- What a command that the `switch` takes for a request looks like.
abbrev Numbered : Command → ℕ → Type 0
Numbered binding id = id < 2 ^ 31
Numbered unbinding id = id ≡ unbind
Numbered enquiring id = id ≡ enquire_link
Numbered submitting id = id ≡ submit_sm
Numbered _ id = Unit {0}

command_of-Numbered : (id : ℕ) → Numbered (command_of id) id
unfolding command_of
command_of-Numbered id = ground arith

dispatch_command-Answers :
    (c : Command) (hdr : Header) (body : List ℕ) (w : World) (s : Session)
    → Numbered c hdr.command_id
    → is_answer c ≡ false
    → HasU32Codes w
    → length s.msg_id_prefix ≤ 8
    → Answers (answer_id c hdr.command_id) hdr.sequence_number s (dispatch_command c hdr body w s)
unfolding dispatch_command handle_unbind handle_enquire_link
dispatch_command-Answers binding hdr body w s n r h p =
    rw (← bind_resp_id-add hdr.command_id n) (handle_bind-Answers hdr body w s h)
dispatch_command-Answers unbinding hdr body w s n r h p =
    rw n (esme_rok, [], sents-do_disconnect _ _, omega arith, omega arith)
dispatch_command-Answers enquiring hdr body w s n r h p =
    rw n (esme_rok, [], refl, omega arith, omega arith)
dispatch_command-Answers submitting hdr body w s n r h p =
    simp n (handle_submit_sm-Answers hdr body w s p)
dispatch_command-Answers enquired hdr body w s n r h p = cc
dispatch_command-Answers delivered hdr body w s n r h p = cc
dispatch_command-Answers other hdr body w s n r h p =
    (esme_rinvcmdid, [], refl, omega arith, omega arith)

answer_id-IsU32 :
    (c : Command) (id : ℕ) → Numbered c id → is_answer c ≡ false → IsU32 (answer_id c id)
answer_id-IsU32 c id n r = ground arith

length-response_body : (t : Text) → length (response_body t) ≤ length t + 1
length-response_body [] = omega arith
length-response_body (c ∷ t) = omega (arith, length-append t (0 ∷ []))

-- `dispatch` answers every command but enquire_link_resp and deliver_sm_resp by exactly one PDU. Its
-- header decodes to the request's sequence number, and to the request's command with the top bit
-- set, or to generic_nack for a command that the server does not know. (The authenticator's codes
-- are 32-bit, and the identifiers' prefix has at most the 8 bytes that the constructor takes.)
pub dispatch_answers :
    (hdr : Header) (body : List ℕ) (w : World) (s : Session)
    → is_answer (command_of hdr.command_id) ≡ false
    → IsU32 hdr.sequence_number
    → HasU32Codes w
    → length s.msg_id_prefix ≤ 8
    → (pdu : List ℕ) × (sents (dispatch hdr body w s).log ≡ pdu ∷ sents s.log)
      × ((decode_header pdu).sequence_number ≡ hdr.sequence_number)
      × ((decode_header pdu).command_id ≡ answer_id (command_of hdr.command_id) hdr.command_id)
      × ((decode_header pdu).command_length ≡ length pdu)
unfolding dispatch
dispatch_answers hdr body w s r q h p =
    let c = command_of hdr.command_id in
    let n = command_of-Numbered hdr.command_id in
    let (st, t, e, hst, ht) = dispatch_command-Answers c hdr body w s n r h p in
    let d =
      decode_header-make_response (answer_id c hdr.command_id) st hdr.sequence_number t
        (answer_id-IsU32 c hdr.command_id n r) hst q (omega (arith, length-response_body t)) in
    (
      make_response (answer_id c hdr.command_id) st hdr.sequence_number t,
      e,
      ap (λ (k : Header). k.sequence_number) d,
      ap (λ (k : Header). k.command_id) d,
      ap (λ (k : Header). k.command_length) d,
    )
