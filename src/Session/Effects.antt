-- ===== src/Session/Effects.antt =====
-- What the handling of a submit_sm pushes on the log of a session.
use opensmsc.Pdu.Submit.{parse_submit_sm}
use opensmsc.Pdu.Build.{make_response}
use opensmsc.Session.State.{Session, World, message_routed, sent}
use opensmsc.Pdu.Wire.{Header}
use opensmsc.Base.{List, Text, [], ap, arith, refl, u32, ℕ, ◌%◌, ◌++◌, ◌+◌, ◌/◌, ◌∙◌, ◌∷◌, ◌≡◌}
use opensmsc.Session.Submit.{
  handle_submit_sm, hex_digit, hex_digits, next_message_id, submit_status, take_token,
  throttle_check,
}
use opensmsc.Pdu.Constants.{submit_sm_resp, esme_rok}

pub take_token_log : (w : World) (s : Session) → (take_token w s).1.log ≡ s.log
unfolding take_token
take_token_log w s = ground arith

pub submit_status_log : (w : World) (s : Session) → (submit_status w s).1.log ≡ s.log
unfolding submit_status throttle_check
submit_status_log w s = ground (arith, take_token_log w s)

append-nonempty : (s t : Text) (c : ℕ) → (d : ℕ) × (u : Text) × (s ++ (t ++ (c ∷ [])) ≡ d ∷ u)
append-nonempty [] [] c = (c, [], refl)
append-nonempty [] (d ∷ t) c = (d, t ++ (c ∷ []), refl)
append-nonempty (d ∷ s) t c = (d, s ++ (t ++ (c ∷ [])), refl)

-- A message identifier is never empty.
next_message_id-nonempty : (s : Session) → (d : ℕ) × (u : Text) × ((next_message_id s).0 ≡ d ∷ u)
unfolding next_message_id hex_digits
next_message_id-nonempty s =
    append-nonempty s.msg_id_prefix (hex_digits 7 (u32 (s.msg_seq + 1) / 16))
      (hex_digit (u32 (s.msg_seq + 1) % 16))

next_message_id_log : (s : Session) → (next_message_id s).1.log ≡ s.log
unfolding next_message_id
next_message_id_log s = refl

-- An accepted submit_sm is answered, and then handed to the server with its addresses, message and
-- identifier.
pub handle_submit_sm_log :
    (hdr : Header) (body : List ℕ) (w : World) (s : Session)
    → (submit_status w s).0 ≡ esme_rok
    → let sm = parse_submit_sm body in
      let id = (next_message_id (submit_status w s).1).0 in
      (handle_submit_sm hdr body w s).log
      ≡ message_routed sm.src_addr sm.dst_addr sm.short_message id
        ∷ sent (make_response submit_sm_resp esme_rok hdr.sequence_number id)
        ∷ s.log
unfolding handle_submit_sm
handle_submit_sm_log hdr body w s ok =
    let s1 = (submit_status w s).1 in
    let (d, u, e) = next_message_id-nonempty s1 in
    rw (ok, e)
      (ap
        (λ l.
          message_routed (parse_submit_sm body).src_addr (parse_submit_sm body).dst_addr
            (parse_submit_sm body).short_message (d ∷ u)
          ∷ sent (make_response submit_sm_resp esme_rok hdr.sequence_number (d ∷ u))
          ∷ l)
        (next_message_id_log s1 ∙ submit_status_log w s))
