-- ===== src/Session/Submit.antt =====
-- submit_sm, its rate limit and message identifiers, and DeliverSm.
use opensmsc.Base.{
  ℕ, zero, suc, ◌+◌, ◌-◌, ◌*◌, ◌/◌, ◌%◌, List, [], ◌∷◌, ◌++◌, Bool, true, false, Option, none, some,
  Text, u32, ltb, leb, ◌==◌, if◌then◌else◌,
}
use opensmsc.Pdu.Constants.{submit_sm_resp, esme_rok, esme_rinvbndsts, esme_rthrottled}
use opensmsc.Pdu.Wire.{Header}
use opensmsc.Pdu.Submit.{SubmitSm, parse_submit_sm}
use opensmsc.Pdu.Build.{make_response, make_deliver_sm}
use opensmsc.Session.State.{
  SessionState, bound_tx, bound_rx, bound_trx, Session, World, token, emit, send_pdu,
  message_routed,
}

abbrev pub can_transmit : SessionState → Bool
can_transmit bound_tx = true
can_transmit bound_trx = true
can_transmit _ = false

abbrev pub can_receive : SessionState → Bool
can_receive bound_rx = true
can_receive bound_trx = true
can_receive _ = false

-- The part of `throttle_check` behind its test for no limit: refill, cap, and take a token.
unfoldable pub take_token : World → Session → Bool × Session
take_token w s =
    let size = s.max_submit_per_sec * token in
    let elapsed = w.steady_ns - s.tb_last_refill in
    let filled = s.tb_tokens + elapsed * s.max_submit_per_sec in
    let tokens = if ltb size filled then size else filled in
    if leb token tokens
    then (true, record s { tb_tokens = tokens - token; tb_last_refill = w.steady_ns })
    else (false, record s { tb_tokens = tokens; tb_last_refill = w.steady_ns })

-- The steady clock does not run backwards, so the truncated `-` of `take_token` is exact.
unfoldable pub throttle_check : World → Session → Bool × Session
unfolding take_token
throttle_check w s = if s.max_submit_per_sec == 0 then (true, s) else take_token w s

-- A digit as `std::hex` prints it.
abbrev pub hex_digit : ℕ → ℕ
hex_digit d = if ltb d 10 then b'0' + d else b'a' + (d - 10)

-- The `k` lowest hexadecimal digits.
unfoldable pub hex_digits : ℕ → ℕ → Text
hex_digits zero v = []
hex_digits (suc k) v = hex_digits k (v / 16) ++ (hex_digit (v % 16) ∷ [])

-- `setw(8) << setfill('0') << std::hex << seq` of a 32-bit number has eight digits.
unfoldable pub next_message_id : Session → Text × Session
next_message_id s =
    let seq = u32 (s.msg_seq + 1) in
    (s.msg_id_prefix ++ hex_digits 8 seq, record s { msg_seq = seq })

-- The status of a submit_sm: the bind state first, and the rate limit where that allows it.
unfoldable pub submit_status : World → Session → ℕ × Session
submit_status w s =
    if can_transmit s.state
    then (let (allowed, s') = throttle_check w s in
        if allowed then (esme_rok, s') else (esme_rthrottled, s'))
    else (esme_rinvbndsts, s)

-- The message is handed to the server if it has an identifier.
abbrev pub route : SubmitSm → Text → Session → Session
route sm [] s = s
route sm (c ∷ msg_id) s =
    emit (message_routed sm.src_addr sm.dst_addr sm.short_message (c ∷ msg_id)) s

unfoldable pub handle_submit_sm : Header → List ℕ → World → Session → Session
handle_submit_sm hdr body w s =
    let (status, s) = submit_status w s in
    if status == esme_rok
    then (let sm = parse_submit_sm body in
        let (msg_id, s) = next_message_id s in
        route sm msg_id
          (send_pdu (make_response submit_sm_resp status hdr.sequence_number msg_id) s))
    else send_pdu (make_response submit_sm_resp status hdr.sequence_number []) s

-- The returned sequence number, or `none` for the error InvalidBindState.
unfoldable pub deliver_sm_call : Text → Text → Text → Session → Option ℕ × Session
deliver_sm_call src_addr dst_addr short_message s =
    if can_receive s.state
    then (let seq = s.deliver_seq in
        let s = record s { deliver_seq = u32 (seq + 1) } in
        (some seq, send_pdu (make_deliver_sm seq src_addr dst_addr short_message 0 0 0 0) s))
    else (none, s)
