-- ===== src/Framer/State.antt =====
-- `SmppPduFramer` and its methods. The pointer and length of `feed_bytes` are a list of bytes.
use opensmsc.Base.{
  ℕ, Bool, List, [], bit_or, false, get_or, if◌then◌else◌, leb, length, ltb, min, take, true, u32,
  ◌*◌, ◌++◌, ◌+◌, ◌-◌, ◌^◌, ◌∷◌,
}

pub data FramerState : Type 0 where
  waiting_header waiting_body pdu_complete : FramerState

pub record Framer : Type 0 where
  pub state : FramerState
  pub full_pdu : List ℕ
  pub command_length : ℕ
  pub command_id : ℕ
  pub command_status : ℕ
  pub sequence_number : ℕ

-- A new framer, and what `reset` makes of any.
unfoldable pub reset : Framer
reset = record {
  state = waiting_header;
  full_pdu = [];
  command_length = 0;
  command_id = 0;
  command_status = 0;
  sequence_number = 0;
}

unfoldable pub be32_to_host : List ℕ → ℕ → ℕ
be32_to_host ptr off =
    bit_or
      (bit_or (bit_or (u32 (get_or ptr off 0 * 2 ^ 24)) (u32 (get_or ptr (off + 1) 0 * 2 ^ 16)))
        (u32 (get_or ptr (off + 2) 0 * 2 ^ 8)))
      (get_or ptr (off + 3) 0)

unfoldable pub parse_header : Framer → Framer
parse_header f = if ltb (length f.full_pdu) 16 then f else record f {
  command_length = be32_to_host f.full_pdu 0;
  command_id = be32_to_host f.full_pdu 4;
  command_status = be32_to_host f.full_pdu 8;
  sequence_number = be32_to_host f.full_pdu 12;
}

-- The invariant keeps both differences from going below 0 (`size_t` would wrap there).
abbrev pub needed_in : FramerState → Framer → ℕ
needed_in waiting_header f = 16 - length f.full_pdu
needed_in waiting_body f = f.command_length - length f.full_pdu
needed_in pdu_complete f = 0

unfoldable pub bytes_needed : Framer → ℕ
bytes_needed f = needed_in f.state f

-- The `case` of WAITING_HEADER once sixteen bytes are there.
unfoldable pub accept_header : Framer → Framer × Bool
accept_header f =
    let f = parse_header f in
    if leb 16 f.command_length then (record f { state = waiting_body }, false) else (f, false)

-- The `switch` of `feed_bytes`, behind the copy of the bytes.
abbrev pub advance : FramerState → Framer → Framer × Bool
advance waiting_header f = if leb 16 (length f.full_pdu) then accept_header f else (f, false)
advance waiting_body f =
    if leb f.command_length (length f.full_pdu)
    then (record f { state = pdu_complete }, true)
    else (f, false)
advance pdu_complete f = (f, false)

-- The framer after the bytes, and whether they completed a PDU.
unfoldable pub feed_bytes : List ℕ → Framer → Framer × Bool
feed_bytes [] f = (f, false)
feed_bytes (b ∷ bytes) f =
    let data_in = b ∷ bytes in
    let can_read = min (length data_in) (bytes_needed f) in
    advance f.state (record f { full_pdu = f.full_pdu ++ take can_read data_in })
