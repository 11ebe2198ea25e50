-- ===== src/Pdu/Submit.antt =====
-- smpp_pdu.hpp: C-octet strings and the body of a submit_sm. A reader takes the body and the
-- offset, and returns what it read with the new offset (the C++ `size_t& off`).
use opensmsc.Base.{
  ℕ, zero, suc, ◌+◌, ◌-◌, List, [], ◌∷◌, ◌++◌, none, some, min, get_elem?, get_or, length, take,
  drop, Text, ltb, if◌then◌else◌,
}

-- The loop of `read_cstr`. `room` is `max_len - s.size()`, which every round lowers by one.
unfoldable pub read_cstr_loop : ℕ → List ℕ → ℕ → Text → Text × ℕ
read_cstr_loop zero buf off s = (s, off)
read_cstr_loop (suc room) buf off s = elim (get_elem? buf off) [
  | none ↦ (s, off)
  | some zero ↦ (s, off + 1)
  | some (suc c) ↦ read_cstr_loop room buf (off + 1) (s ++ (suc c ∷ []))
]

-- `max_len` is left at its default by every caller.
abbrev pub max_len : ℕ
max_len = 65

unfoldable pub read_cstr : List ℕ → ℕ → Text × ℕ
read_cstr buf off = read_cstr_loop max_len buf off []

-- `if (off < body.size()) field = body[off++];` over a field that starts at 0.
unfoldable pub read_byte : List ℕ → ℕ → ℕ × ℕ
read_byte body off = if ltb off (length body) then (get_or body off 0, off + 1) else (0, off)

-- The last field: `sm_len`, and as many bytes as it says and the body has.
unfoldable pub read_message : List ℕ → ℕ → Text
read_message body off =
    if ltb off (length body)
    then (let sm_len = get_or body off 0 in
        let avail = min sm_len (length body - (off + 1)) in take avail (drop (off + 1) body))
    else []

pub record SubmitSm : Type 0 where
  pub service_type : Text
  pub src_ton : ℕ
  pub src_npi : ℕ
  pub src_addr : Text
  pub dst_ton : ℕ
  pub dst_npi : ℕ
  pub dst_addr : Text
  pub esm_class : ℕ
  pub protocol_id : ℕ
  pub priority_flag : ℕ
  pub schedule_delivery_time : Text
  pub validity_period : Text
  pub registered_delivery : ℕ
  pub replace_if_present : ℕ
  pub data_coding : ℕ
  pub sm_default_msg_id : ℕ
  pub short_message : Text

-- A default-constructed `SubmitSm`.
abbrev pub empty_submit_sm : SubmitSm
empty_submit_sm = record {
  service_type = [];
  src_ton = 0;
  src_npi = 0;
  src_addr = [];
  dst_ton = 0;
  dst_npi = 0;
  dst_addr = [];
  esm_class = 0;
  protocol_id = 0;
  priority_flag = 0;
  schedule_delivery_time = [];
  validity_period = [];
  registered_delivery = 0;
  replace_if_present = 0;
  data_coding = 0;
  sm_default_msg_id = 0;
  short_message = [];
}

-- The part of `parse_submit_sm` behind its test for an empty body.
unfoldable pub parse_fields : List ℕ → SubmitSm
parse_fields body =
    let (service_type, off) = read_cstr body 0 in
    let (src_ton, off) = read_byte body off in
    let (src_npi, off) = read_byte body off in
    let (src_addr, off) = read_cstr body off in
    let (dst_ton, off) = read_byte body off in
    let (dst_npi, off) = read_byte body off in
    let (dst_addr, off) = read_cstr body off in
    let (esm_class, off) = read_byte body off in
    let (protocol_id, off) = read_byte body off in
    let (priority_flag, off) = read_byte body off in
    let (schedule_delivery_time, off) = read_cstr body off in
    let (validity_period, off) = read_cstr body off in
    let (registered_delivery, off) = read_byte body off in
    let (replace_if_present, off) = read_byte body off in
    let (data_coding, off) = read_byte body off in
    let (sm_default_msg_id, off) = read_byte body off in
    record {
      service_type = service_type;
      src_ton = src_ton;
      src_npi = src_npi;
      src_addr = src_addr;
      dst_ton = dst_ton;
      dst_npi = dst_npi;
      dst_addr = dst_addr;
      esm_class = esm_class;
      protocol_id = protocol_id;
      priority_flag = priority_flag;
      schedule_delivery_time = schedule_delivery_time;
      validity_period = validity_period;
      registered_delivery = registered_delivery;
      replace_if_present = replace_if_present;
      data_coding = data_coding;
      sm_default_msg_id = sm_default_msg_id;
      short_message = read_message body off;
    }

unfoldable pub parse_submit_sm : List ℕ → SubmitSm
parse_submit_sm [] = empty_submit_sm
parse_submit_sm (b ∷ body) = parse_fields (b ∷ body)
