-- ===== src/Pdu/Bounds.antt =====
-- `read_cstr` and `parse_submit_sm` on bytes of any kind.
use opensmsc.Pdu.Wire.{IsByte}
use opensmsc.Base.{
  ℕ, zero, suc, ◌+◌, ◌<◌, ◌≤◌, ◌≡◌, ◌≢◌, List, [], ◌∷◌, ◌++◌, some, Text, arith, length,
  length-append, get_elem?, inl, inr, Option-cases, All, Bool-cases, get_or, ltb, length-take, min,
  ◌-◌, drop,
}
use opensmsc.Pdu.Submit.{
  read_cstr_loop, read_cstr, SubmitSm, parse_fields, parse_submit_sm, read_byte, read_message,
}
use opensmsc.Pdu.SubmitLaws.{IsCstr}

All-snoc : (s : Text) (c : ℕ) → IsCstr s → c ≢ 0 → IsCstr (s ++ (c ∷ []))
All-snoc [] c h hc = (hc, tt)
All-snoc (x ∷ s) c h hc = (h.0, All-snoc s c h.1 hc)

get_elem?-lt : (xs : List ℕ) (i c : ℕ) → get_elem? xs i ≡ some c → i < length xs
get_elem?-lt [] i c h = cc
get_elem?-lt (x ∷ xs) zero c h = omega arith
get_elem?-lt (x ∷ xs) (suc i) c h = omega (arith, get_elem?-lt xs i c h)

-- The text has no NUL and at most `max_len` bytes, and the offset stays in the buffer and never falls.
abbrev Bounded : List ℕ → ℕ → ℕ → Text × ℕ → Type 0
Bounded buf off most r = IsCstr r.0 × (length r.0 ≤ most) × (off ≤ r.1) × (r.1 ≤ length buf)

read_cstr_loop_bounds :
    (room : ℕ) (buf : List ℕ) (off : ℕ) (s : Text)
    → IsCstr s
    → off ≤ length buf
    → Bounded buf off (length s + room) (read_cstr_loop room buf off s)
unfolding read_cstr_loop
read_cstr_loop_bounds zero buf off s hs h = (hs, omega arith, omega arith, h)
read_cstr_loop_bounds (suc room) buf off s hs h = elim (Option-cases (get_elem? buf off)) [
  | inl e ↦ rw (e, read_cstr_loop) (hs, omega arith, omega arith, h)
  | inr (zero, e) ↦
      rw (e, read_cstr_loop) (hs, omega arith, omega arith, omega (arith, get_elem?-lt buf off 0 e))
  | inr (suc c, e) ↦
      let r =
        read_cstr_loop_bounds room buf (off + 1) (s ++ (suc c ∷ []))
          (All-snoc s (suc c) hs (omega arith)) (omega (arith, get_elem?-lt buf off (suc c) e)) in
      rw (e, read_cstr_loop)
        (r.0, omega (arith, r.1, length-append s (suc c ∷ [])), omega (arith, r.2), r.3)
]

-- From any offset in a buffer `read_cstr` returns a text without NUL of at most 65 bytes, and an
-- offset that has not fallen and is still in the buffer.
pub read_cstr_bounds :
    (buf : List ℕ) (off : ℕ)
    → off ≤ length buf
    → let r = read_cstr buf off in IsCstr r.0 × (length r.0 ≤ 65) × (off ≤ r.1) × (r.1 ≤ length buf)
unfolding read_cstr
read_cstr_bounds buf off h = read_cstr_loop_bounds 65 buf off [] tt h

-- The texts of a parsed body, and its message, are within what the reader allows.
pub record IsBounded (sm : SubmitSm) : Type 0 where
  pub service_type_ok : IsCstr sm.service_type × (length sm.service_type ≤ 65)
  pub src_addr_ok : IsCstr sm.src_addr × (length sm.src_addr ≤ 65)
  pub dst_addr_ok : IsCstr sm.dst_addr × (length sm.dst_addr ≤ 65)
  pub schedule_ok : IsCstr sm.schedule_delivery_time × (length sm.schedule_delivery_time ≤ 65)
  pub validity_ok : IsCstr sm.validity_period × (length sm.validity_period ≤ 65)
  pub message_ok : length sm.short_message ≤ 255

abbrev Fine : List ℕ → ℕ × ℕ → Type 0
Fine buf r = r.1 ≤ length buf

read_byte-Fine : (buf : List ℕ) (off : ℕ) → off ≤ length buf → Fine buf (read_byte buf off)
unfolding read_byte
read_byte-Fine buf off h = ground arith

get_or-IsByte : (buf : List ℕ) (off : ℕ) → All IsByte buf → get_or buf off 0 < 256
get_or-IsByte [] off h = omega arith
get_or-IsByte (x ∷ buf) zero h = h.0
get_or-IsByte (x ∷ buf) (suc off) h = get_or-IsByte buf off h.1

read_message_short : (buf : List ℕ) (off : ℕ) → All IsByte buf → length (read_message buf off) ≤ 255
unfolding read_message
read_message_short buf off h = elim (Bool-cases (ltb off (length buf))) [
  | inl e ↦ rw e (
      omega (
        arith,
        length-take (min (get_or buf off 0) (length buf - (off + 1))) (drop (off + 1) buf),
        get_or-IsByte buf off h,
      ))
  | inr e ↦ rw e (omega arith)
]

parse_fields-IsBounded : (body : List ℕ) → All IsByte body → IsBounded (parse_fields body)
unfolding parse_fields
parse_fields-IsBounded body h =
    let r1 = read_cstr_bounds body 0 (omega arith) in
    let r2 = read_byte-Fine body _ r1.3 in
    let r3 = read_byte-Fine body _ r2 in
    let r4 = read_cstr_bounds body _ r3 in
    let r5 = read_byte-Fine body _ r4.3 in
    let r6 = read_byte-Fine body _ r5 in
    let r7 = read_cstr_bounds body _ r6 in
    let r8 = read_byte-Fine body _ r7.3 in
    let r9 = read_byte-Fine body _ r8 in
    let r10 = read_byte-Fine body _ r9 in
    let r11 = read_cstr_bounds body _ r10 in
    let r12 = read_cstr_bounds body _ r11.3 in
    record {
      service_type_ok = (r1.0, r1.1);
      src_addr_ok = (r4.0, r4.1);
      dst_addr_ok = (r7.0, r7.1);
      schedule_ok = (r11.0, r11.1);
      validity_ok = (r12.0, r12.1);
      message_ok = read_message_short body _ h;
    }

-- Whatever the bytes of a body, every text that `parse_submit_sm` returns has no NUL and at most 65
-- bytes, and the message has at most 255.
pub parse_submit_sm-IsBounded : (body : List ℕ) → All IsByte body → IsBounded (parse_submit_sm body)
unfolding parse_submit_sm
parse_submit_sm-IsBounded [] h = record {
  service_type_ok = (tt, omega arith);
  src_addr_ok = (tt, omega arith);
  dst_addr_ok = (tt, omega arith);
  schedule_ok = (tt, omega arith);
  validity_ok = (tt, omega arith);
  message_ok = omega arith;
}
parse_submit_sm-IsBounded (b ∷ body) h = parse_fields-IsBounded (b ∷ body) h
