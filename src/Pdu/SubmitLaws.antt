-- ===== src/Pdu/SubmitLaws.antt =====
-- Reading a submit_sm body: C-octet strings, and the fields that `make_deliver_sm` wrote.
use mathlib.Core.List.{append_assoc, append-nil}
use native.Mathlib.Numerals.{add-one}
use opensmsc.Base.{
  ℕ, zero, suc, ◌+◌, ◌-◌, ◌<◌, ◌≡◌, ◌≢◌, refl, ap, ◌∙◌, List, [], ◌∷◌, ◌++◌, Text, arith, length,
  take, drop, get_elem?-drop, drop-suc, length-drop, drop_past, drop-lt, get_or-drop, lt→ltb, All,
  take-min,
}
use opensmsc.Pdu.Submit.{
  read_cstr_loop, read_cstr, max_len, read_byte, read_message, SubmitSm, parse_fields,
}

-- No byte of the text is NUL.
abbrev pub IsCstr : Text → Type 0
IsCstr = All (λ c. c ≢ 0)

-- The loop stops behind the NUL and returns what stands before it, if there is room for that.
read_cstr_loop_text :
    (t : Text) (room : ℕ) (buf rest : List ℕ) (off : ℕ) (s : Text)
    → IsCstr t
    → length t < room
    → drop off buf ≡ t ++ (0 ∷ rest)
    → read_cstr_loop room buf off s ≡ (s ++ t, off + length t + 1)
unfolding read_cstr_loop
read_cstr_loop_text t zero buf rest off s ht h e = absurd (omega arith)
read_cstr_loop_text [] (suc room) buf rest off s ht h e =
    rw (get_elem?-drop off buf 0 rest e, read_cstr_loop) (rw append-nil (ground arith))
read_cstr_loop_text (zero ∷ t) (suc room) buf rest off s ht h e = absurd (ht.0 refl)
read_cstr_loop_text (suc c ∷ t) (suc room) buf rest off s ht h e =
    rw (get_elem?-drop off buf (suc c) (t ++ (0 ∷ rest)) e, read_cstr_loop)
      (read_cstr_loop_text t room buf rest (off + 1) (s ++ (suc c ∷ [])) ht.1 (omega arith)
          (rw add-one (drop-suc off buf (suc c) (t ++ (0 ∷ rest)) e))
        ∙ rw append_assoc (ground arith))

-- A reader at an offset returns `a` and leaves `rest` to be read.
abbrev pub Reads {ℓ} : {A : Type ℓ} → List ℕ → A × ℕ → A → List ℕ → Type ℓ
Reads buf r a rest = (r.0 ≡ a) × (drop r.1 buf ≡ rest)

read_cstr-Reads :
    (buf rest : List ℕ) (off : ℕ) (t : Text)
    → IsCstr t
    → length t < max_len
    → drop off buf ≡ t ++ (0 ∷ rest)
    → Reads buf (read_cstr buf off) t rest
unfolding read_cstr
read_cstr-Reads buf rest off t ht h e =
    let r = read_cstr_loop_text t max_len buf rest off [] ht h e in
    (
      ap (λ (p : Text × ℕ). p.0) r,
      ap (λ (p : Text × ℕ). drop p.1 buf) r ∙ drop_past off buf t 0 rest e,
    )

read_byte-Reads :
    (buf rest : List ℕ) (off b : ℕ) → drop off buf ≡ b ∷ rest → Reads buf (read_byte buf off) b rest
unfolding read_byte
read_byte-Reads buf rest off b e =
    rw (lt→ltb off (length buf) (drop-lt off buf b rest e))
      (get_or-drop off buf b 0 rest e, rw add-one (drop-suc off buf b rest e))

-- The message is what its length byte announces, as far as the body goes.
read_message-eq :
    (buf rest : List ℕ) (off n : ℕ) → drop off buf ≡ n ∷ rest → read_message buf off ≡ take n rest
unfolding read_message
read_message-eq buf rest off n e =
    let e1 : drop (off + 1) buf ≡ rest = rw add-one (drop-suc off buf n rest e) in
    let e2 : length buf - (off + 1) ≡ length rest =
      omega (arith, length-drop (off + 1) buf, ap length e1) in
    rw (lt→ltb off (length buf) (drop-lt off buf n rest e), get_or-drop off buf n 0 rest e, e2, e1)
      (take-min n rest)

-- A body that is laid out as SMPP 3.4 4.4.1 says.
abbrev pub fields_bytes : SubmitSm → List ℕ → List ℕ
fields_bytes sm message =
    sm.service_type
    ++ (0
        ∷ sm.src_ton
        ∷ sm.src_npi
        ∷ (sm.src_addr
            ++ (0
                ∷ sm.dst_ton
                ∷ sm.dst_npi
                ∷ (sm.dst_addr
                    ++ (0
                        ∷ sm.esm_class
                        ∷ sm.protocol_id
                        ∷ sm.priority_flag
                        ∷ (sm.schedule_delivery_time
                            ++ (0
                                ∷ (sm.validity_period
                                    ++ (0 ∷ sm.registered_delivery ∷ sm.replace_if_present
                                        ∷ sm.data_coding ∷ sm.sm_default_msg_id ∷ message)))))))))

-- Every text of the body fits `read_cstr` and holds no NUL.
pub record HasCstrs (sm : SubmitSm) : Type 0 where
  pub service_type_cstr : IsCstr sm.service_type
  pub service_type_fits : length sm.service_type < max_len
  pub src_addr_cstr : IsCstr sm.src_addr
  pub src_addr_fits : length sm.src_addr < max_len
  pub dst_addr_cstr : IsCstr sm.dst_addr
  pub dst_addr_fits : length sm.dst_addr < max_len
  pub schedule_cstr : IsCstr sm.schedule_delivery_time
  pub schedule_fits : length sm.schedule_delivery_time < max_len
  pub validity_cstr : IsCstr sm.validity_period
  pub validity_fits : length sm.validity_period < max_len

-- From a body that is laid out so, with texts of at most 64 bytes without NUL, every field is read back,
-- and the message up to the length that is announced before it.
pub parse_fields-fields_bytes :
    (sm : SubmitSm) (n : ℕ) (message : List ℕ)
    → HasCstrs sm
    → parse_fields (fields_bytes sm (n ∷ message)) ≡ record sm { short_message = take n message }
unfolding parse_fields
parse_fields-fields_bytes sm n message w =
    let buf = fields_bytes sm (n ∷ message) in
    let r1 = read_cstr-Reads buf _ 0 sm.service_type w.service_type_cstr w.service_type_fits refl in
    let r2 = read_byte-Reads buf _ _ _ r1.1 in
    let r3 = read_byte-Reads buf _ _ _ r2.1 in
    let r4 = read_cstr-Reads buf _ _ sm.src_addr w.src_addr_cstr w.src_addr_fits r3.1 in
    let r5 = read_byte-Reads buf _ _ _ r4.1 in
    let r6 = read_byte-Reads buf _ _ _ r5.1 in
    let r7 = read_cstr-Reads buf _ _ sm.dst_addr w.dst_addr_cstr w.dst_addr_fits r6.1 in
    let r8 = read_byte-Reads buf _ _ _ r7.1 in
    let r9 = read_byte-Reads buf _ _ _ r8.1 in
    let r10 = read_byte-Reads buf _ _ _ r9.1 in
    let r11 =
      read_cstr-Reads buf _ _ sm.schedule_delivery_time w.schedule_cstr w.schedule_fits r10.1 in
    let r12 = read_cstr-Reads buf _ _ sm.validity_period w.validity_cstr w.validity_fits r11.1 in
    let r13 = read_byte-Reads buf _ _ _ r12.1 in
    let r14 = read_byte-Reads buf _ _ _ r13.1 in
    let r15 = read_byte-Reads buf _ _ _ r14.1 in
    let r16 = read_byte-Reads buf _ _ _ r15.1 in
    let m = read_message-eq buf message _ n r16.1 in
    λ i. record {
      service_type = r1.0 i;
      src_ton = r2.0 i;
      src_npi = r3.0 i;
      src_addr = r4.0 i;
      dst_ton = r5.0 i;
      dst_npi = r6.0 i;
      dst_addr = r7.0 i;
      esm_class = r8.0 i;
      protocol_id = r9.0 i;
      priority_flag = r10.0 i;
      schedule_delivery_time = r11.0 i;
      validity_period = r12.0 i;
      registered_delivery = r13.0 i;
      replace_if_present = r14.0 i;
      data_coding = r15.0 i;
      sm_default_msg_id = r16.0 i;
      short_message = m i;
    }
