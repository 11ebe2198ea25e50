-- ===== src/Pdu/BuildLaws.antt =====
-- What `make_response` and `make_deliver_sm` lay out, byte by byte.
use mathlib.Core.List.{append_assoc}
use opensmsc.Base.{
  ℕ, ◌+◌, ◌<◌, ◌^◌, ◌≡◌, refl, ◌∙◌, List, [], ◌∷◌, ◌++◌, Text, u32, arith, length, length-append,
  length-replicate, replicate, replicate-add, set-append_length,
}
use opensmsc.Base.Bits.{bit_or-shifted_right}
use opensmsc.Pdu.Constants.{deliver_sm, esme_rok}
use opensmsc.Pdu.Wire.{IsU32, write_u32, decode_header}
use opensmsc.Pdu.WireLaws.{low_byte, header_bytes, decode_header-header_bytes}
use opensmsc.Pdu.Build.{
  copy_at, headed, response_body, make_response, deliver_body, make_deliver_sm, bind_resp_id,
}

-- `memcpy` onto as many bytes replaces them.
copy_at_end :
    (pre old src : List ℕ)
    → length old ≡ length src
    → copy_at (pre ++ old) (length pre) src ≡ pre ++ src
unfolding copy_at
copy_at_end pre [] [] h = refl
copy_at_end pre (o ∷ old) [] h = absurd (omega arith)
copy_at_end pre [] (x ∷ src) h = absurd (omega arith)
copy_at_end pre (o ∷ old) (x ∷ src) h =
    rw (set-append_length pre old o x)
      (simp (append_assoc, length-append) at (copy_at_end (pre ++ (x ∷ [])) old src (omega arith)))

headed-header_bytes :
    (n command_id command_status sequence_number : ℕ)
    → headed (16 + n) command_id command_status sequence_number
      ≡ header_bytes (16 + n) command_id command_status sequence_number ++ replicate n 0
unfolding headed write_u32
headed-header_bytes n i s q = rw (replicate-add {A = ℕ} 16 n 0) (simp low_byte)

-- A header over a body that was copied behind it.
framed :
    (command_id command_status sequence_number : ℕ) (body : List ℕ)
    → 16 + length body < 2 ^ 32
    → copy_at
        (headed (u32 (16 + u32 (length body))) command_id command_status sequence_number)
        16
        body
      ≡ header_bytes (16 + length body) command_id command_status sequence_number ++ body
framed i s q body h =
    let total : u32 (16 + u32 (length body)) ≡ 16 + length body = omega arith in
    rw (total, headed-header_bytes (length body) i s q)
      (copy_at_end (header_bytes (16 + length body) i s q) (replicate (length body) 0) body
        (length-replicate (length body) 0))

-- A response is its header and, for a text that is not empty, the text and a NUL.
pub make_response-header_bytes :
    (command_id command_status sequence_number : ℕ) (system_id : Text)
    → 16 + length (response_body system_id) < 2 ^ 32
    → make_response command_id command_status sequence_number system_id
      ≡ header_bytes
          (16 + length (response_body system_id))
          command_id
          command_status
          sequence_number
        ++ response_body system_id
unfolding make_response
make_response-header_bytes i s q t h = framed i s q (response_body t) h

-- Decoding a response below 4 GiB gives its length, and the 32-bit command, status and sequence number
-- that it was built of.
pub decode_header-make_response :
    (command_id command_status sequence_number : ℕ) (system_id : Text)
    → IsU32 command_id
    → IsU32 command_status
    → IsU32 sequence_number
    → 16 + length (response_body system_id) < 2 ^ 32
    → decode_header (make_response command_id command_status sequence_number system_id) ≡ record {
      command_length = length (make_response command_id command_status sequence_number system_id);
      command_id = command_id;
      command_status = command_status;
      sequence_number = sequence_number;
    }
decode_header-make_response i s q t hi hs hq h =
    rw (make_response-header_bytes i s q t h)
      (ground (arith, decode_header-header_bytes _ i s q (response_body t) h hi hs hq))

pub make_deliver_sm-header_bytes :
    (sequence_number : ℕ) (src_addr dst_addr short_message : Text)
    (src_ton src_npi dst_ton dst_npi : ℕ)
    → let body = deliver_body src_addr dst_addr short_message src_ton src_npi dst_ton dst_npi in
      16 + length body < 2 ^ 32
      → make_deliver_sm sequence_number src_addr dst_addr short_message src_ton src_npi dst_ton
          dst_npi
        ≡ header_bytes (16 + length body) deliver_sm esme_rok sequence_number ++ body
unfolding make_deliver_sm
make_deliver_sm-header_bytes q src dst msg st sn dt dn h = framed deliver_sm esme_rok q _ h

-- The response identifier of a command below 2^31 is the command plus 2^31.
pub bind_resp_id-add : (req_id : ℕ) → req_id < 2 ^ 31 → bind_resp_id req_id ≡ req_id + 2 ^ 31
unfolding bind_resp_id
bind_resp_id-add req_id h = bit_or-shifted_right 31 1 req_id h ∙ omega arith
