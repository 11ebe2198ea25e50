-- ===== src/Pdu/Build.antt =====
-- smpp_pdu.hpp: building PDUs. A `std::vector<uint8_t>` is a list of bytes.
use opensmsc.Base.{ℕ, ◌+◌, List, [], ◌∷◌, ◌++◌, bit_or, length, replicate, set, Text, u8, u32}
use opensmsc.Pdu.Constants.{deliver_sm, esme_rok}
use opensmsc.Pdu.Wire.{write_u32}

-- `memcpy(dst + off, src, src.size())`
unfoldable pub copy_at : List ℕ → ℕ → List ℕ → List ℕ
copy_at dst off [] = dst
copy_at dst off (x ∷ src) = copy_at (set dst off x) (off + 1) src

-- `std::vector<uint8_t> pdu(total)` with the four words of the header written.
unfoldable pub headed : ℕ → ℕ → ℕ → ℕ → List ℕ
headed total command_id command_status sequence_number =
    let pdu = replicate total 0 in
    let pdu = write_u32 pdu 0 total in
    let pdu = write_u32 pdu 4 command_id in
    let pdu = write_u32 pdu 8 command_status in write_u32 pdu 12 sequence_number

-- What follows the header of a response: nothing, or the text and its NUL.
abbrev pub response_body : Text → List ℕ
response_body [] = []
response_body (c ∷ system_id) = (c ∷ system_id) ++ 0 ∷ []

unfoldable pub make_response : ℕ → ℕ → ℕ → Text → List ℕ
make_response command_id command_status sequence_number system_id =
    let body = response_body system_id in
    let total = u32 (16 + u32 (length body)) in
    copy_at (headed total command_id command_status sequence_number) 16 body

-- The body that `make_deliver_sm` collects by `push_back`.
unfoldable pub deliver_body : Text → Text → Text → ℕ → ℕ → ℕ → ℕ → List ℕ
deliver_body src_addr dst_addr short_message src_ton src_npi dst_ton dst_npi =
    0
    ∷ src_ton
    ∷ src_npi
    ∷ (src_addr
        ++ (0
            ∷ dst_ton
            ∷ dst_npi
            ∷ (dst_addr
                ++ (0
                    ∷ 0
                    ∷ 0
                    ∷ 0
                    ∷ 0
                    ∷ 0
                    ∷ 0
                    ∷ 0
                    ∷ 0
                    ∷ 0
                    ∷ u8 (length short_message)
                    ∷ short_message))))

unfoldable pub make_deliver_sm : ℕ → Text → Text → Text → ℕ → ℕ → ℕ → ℕ → List ℕ
make_deliver_sm sequence_number src_addr dst_addr short_message src_ton src_npi dst_ton dst_npi =
    let body = deliver_body src_addr dst_addr short_message src_ton src_npi dst_ton dst_npi in
    let total = u32 (16 + u32 (length body)) in
    copy_at (headed total deliver_sm esme_rok sequence_number) 16 body

unfoldable pub bind_resp_id : ℕ → ℕ
bind_resp_id req_id = bit_or req_id 0x8000_0000
