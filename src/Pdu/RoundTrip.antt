-- ===== src/Pdu/RoundTrip.antt =====
-- A deliver_sm that `make_deliver_sm` built, read back by `decode_header` and `parse_submit_sm`.
use opensmsc.Base.{ℕ, ◌+◌, ◌<◌, ◌^◌, ◌≡◌, List, [], Text, u8, arith, length, take, drop}
use opensmsc.Pdu.Constants.{deliver_sm, esme_rok}
use opensmsc.Pdu.Wire.{IsU32, decode_header}
use opensmsc.Pdu.WireLaws.{decode_header-header_bytes}
use opensmsc.Pdu.Submit.{SubmitSm, empty_submit_sm, max_len, parse_submit_sm}
use opensmsc.Pdu.SubmitLaws.{IsCstr, parse_fields-fields_bytes}
use opensmsc.Pdu.Build.{deliver_body, make_deliver_sm}
use opensmsc.Pdu.BuildLaws.{make_deliver_sm-header_bytes}

-- An address that a reader of C-octet strings takes whole: no NUL in it, and at most 64 bytes.
pub record IsAddress (addr : Text) : Type 0 where
  pub cstr : IsCstr addr
  pub fits : length addr < max_len

-- What a deliver_sm carries, with all other fields at their defaults.
abbrev pub delivered : Text → Text → Text → ℕ → ℕ → ℕ → ℕ → SubmitSm
delivered src_addr dst_addr short_message src_ton src_npi dst_ton dst_npi = record empty_submit_sm {
  src_addr = src_addr;
  dst_addr = dst_addr;
  short_message = short_message;
  src_ton = src_ton;
  src_npi = src_npi;
  dst_ton = dst_ton;
  dst_npi = dst_npi;
}

module _ (sequence_number : ℕ) (src_addr dst_addr short_message : Text)
    (src_ton src_npi dst_ton dst_npi : ℕ) where
  parse_submit_sm-deliver_body :
      IsAddress src_addr
      → IsAddress dst_addr
      → parse_submit_sm
          (deliver_body src_addr dst_addr short_message src_ton src_npi dst_ton dst_npi)
        ≡ delivered src_addr dst_addr
            (take (u8 (length short_message)) short_message)
            src_ton
            src_npi
            dst_ton
            dst_npi
  unfolding deliver_body parse_submit_sm
  parse_submit_sm-deliver_body hs hd =
      parse_fields-fields_bytes (delivered src_addr dst_addr [] src_ton src_npi dst_ton dst_npi)
        (u8 (length short_message)) short_message
        (record {
          service_type_cstr = tt;
          service_type_fits = omega arith;
          src_addr_cstr = hs.cstr;
          src_addr_fits = hs.fits;
          dst_addr_cstr = hd.cstr;
          dst_addr_fits = hd.fits;
          schedule_cstr = tt;
          schedule_fits = omega arith;
          validity_cstr = tt;
          validity_fits = omega arith;
        })

  abbrev pub pdu : List ℕ
  pdu =
      make_deliver_sm sequence_number src_addr dst_addr short_message src_ton src_npi dst_ton
        dst_npi

  -- The header of a deliver_sm decodes to the PDU's length, the command, status 0 and the sequence
  -- number; its body parses to the addresses with their types and the first (size mod 256) bytes of
  -- the message, for a PDU below 4 GiB and addresses without NUL of at most 64 bytes.
  pub parse_submit_sm-make_deliver_sm :
      IsU32 sequence_number
      → 16 + length (deliver_body src_addr dst_addr short_message src_ton src_npi dst_ton dst_npi)
        < 2 ^ 32
      → IsAddress src_addr
      → IsAddress dst_addr
      → (decode_header pdu ≡ record {
        command_length = length pdu;
        command_id = deliver_sm;
        command_status = esme_rok;
        sequence_number = sequence_number;
      })
        × (parse_submit_sm (drop 16 pdu)
            ≡ delivered src_addr dst_addr
                (take (u8 (length short_message)) short_message)
                src_ton
                src_npi
                dst_ton
                dst_npi)
  parse_submit_sm-make_deliver_sm hq h hs hd =
      let body : List ℕ =
        deliver_body src_addr dst_addr short_message src_ton src_npi dst_ton dst_npi in
      rw
        (make_deliver_sm-header_bytes sequence_number src_addr dst_addr short_message src_ton
          src_npi dst_ton dst_npi h)
        (
          ground (
            arith,
            decode_header-header_bytes (16 + length body) deliver_sm esme_rok sequence_number body h
                (omega arith) (omega arith) hq,
          ),
          parse_submit_sm-deliver_body hs hd,
        )
