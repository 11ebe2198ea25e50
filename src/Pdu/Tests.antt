-- ===== src/Pdu/Tests.antt =====
-- Concrete PDUs, on which the theorems about PDUs are applied.
use opensmsc.Pdu.RoundTrip.{IsAddress, delivered, parse_submit_sm-make_deliver_sm}
use opensmsc.Pdu.Constants.{deliver_sm, esme_rok}
use opensmsc.Pdu.Build.{deliver_body, make_deliver_sm}
use opensmsc.Base.{All, List, Text, [], arith, drop, length, take, u8, ℕ, ◌++◌, ◌∷◌, ◌≡◌, text}
use opensmsc.Pdu.Submit.{SubmitSm, empty_submit_sm, parse_fields, parse_submit_sm}
use opensmsc.Pdu.SubmitLaws.{HasCstrs, fields_bytes, parse_fields-fields_bytes}
use opensmsc.Pdu.Wire.{IsByte, decode_header}

abbrev from : Text
from = text "1001"

abbrev to : Text
to = text "2002"

IsAddress-from : IsAddress from
IsAddress-from = record { cstr = ground arith; fits = omega arith }

IsAddress-to : IsAddress to
IsAddress-to = record { cstr = ground arith; fits = omega arith }

abbrev greeting : SubmitSm
greeting = record empty_submit_sm { src_addr = from; dst_addr = to }

HasCstrs-greeting : HasCstrs greeting
HasCstrs-greeting = record {
  service_type_cstr = tt;
  service_type_fits = omega arith;
  src_addr_cstr = ground arith;
  src_addr_fits = omega arith;
  dst_addr_cstr = ground arith;
  dst_addr_fits = omega arith;
  schedule_cstr = tt;
  schedule_fits = omega arith;
  validity_cstr = tt;
  validity_fits = omega arith;
}

parse_submit_sm-make_deliver_sm_example :
    (decode_header (make_deliver_sm 7 from to (text "hi") 1 1 1 1) ≡ record {
      command_length = length (make_deliver_sm 7 from to (text "hi") 1 1 1 1);
      command_id = deliver_sm;
      command_status = esme_rok;
      sequence_number = 7;
    })
    × (parse_submit_sm (drop 16 (make_deliver_sm 7 from to (text "hi") 1 1 1 1))
        ≡ delivered from to (take (u8 (length (text "hi"))) (text "hi")) 1 1 1 1)
unfolding deliver_body
parse_submit_sm-make_deliver_sm_example =
    parse_submit_sm-make_deliver_sm 7 from to (text "hi") 1 1 1 1 (omega arith) (omega arith)
      IsAddress-from IsAddress-to

parse_fields-fields_bytes_example :
    parse_fields (fields_bytes greeting (2 ∷ text "hi!"))
    ≡ record greeting { short_message = take 2 (text "hi!") }
parse_fields-fields_bytes_example =
    parse_fields-fields_bytes greeting 2 (text "hi!") HasCstrs-greeting

abbrev before : List ℕ
before = 1 ∷ []

abbrev buffer : List ℕ
buffer = before ++ (2 ∷ 3 ∷ 4 ∷ 255 ∷ [])

abbrev noise : List ℕ
noise = 65 ∷ 66 ∷ 0 ∷ 1 ∷ 1 ∷ 67 ∷ []

All-noise : All IsByte noise
All-noise = ground arith
