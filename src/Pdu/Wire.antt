-- ===== src/Pdu/Wire.antt =====
-- smpp_pdu.hpp: big-endian words and the header. A `uint8_t*` is a buffer and an offset into it;
-- the callers stay inside the buffer, so the value that a read outside would give is never used.
use opensmsc.Base.{ℕ, ◌+◌, ◌*◌, ◌/◌, ◌^◌, ◌<◌, List, bit_and, bit_or, get_or, set, u32}

abbrev pub IsByte : ℕ → Type 0
IsByte b = b < 2 ^ 8

abbrev pub IsU32 : ℕ → Type 0
IsU32 v = v < 2 ^ 32

pub record Header : Type 0 where
  pub command_length : ℕ
  pub command_id : ℕ
  pub command_status : ℕ
  pub sequence_number : ℕ

unfoldable pub read_u32 : List ℕ → ℕ → ℕ
read_u32 p off =
    bit_or
      (bit_or (bit_or (u32 (get_or p off 0 * 2 ^ 24)) (u32 (get_or p (off + 1) 0 * 2 ^ 16)))
        (u32 (get_or p (off + 2) 0 * 2 ^ 8)))
      (get_or p (off + 3) 0)

unfoldable pub write_u32 : List ℕ → ℕ → ℕ → List ℕ
write_u32 p off v =
    let p = set p off (bit_and (v / 2 ^ 24) 0xff) in
    let p = set p (off + 1) (bit_and (v / 2 ^ 16) 0xff) in
    let p = set p (off + 2) (bit_and (v / 2 ^ 8) 0xff) in set p (off + 3) (bit_and v 0xff)

unfoldable pub decode_header : List ℕ → Header
decode_header buf = record {
  command_length = read_u32 buf 0;
  command_id = read_u32 buf 4;
  command_status = read_u32 buf 8;
  sequence_number = read_u32 buf 12;
}
