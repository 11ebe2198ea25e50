-- ===== src/Pdu/WireLaws.antt =====
-- Big-endian words: `read_u32`, `write_u32` and `decode_header` of smpp_pdu.hpp.
use opensmsc.Base.{
  ℕ, ◌+◌, ◌*◌, ◌/◌, ◌%◌, ◌^◌, ◌≡◌, List, [], ◌∷◌, ◌++◌, bit_and, bit_or, length, u32, arith, ◌∙◌,
  ap,
}
use native.Mathlib.Nat.{suc-add}
use opensmsc.Base.Bits.{bit_and-low, bit_or-shifted}
use opensmsc.Pdu.Wire.{IsByte, IsU32, read_u32, write_u32, decode_header}

-- The four bytes of a word, most significant first.
abbrev pub be32 : ℕ → List ℕ
be32 v = v / 2 ^ 24 % 2 ^ 8 ∷ v / 2 ^ 16 % 2 ^ 8 ∷ v / 2 ^ 8 % 2 ^ 8 ∷ v % 2 ^ 8 ∷ []

pub low_byte : (v : ℕ) → bit_and v 0xff ≡ v % 2 ^ 8
low_byte v = bit_and-low 8 v

pub or_bytes :
    (a b c d : ℕ)
    → IsByte a
    → IsByte b
    → IsByte c
    → IsByte d
    → bit_or (bit_or (bit_or (u32 (a * 2 ^ 24)) (u32 (b * 2 ^ 16))) (u32 (c * 2 ^ 8))) d
      ≡ a * 2 ^ 24 + b * 2 ^ 16 + c * 2 ^ 8 + d
or_bytes a b c d ha hb hc hd =
    let s1 : u32 (a * 2 ^ 24) ≡ a * 2 ^ 24 = omega arith in
    let s2 : u32 (b * 2 ^ 16) ≡ b * 2 ^ 16 = omega arith in
    let s3 : u32 (c * 2 ^ 8) ≡ c * 2 ^ 8 = omega arith in
    let e1 : a * 2 ^ 24 + b * 2 ^ 16 ≡ (a * 2 ^ 8 + b) * 2 ^ 16 = omega arith in
    let e2 : (a * 2 ^ 8 + b) * 2 ^ 16 + c * 2 ^ 8 ≡ ((a * 2 ^ 8 + b) * 2 ^ 8 + c) * 2 ^ 8 =
      omega arith in
    rw (s1, s2, s3, bit_or-shifted 24 a (b * 2 ^ 16) (omega arith), e1)
      (rw (bit_or-shifted 16 (a * 2 ^ 8 + b) (c * 2 ^ 8) (omega arith), e2)
        (rw (bit_or-shifted 8 ((a * 2 ^ 8 + b) * 2 ^ 8 + c) d (omega arith)) (omega arith)))

pub be32_bytes :
    (a b c d : ℕ)
    → IsByte a
    → IsByte b
    → IsByte c
    → IsByte d
    → be32 (a * 2 ^ 24 + b * 2 ^ 16 + c * 2 ^ 8 + d) ≡ a ∷ b ∷ c ∷ d ∷ []
be32_bytes a b c d ha hb hc hd = ground arith

-- A word read where four bytes stand is their big-endian value.
pub read_u32-bytes :
    (pre rest : List ℕ) (a b c d : ℕ)
    → IsByte a
    → IsByte b
    → IsByte c
    → IsByte d
    → read_u32 (pre ++ (a ∷ b ∷ c ∷ d ∷ rest)) (length pre)
      ≡ a * 2 ^ 24 + b * 2 ^ 16 + c * 2 ^ 8 + d
unfolding read_u32
read_u32-bytes [] rest a b c d ha hb hc hd = or_bytes a b c d ha hb hc hd
read_u32-bytes (x ∷ pre) rest a b c d ha hb hc hd =
    simp suc-add (read_u32-bytes pre rest a b c d ha hb hc hd)

pub read_u32-be32 :
    (pre rest : List ℕ) (v : ℕ) → IsU32 v → read_u32 (pre ++ (be32 v ++ rest)) (length pre) ≡ v
read_u32-be32 pre rest v h =
    read_u32-bytes pre rest _ _ _ _ (omega arith) (omega arith) (omega arith) (omega arith)
    ∙ omega arith

-- `write_u32` replaces four bytes by the word's, and touches no other.
pub write_u32-bytes :
    (pre rest : List ℕ) (a b c d v : ℕ)
    → write_u32 (pre ++ (a ∷ b ∷ c ∷ d ∷ rest)) (length pre) v ≡ pre ++ (be32 v ++ rest)
unfolding write_u32
write_u32-bytes [] rest a b c d v = simp low_byte
write_u32-bytes (x ∷ pre) rest a b c d v =
    simp suc-add (ap (λ (l : List ℕ). x ∷ l) (write_u32-bytes pre rest a b c d v))

-- A 32-bit word that was written over four bytes of a buffer is read back there.
pub read_u32-write_u32 :
    (pre rest : List ℕ) (a b c d v : ℕ)
    → IsU32 v
    → read_u32 (write_u32 (pre ++ (a ∷ b ∷ c ∷ d ∷ rest)) (length pre) v) (length pre) ≡ v
read_u32-write_u32 pre rest a b c d v h =
    rw (write_u32-bytes pre rest a b c d v) (read_u32-be32 pre rest v h)

-- Writing back a word that was read from four bytes of a buffer changes no byte of it.
pub write_u32-read_u32 :
    (pre rest : List ℕ) (a b c d : ℕ)
    → IsByte a
    → IsByte b
    → IsByte c
    → IsByte d
    → let buf = pre ++ (a ∷ b ∷ c ∷ d ∷ rest) in
      write_u32 buf (length pre) (read_u32 buf (length pre)) ≡ buf
write_u32-read_u32 pre rest a b c d ha hb hc hd =
    rw (write_u32-bytes pre rest a b c d, read_u32-bytes pre rest a b c d ha hb hc hd)
      (ap (λ (l : List ℕ). pre ++ (l ++ rest)) (be32_bytes a b c d ha hb hc hd))

-- The sixteen bytes of a header.
abbrev pub header_bytes : ℕ → ℕ → ℕ → ℕ → List ℕ
header_bytes total command_id command_status sequence_number =
    be32 total ++ (be32 command_id ++ (be32 command_status ++ be32 sequence_number))

-- `decode_header` gives back the four words that stand at the front of a PDU.
pub decode_header-header_bytes :
    (total command_id command_status sequence_number : ℕ) (body : List ℕ)
    → IsU32 total
    → IsU32 command_id
    → IsU32 command_status
    → IsU32 sequence_number
    → decode_header (header_bytes total command_id command_status sequence_number ++ body)
      ≡ record {
        command_length = total;
        command_id = command_id;
        command_status = command_status;
        sequence_number = sequence_number;
      }
unfolding decode_header
decode_header-header_bytes t i s q body ht hi hs hq = rw (
  read_u32-be32 [] (be32 i ++ (be32 s ++ (be32 q ++ body))) t ht,
  read_u32-be32 (be32 t) (be32 s ++ (be32 q ++ body)) i hi,
  read_u32-be32 (be32 t ++ be32 i) (be32 q ++ body) s hs,
  read_u32-be32 (be32 t ++ (be32 i ++ be32 s)) body q hq,
)
