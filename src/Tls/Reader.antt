-- ===== src/Tls/Reader.antt =====
-- `byteReader` of internal/signal/tls/parser.go. The reader is the list of the bytes that it has
-- not read, `data[off:]`.
pub mod Laws
use anti_scrapling.Go.{
  ℕ, zero, suc, ◌+◌, ◌*◌, ltb, if◌then◌else◌, List, [], ◌∷◌, Bytes, Result, ok, err, length, take,
  drop,
}

-- The errors of parser.go. `out_of_fuel` is no Go value: a loop of this model ran out of rounds.
pub data Part : Type 0 where
  version random session_id_length session_id cipher_length ciphers : Part
  compression_length compression extensions_length extensions : Part
  extension_type : Part
  extension_length extension_data : ℕ → Part

pub data ParseError : Type 0 where
  unexpected_eof : Part → ParseError
  odd_ciphers : ℕ → ParseError
  trailing : ℕ → ParseError
  empty_hello truncated_record truncated_handshake truncated_hello : ParseError
  handshake_type : ℕ → ParseError
  out_of_fuel : ParseError

abbrev pub Parsed : Type 0 → Type 0
Parsed A = Result ParseError A

-- `binary.BigEndian.Uint16`
abbrev pub be16 : ℕ → ℕ → ℕ
be16 hi lo = hi * 256 + lo

-- Each read names the part that the caller's error would name.
unfoldable pub read_uint8 : Part → Bytes → Parsed (ℕ × Bytes)
read_uint8 part [] = err (unexpected_eof part)
read_uint8 part (b ∷ rest) = ok (b, rest)

unfoldable pub read_uint16 : Part → Bytes → Parsed (ℕ × Bytes)
read_uint16 part (hi ∷ lo ∷ rest) = ok (be16 hi lo, rest)
read_uint16 part _ = err (unexpected_eof part)

-- A length comes from an unsigned number, so it is not negative.
unfoldable pub read_bytes : Part → ℕ → Bytes → Parsed (Bytes × Bytes)
read_bytes part n data' =
    if ltb (length data') n then err (unexpected_eof part) else ok (take n data', drop n data')

-- The loop that reads pairs of bytes as 16-bit numbers, `i += 2`.
unfoldable pub uint16s : Bytes → List ℕ
uint16s (hi ∷ lo ∷ rest) = be16 hi lo ∷ uint16s rest
uint16s _ = []
