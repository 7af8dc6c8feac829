-- ===== src/Tls/Extensions.antt =====
-- The payloads of the known extensions: internal/signal/tls/parser.go, lines 231 to 373.
pub mod Vectors
use anti_scrapling.Go.{
  ℕ, zero, suc, ◌+◌, ◌-◌, ◌*◌, ◌%◌, ◌==◌, ltb, leb, Bool, true, false, not, ◌||◌, if◌then◌else◌,
  Option, none, some, List, [], ◌∷◌, ◌++◌, Bytes, length, take, drop,
}
use anti_scrapling.Tls.Reader.{be16, uint16s}

-- The loop of `parseServerName`, on `data[off:end]`; `none` is a loop that has run out of fuel,
-- which Parser/Total excludes: each round takes three bytes at least.
unfoldable pub server_name_loop : ℕ → Bytes → Option Bytes
server_name_loop fuel [] = some []
server_name_loop zero (b ∷ rest) = none
server_name_loop (suc fuel) (name_type ∷ hi ∷ lo ∷ rest) =
    let later = server_name_loop fuel (drop (be16 hi lo) rest) in
    if ltb (length rest) (be16 hi lo)
    then some []
    else if name_type == 0
    then some (take (be16 hi lo) rest)
    else later
server_name_loop (suc fuel) _ = some []

abbrev pub name_of : Option Bytes → Bytes
name_of none = []
name_of (some name) = name

unfoldable pub parse_server_name : Bytes → Bytes
unfolding server_name_loop
parse_server_name (hi ∷ lo ∷ rest) =
    let names = take (be16 hi lo) rest in
    if ltb (length rest) (be16 hi lo) then [] else name_of (server_name_loop (length names) names)
parse_server_name _ = []

-- A 16-bit length, and that many bytes of 16-bit numbers.
unfoldable pub parse_uint16_vector16 : Bytes → List ℕ
unfolding uint16s
parse_uint16_vector16 (hi ∷ lo ∷ rest) =
    if ltb (length rest) (be16 hi lo) || not (be16 hi lo % 2 == 0)
    then []
    else uint16s (take (be16 hi lo) rest)
parse_uint16_vector16 _ = []

unfoldable pub parse_uint8_vector8 : Bytes → Bytes
parse_uint8_vector8 [] = []
parse_uint8_vector8 (n ∷ rest) = if ltb (length rest) n then [] else take n rest

unfoldable pub parse_supported_versions : Bytes → List ℕ
unfolding uint16s
parse_supported_versions [] = []
parse_supported_versions (n ∷ rest) =
    if ltb (length rest) n || not (n % 2 == 0) then [] else uint16s (take n rest)

-- What a loop over protocols comes to: the protocols, or `nil, false`.
pub data Alpn : Type 0 where
  listed : List Bytes → Alpn
  malformed no_fuel : Alpn

abbrev pub add_protocol : Bytes → Alpn → Alpn
add_protocol p (listed ps) = listed (p ∷ ps)
add_protocol p malformed = malformed
add_protocol p no_fuel = no_fuel

-- The loop of `parseALPNStandard`, on `data[off:]`. Parser/Total excludes `no_fuel`.
unfoldable pub alpn_standard_loop : ℕ → Bytes → Alpn
alpn_standard_loop fuel [] = listed []
alpn_standard_loop zero (n ∷ rest) = no_fuel
alpn_standard_loop (suc fuel) (n ∷ rest) =
    let later = alpn_standard_loop fuel (drop n rest) in
    if n == 0 || ltb (length rest) n then malformed else add_protocol (take n rest) later

-- `protocols, len(protocols) > 0`
abbrev pub nonempty : Alpn → Option (List Bytes)
nonempty (listed []) = none
nonempty (listed (p ∷ ps)) = some (p ∷ ps)
nonempty malformed = none
nonempty no_fuel = none

unfoldable pub parse_alpn_standard : Bytes → Option (List Bytes)
unfolding alpn_standard_loop
parse_alpn_standard (hi ∷ lo ∷ rest) =
    if be16 hi lo == length rest then nonempty (alpn_standard_loop (length rest) rest) else none
parse_alpn_standard _ = none

-- The loop of `parseALPNTwoByteLengths`.
unfoldable pub alpn_two_byte_loop : ℕ → Bytes → Alpn
alpn_two_byte_loop fuel [] = listed []
alpn_two_byte_loop zero (a ∷ rest) = no_fuel
alpn_two_byte_loop (suc fuel) (a ∷ []) = malformed
alpn_two_byte_loop (suc fuel) (hi ∷ lo ∷ rest) =
    let later = alpn_two_byte_loop fuel (drop (be16 hi lo) rest) in
    if be16 hi lo == 0 || ltb (length rest) (be16 hi lo)
    then malformed
    else add_protocol (take (be16 hi lo) rest) later

unfoldable pub parse_alpn_two_byte_lengths : Bytes → Option (List Bytes)
unfolding alpn_two_byte_loop
parse_alpn_two_byte_lengths (hi ∷ lo ∷ rest) =
    if be16 hi lo == length rest then nonempty (alpn_two_byte_loop (length rest) rest) else none
parse_alpn_two_byte_lengths _ = none

unfoldable pub parse_alpn : Bytes → List Bytes
unfolding parse_alpn_standard parse_alpn_two_byte_lengths
parse_alpn data' = elim (parse_alpn_standard data') [
  | some protocols ↦ protocols
  | none ↦ elim (parse_alpn_two_byte_lengths data') [ some protocols ↦ protocols | none ↦ [] ]
]
