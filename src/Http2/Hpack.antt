-- ===== src/Http2/Hpack.antt =====
-- The HPACK name decoder of internal/signal/http2/frames.go.
pub mod Integer
pub mod Total
use anti_scrapling.Go.{
  ℕ, zero, suc, ◌+◌, ◌-◌, ◌*◌, ◌%◌, ◌^◌, ltb, leb, Bool, if◌then◌else◌, Option, none, some, List,
  [], ◌∷◌, ◌++◌, Bytes, codes, length, take, drop, get_elem?, Result, ok, err, ◌>>=◌, ◌>>◌, guard,
}

-- `out_of_fuel` is no Go value: a loop of this model ran out of rounds.
pub data FrameError : Type 0 where
  need_more_data integer_overflow : FrameError
  bad_settings_length bad_window_update_length bad_priority_length bad_padding : ℕ → FrameError
  out_of_fuel : FrameError

abbrev pub Parsed : Type 0 → Type 0
Parsed A = Result FrameError A

-- The loop of `readHPACKInt`, on uint64 numbers. A byte below 128 ends it.
unfoldable pub hpack_int_loop : ℕ → ℕ → Bytes → Parsed (ℕ × Bytes)
hpack_int_loop shift value [] = err need_more_data
hpack_int_loop shift value (b ∷ data') =
    let value' = (value + b % 128 * 2 ^ shift) % 2 ^ 64 in
    let later = hpack_int_loop (shift + 7) value' data' in
    if ltb b 128
    then ok (value', data')
    else if ltb 56 (shift + 7)
    then err integer_overflow
    else later

-- `mask` is 2^prefix - 1.
unfoldable pub read_hpack_int : ℕ → Bytes → Parsed (ℕ × Bytes)
unfolding hpack_int_loop
read_hpack_int prefix [] = err need_more_data
read_hpack_int prefix (b ∷ data') =
    if ltb (b % 2 ^ prefix) (2 ^ prefix - 1)
    then ok (b % 2 ^ prefix, data')
    else hpack_int_loop 0 (b % 2 ^ prefix) data'

-- The string of `n` bytes; a text in the Huffman code is left unread.
unfoldable pub hpack_text : Bool → ℕ → Bytes → Parsed (Bytes × Bytes)
hpack_text huffman n rest =
    if ltb (length rest) n
    then err need_more_data
    else ok (if huffman then [] else take n rest, drop n rest)

unfoldable pub read_hpack_string : Bytes → Parsed (Bytes × Bytes)
unfolding read_hpack_int hpack_text
read_hpack_string [] = err need_more_data
read_hpack_string (b ∷ data') = do
  (n, rest) ← read_hpack_int 7 (b ∷ data')
  hpack_text (leb 128 b) n rest

-- `hpackStaticNames`
abbrev pub hpack_static_names : List Bytes
hpack_static_names =
    codes ":authority"
    ∷ codes ":method"
    ∷ codes ":method"
    ∷ codes ":path"
    ∷ codes ":path"
    ∷ codes ":scheme"
    ∷ codes ":scheme"
    ∷ codes ":status"
    ∷ codes ":status"
    ∷ codes ":status"
    ∷ codes ":status"
    ∷ codes ":status"
    ∷ codes ":status"
    ∷ codes ":status"
    ∷ codes "accept-charset"
    ∷ codes "accept-encoding"
    ∷ codes "accept-language"
    ∷ codes "accept-ranges"
    ∷ codes "accept"
    ∷ codes "access-control-allow-origin"
    ∷ codes "age"
    ∷ codes "allow"
    ∷ codes "authorization"
    ∷ codes "cache-control"
    ∷ codes "content-disposition"
    ∷ codes "content-encoding"
    ∷ codes "content-language"
    ∷ codes "content-length"
    ∷ codes "content-location"
    ∷ codes "content-range"
    ∷ codes "content-type"
    ∷ codes "cookie"
    ∷ codes "date"
    ∷ codes "etag"
    ∷ codes "expect"
    ∷ codes "expires"
    ∷ codes "from"
    ∷ codes "host"
    ∷ codes "if-match"
    ∷ codes "if-modified-since"
    ∷ codes "if-none-match"
    ∷ codes "if-range"
    ∷ codes "if-unmodified-since"
    ∷ codes "last-modified"
    ∷ codes "link"
    ∷ codes "location"
    ∷ codes "max-forwards"
    ∷ codes "proxy-authenticate"
    ∷ codes "proxy-authorization"
    ∷ codes "range"
    ∷ codes "referer"
    ∷ codes "refresh"
    ∷ codes "retry-after"
    ∷ codes "server"
    ∷ codes "set-cookie"
    ∷ codes "strict-transport-security"
    ∷ codes "transfer-encoding"
    ∷ codes "user-agent"
    ∷ codes "vary"
    ∷ codes "via"
    ∷ codes "www-authenticate"
    ∷ []

abbrev pub or_empty : Option Bytes → Bytes
or_empty none = []
or_empty (some name) = name

-- Indices beyond the two tables name nothing. The decoder's state is `dynamicNames`.
unfoldable pub lookup_name : List Bytes → ℕ → Bytes
lookup_name dynamic zero = []
lookup_name dynamic (suc i) =
    if ltb i (length hpack_static_names)
    then or_empty (get_elem? hpack_static_names i)
    else or_empty (get_elem? dynamic (i - length hpack_static_names))

unfoldable pub add_dynamic_name : Bytes → List Bytes → List Bytes
add_dynamic_name [] dynamic = dynamic
add_dynamic_name (c ∷ name) dynamic = (c ∷ name) ∷ dynamic

-- The name of a literal: by index, or a string of its own behind index 0.
unfoldable pub literal_name : List Bytes → ℕ → Bytes → Parsed (Bytes × Bytes)
unfolding lookup_name read_hpack_string
literal_name dynamic zero rest = read_hpack_string rest
literal_name dynamic (suc i) rest = ok (lookup_name dynamic (suc i), rest)

unfoldable pub read_literal_name : List Bytes → ℕ → Bytes → Parsed (Bytes × Bytes)
unfolding read_hpack_int literal_name read_hpack_string
read_literal_name dynamic prefix block = do
  (index, rest) ← read_hpack_int prefix block
  (name, rest') ← literal_name dynamic index rest
  (value, rest'') ← read_hpack_string rest'
  ok (name, rest'')

-- A round of `decode`: the name, empty for none, the dynamic table and the rest of the block.
unfoldable pub decode_field : List Bytes → ℕ → Bytes → Parsed (Bytes × List Bytes × Bytes)
unfolding read_hpack_int lookup_name read_literal_name add_dynamic_name
decode_field dynamic b block =
    if leb 128 b
    then (read_hpack_int 7 block >>= λ (index, rest). ok (lookup_name dynamic index, dynamic, rest))
    else if leb 64 b
    then (read_literal_name dynamic 6 block >>= λ (name, rest).
        ok (name, add_dynamic_name name dynamic, rest))
    else if leb 32 b
    then (read_hpack_int 5 block >>= λ (size, rest). ok ([], dynamic, rest))
    else (read_literal_name dynamic 4 block >>= λ (name, rest). ok (name, dynamic, rest))

-- `names = append(names, name)` where the name is not empty.
abbrev pub add_name : Bytes → List Bytes → List Bytes
add_name [] names = names
add_name (c ∷ name) names = (c ∷ name) ∷ names

-- `decode`: the names in order, and the dynamic table.
unfoldable pub decode : ℕ → List Bytes → Bytes → Parsed (List Bytes × List Bytes)
unfolding decode_field
decode fuel dynamic [] = ok ([], dynamic)
decode zero dynamic (b ∷ block) = err out_of_fuel
decode (suc fuel) dynamic (b ∷ block) = do
  (name, dynamic', rest) ← decode_field dynamic b (b ∷ block)
  (names, dynamic'') ← decode fuel dynamic' rest
  ok (add_name name names, dynamic'')
