-- ===== src/Tls/Ja3.antt =====
-- internal/signal/tls/ja3.go.
pub mod Grease
pub mod Injective
use anti_scrapling.Go.{
  ℕ, ◌+◌, ◌/◌, ◌%◌, ◌==◌, Bool, true, false, ◌&&◌, ◌||◌, if◌then◌else◌, Option, none, some, List,
  [], ◌∷◌, ◌++◌, map, Bytes, codes, join, hex, decimal_digits, Result, ok, err, ◌>>=◌,
}
use anti_scrapling.Tls.Reader.{ParseError}
use anti_scrapling.Tls.Parser.{
  Extension, ClientHello, ClientHelloInfo, parse_client_hello, client_hello_from_tls,
}

-- `greaseValues`
abbrev pub grease_values : List ℕ
grease_values =
    0x0a0a ∷ 0x1a1a ∷ 0x2a2a ∷ 0x3a3a ∷ 0x4a4a ∷ 0x5a5a ∷ 0x6a6a ∷ 0x7a7a ∷ 0x8a8a ∷ 0x9a9a ∷ 0xaaaa
    ∷ 0xbaba ∷ 0xcaca ∷ 0xdada ∷ 0xeaea ∷ 0xfafa ∷ []

unfoldable pub is_key : ℕ → List ℕ → Bool
is_key v [] = false
is_key v (k ∷ ks) = v == k || is_key v ks

unfoldable pub is_grease : ℕ → Bool
unfolding is_key
is_grease v = is_key v grease_values

unfoldable pub filter_grease : List ℕ → List ℕ
filter_grease [] = []
filter_grease (v ∷ vs) = let rest = filter_grease vs in if is_grease v then rest else v ∷ rest

unfoldable pub extension_ids : List Extension → List ℕ
extension_ids [] = []
extension_ids (ext ∷ exts) = ext.type ∷ extension_ids exts

-- `strconv.Itoa` of a 16-bit number, which has five digits at most.
unfoldable pub itoa : ℕ → Bytes
unfolding decimal_digits
itoa n = decimal_digits 4 n

unfoldable pub join_uint16s : List ℕ → Bytes → Bytes
unfolding itoa join
join_uint16s values sep = join (map itoa values) sep

-- `joinUint8s` has the same body at the other type.
abbrev pub join_uint8s : List ℕ → Bytes → Bytes
join_uint8s = join_uint16s

unfoldable pub ja3_string : Option ClientHello → Bytes
unfolding filter_grease extension_ids join_uint16s itoa join
ja3_string none = codes ",,,,"
ja3_string (some hello) =
    join
      (itoa hello.version
        ∷ join_uint16s (filter_grease hello.cipher_suites) (codes "-")
        ∷ join_uint16s (filter_grease (extension_ids hello.extensions)) (codes "-")
        ∷ join_uint16s (filter_grease hello.supported_curves) (codes "-")
        ∷ join_uint8s hello.supported_points (codes "-")
        ∷ [])
      (codes ",")

-- `md5` is the digest of crypto/md5.
module _ (md5 : Bytes → Bytes) where
  unfoldable pub ja3_hash : Bytes → Bytes
  unfolding hex
  ja3_hash ja3 = hex (md5 ja3)

  unfoldable pub ja3_from_raw : Bytes → Result ParseError (Bytes × Bytes)
  unfolding parse_client_hello ja3_string ja3_hash
  ja3_from_raw raw = do
    hello ← parse_client_hello raw
    ok (ja3_string (some hello), ja3_hash (ja3_string (some hello)))

  unfoldable pub ja3_from_tls : Option ClientHelloInfo → Bytes × Bytes
  unfolding client_hello_from_tls ja3_string ja3_hash
  ja3_from_tls info = (
    ja3_string (some (client_hello_from_tls info)),
    ja3_hash (ja3_string (some (client_hello_from_tls info))),
  )
