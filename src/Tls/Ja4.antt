-- ===== src/Tls/Ja4.antt =====
-- internal/signal/tls/ja4.go.
pub mod Order
use anti_scrapling.Go.{
  ℕ, zero, suc, ◌+◌, ◌/◌, ◌%◌, ◌==◌, ltb, leb, Bool, true, false, ◌&&◌, ◌||◌, if◌then◌else◌, Option,
  none, some, List, [], ◌∷◌, ◌++◌, map, take, length, Bytes, codes, join, hex, decimal_digits,
  Result, ok, err, ◌>>=◌,
}
use anti_scrapling.Tls.Reader.{ParseError}
use anti_scrapling.Tls.Parser.{
  Extension, ClientHello, ClientHelloInfo, empty_fields, parse_client_hello, client_hello_from_tls,
}
use anti_scrapling.Tls.Ja3.{is_grease, filter_grease, extension_ids, join_uint16s}

-- GREASE values and TLS_EMPTY_RENEGOTIATION_INFO_SCSV are left out.
unfoldable pub filter_ja4_ciphers : List ℕ → List ℕ
filter_ja4_ciphers [] = []
filter_ja4_ciphers (v ∷ vs) =
    let rest = filter_ja4_ciphers vs in if is_grease v || v == 0x00ff then rest else v ∷ rest

unfoldable pub max_version : ℕ → List ℕ → ℕ
max_version so_far [] = so_far
max_version so_far (v ∷ vs) =
    if is_grease v
    then max_version so_far vs
    else if ltb so_far v
    then max_version v vs
    else max_version so_far vs

unfoldable pub max_tls_version : ClientHello → ℕ
unfolding max_version
max_tls_version hello = max_version hello.version hello.supported_versions

unfoldable pub ja4_tls_version : ℕ → Bytes
ja4_tls_version v =
    if v == 0x0304
    then codes "13"
    else if v == 0x0303
    then codes "12"
    else if v == 0x0302
    then codes "11"
    else if v == 0x0301
    then codes "10"
    else codes "00"

unfoldable pub ja4_sni_type : ClientHello → Bytes
ja4_sni_type hello = elim hello.server_name [ [] ↦ codes "i" | c ∷ cs ↦ codes "d" ]

-- The last byte of a text that is not empty.
unfoldable pub last_byte : ℕ → Bytes → ℕ
last_byte c [] = c
last_byte c (d ∷ cs) = last_byte d cs

unfoldable pub ja4_alpn : List Bytes → Bytes
unfolding last_byte
ja4_alpn [] = codes "00"
ja4_alpn ([] ∷ ps) = codes "00"
ja4_alpn ((c ∷ cs) ∷ ps) = c ∷ last_byte c cs ∷ []

-- `sort.Slice` by `<`, as insertion: numbers that are equal are one value, so the result is the
-- only sorted arrangement.
unfoldable pub insert_uint16 : ℕ → List ℕ → List ℕ
insert_uint16 v [] = v ∷ []
insert_uint16 v (w ∷ ws) = let rest = insert_uint16 v ws in if leb v w then v ∷ w ∷ ws else w ∷ rest

unfoldable pub sorted_uint16s : List ℕ → List ℕ
unfolding insert_uint16
sorted_uint16s [] = []
sorted_uint16s (v ∷ vs) = insert_uint16 v (sorted_uint16s vs)

-- Server name and ALPN are left out.
unfoldable pub hashed_extensions : List ℕ → List ℕ
hashed_extensions [] = []
hashed_extensions (v ∷ vs) =
    let rest = hashed_extensions vs in if v == 0 || v == 16 then rest else v ∷ rest

unfoldable pub ja4_extension_hash_input : List ℕ → List ℕ → Bytes
unfolding sorted_uint16s hashed_extensions join_uint16s
ja4_extension_hash_input extensions signature_algorithms =
    join_uint16s (sorted_uint16s (hashed_extensions extensions) ++ signature_algorithms) (codes ",")

-- The verb %02d on a length.
unfoldable pub two_digits : ℕ → Bytes
unfolding decimal_digits
two_digits n = if ltb n 10 then b'0' ∷ (b'0' + n) ∷ [] else decimal_digits n n

-- `sha256` is the digest of crypto/sha256.
module _ (sha256 : Bytes → Bytes) where
  -- The digits of `hex` are lowercase, so `strings.ToLower` returns its argument.
  unfoldable pub sha256_truncated12 : Bytes → Bytes
  unfolding hex
  sha256_truncated12 value = take 12 (hex (sha256 value))

  unfoldable pub ja4_of : ClientHello → Bytes
  unfolding filter_ja4_ciphers filter_grease extension_ids ja4_tls_version max_tls_version
      ja4_sni_type two_digits ja4_alpn sorted_uint16s ja4_extension_hash_input sha256_truncated12
      join_uint16s
  ja4_of hello =
      let ciphers = filter_ja4_ciphers hello.cipher_suites in
      let extensions = filter_grease (extension_ids hello.extensions) in
      codes "t"
      ++ (ja4_tls_version (max_tls_version hello)
          ++ (ja4_sni_type hello
              ++ (two_digits (length ciphers)
                  ++ (two_digits (length extensions)
                      ++ (ja4_alpn hello.supported_protos
                          ++ (codes "_"
                              ++ (sha256_truncated12
                                    (join_uint16s (sorted_uint16s ciphers) (codes ","))
                                  ++ (codes "_"
                                      ++ sha256_truncated12 (
                                          ja4_extension_hash_input extensions
                                            hello.signature_algorithms)))))))))

  -- A nil hello stands for `&ClientHello{}`.
  unfoldable pub ja4_string : Option ClientHello → Bytes
  unfolding ja4_of
  ja4_string none = ja4_of (empty_fields 0)
  ja4_string (some hello) = ja4_of hello

  unfoldable pub ja4_from_raw : Bytes → Result ParseError Bytes
  unfolding parse_client_hello ja4_string
  ja4_from_raw raw = do hello ← parse_client_hello raw; ok (ja4_string (some hello))

  unfoldable pub ja4_from_tls : Option ClientHelloInfo → Bytes
  unfolding client_hello_from_tls ja4_string
  ja4_from_tls info = ja4_string (some (client_hello_from_tls info))
