-- ===== src/Tls/Parser.antt =====
-- `ParseClientHello`: internal/signal/tls/parser.go.
pub mod RoundTrip
pub mod Shape
pub mod Total
pub mod Known
use anti_scrapling.Go.{
  ℕ, zero, suc, ◌+◌, ◌*◌, ◌%◌, ◌==◌, ltb, leb, not, if◌then◌else◌, Bool, List, [], ◌∷◌, ◌++◌, Bytes,
  Result, ok, err, ◌>>=◌, ◌>>◌, guard, length, take, drop, Option, none, some,
}
use anti_scrapling.Tls.Reader.{
  Part, version, random, session_id_length, session_id, cipher_length, ciphers, compression_length,
  compression, extensions_length, extensions, extension_type, extension_length, extension_data,
  ParseError, unexpected_eof, odd_ciphers, trailing, empty_hello, truncated_record,
  truncated_handshake, truncated_hello, handshake_type, out_of_fuel, Parsed, be16, read_uint8,
  read_uint16, read_bytes, uint16s,
}
use anti_scrapling.Tls.Extensions.{
  parse_server_name, parse_uint16_vector16, parse_uint8_vector8, parse_supported_versions,
  parse_alpn,
}

pub record Extension : Type 0 where
  pub type : ℕ
  pub payload : Bytes

pub record ClientHello : Type 0 where
  pub version : ℕ
  pub random : Bytes
  pub session_id : Bytes
  pub cipher_suites : List ℕ
  pub compression_methods : Bytes
  pub extensions : List Extension
  pub supported_curves : List ℕ
  pub supported_points : Bytes
  pub supported_protos : List Bytes
  pub supported_versions : List ℕ
  pub signature_algorithms : List ℕ
  pub server_name : Bytes

abbrev pub empty_fields : ℕ → ClientHello
empty_fields v = record {
  version = v;
  random = [];
  session_id = [];
  cipher_suites = [];
  compression_methods = [];
  extensions = [];
  supported_curves = [];
  supported_points = [];
  supported_protos = [];
  supported_versions = [];
  signature_algorithms = [];
  server_name = [];
}

unfoldable pub parse_known_extension : Extension → ClientHello → ClientHello
parse_known_extension ext hello =
    if ext.type == 0
    then record hello { server_name = parse_server_name ext.payload }
    else if ext.type == 10
    then record hello { supported_curves = parse_uint16_vector16 ext.payload }
    else if ext.type == 11
    then record hello { supported_points = parse_uint8_vector8 ext.payload }
    else if ext.type == 13
    then record hello { signature_algorithms = parse_uint16_vector16 ext.payload }
    else if ext.type == 16
    then record hello { supported_protos = parse_alpn ext.payload }
    else if ext.type == 43
    then record hello { supported_versions = parse_supported_versions ext.payload }
    else hello

unfoldable pub add_extension : Extension → ClientHello → ClientHello
unfolding parse_known_extension
add_extension ext hello =
    parse_known_extension ext (record hello { extensions = hello.extensions ++ (ext ∷ []) })

-- The three reads of a round of `parseExtensions`.
unfoldable pub read_extension : Bytes → Parsed (Extension × Bytes)
unfolding read_uint16 read_bytes
read_extension data' = do
  (type, r1) ← read_uint16 extension_type data'
  (len, r2) ← read_uint16 (extension_length type) r1
  (payload, r3) ← read_bytes (extension_data type) len r2
  ok (record { type = type; payload = payload }, r3)

-- The loop of `parseExtensions`: each round reads four bytes at least.
unfoldable pub parse_extensions : ℕ → Bytes → ClientHello → Parsed ClientHello
unfolding read_extension add_extension
parse_extensions fuel [] hello = ok hello
parse_extensions zero (b ∷ rest) hello = err out_of_fuel
parse_extensions (suc fuel) (b ∷ rest) hello = do
  (ext, later) ← read_extension (b ∷ rest)
  parse_extensions fuel later (add_extension ext hello)

-- `handshake[1]<<16 | handshake[2]<<8 | handshake[3]`
abbrev pub be24 : ℕ → ℕ → ℕ → ℕ
be24 a b c = a * 65536 + b * 256 + c

unfoldable pub handshake_body : Bytes → Parsed Bytes
handshake_body (type ∷ a ∷ b ∷ c ∷ rest) =
    if not (type == 1)
    then err (handshake_type type)
    else if ltb (length rest) (be24 a b c)
    then err truncated_hello
    else ok (take (be24 a b c) rest)
handshake_body _ = err truncated_handshake

unfoldable pub client_hello_body : Bytes → Parsed Bytes
unfolding handshake_body
client_hello_body [] = err empty_hello
client_hello_body (type ∷ v1 ∷ v2 ∷ hi ∷ lo ∷ rest) =
    if type == 22
    then if ltb (length rest) (be16 hi lo)
      then err truncated_record
      else handshake_body (take (be16 hi lo) rest)
    else handshake_body (type ∷ v1 ∷ v2 ∷ hi ∷ lo ∷ rest)
client_hello_body raw = handshake_body raw

-- The fields before the extensions, and the bytes after them.
unfoldable pub parse_fields : Bytes → Parsed (ClientHello × Bytes)
unfolding read_uint8 read_uint16 read_bytes uint16s
parse_fields body = do
  (legacy_version, r1) ← read_uint16 version body
  (nonce, r2) ← read_bytes random 32 r1
  (session_len, r3) ← read_uint8 session_id_length r2
  (session, r4) ← read_bytes session_id session_len r3
  (cipher_len, r5) ← read_uint16 cipher_length r4
  guard (cipher_len % 2 == 0) (odd_ciphers cipher_len)
  (cipher_bytes, r6) ← read_bytes ciphers cipher_len r5
  (compression_len, r7) ← read_uint8 compression_length r6
  (methods, r8) ← read_bytes compression compression_len r7
  ok (
    record (empty_fields legacy_version) {
      random = nonce;
      session_id = session;
      cipher_suites = uint16s cipher_bytes;
      compression_methods = methods;
    },
    r8,
  )

-- What `ParseClientHello` does after the fields.
unfoldable pub parse_rest : ClientHello → Bytes → Parsed ClientHello
unfolding read_uint16 read_bytes parse_extensions
parse_rest hello [] = ok hello
parse_rest hello (b ∷ data') = do
  (len, r1) ← read_uint16 extensions_length (b ∷ data')
  (extension_bytes, r2) ← read_bytes extensions len r1
  guard (length r2 == 0) (trailing (length r2))
  parse_extensions (length extension_bytes) extension_bytes hello

unfoldable pub parse_client_hello : Bytes → Parsed ClientHello
unfolding client_hello_body parse_fields parse_rest
parse_client_hello raw = do
  body ← client_hello_body raw
  (hello, rest) ← parse_fields body
  parse_rest hello rest

-- The fields of `tls.ClientHelloInfo` that the program reads.
pub record ClientHelloInfo : Type 0 where
  pub cipher_suites : List ℕ
  pub server_name : Bytes
  pub supported_points : Bytes
  pub supported_protos : List Bytes
  pub supported_versions : List ℕ
  pub supported_curves : List ℕ
  pub signature_schemes : List ℕ

-- An id that is appended where the field is not empty.
unfoldable pub id_if {ℓ} : {A : Type ℓ} → ℕ → List A → List Extension
id_if id [] = []
id_if id (x ∷ xs) = record { type = id; payload = [] } ∷ []

unfoldable pub inferred_extensions : ClientHello → List Extension
unfolding id_if
inferred_extensions hello =
    id_if 0 hello.server_name
    ++ (id_if 10 hello.supported_curves
        ++ (id_if 11 hello.supported_points
            ++ (id_if 13 hello.signature_algorithms
                ++ (id_if 16 hello.supported_protos ++ id_if 43 hello.supported_versions))))

-- `clientHelloInfoExtensions` returns nil, so the ids are always the inferred ones.
unfoldable pub client_hello_from_tls : Option ClientHelloInfo → ClientHello
unfolding inferred_extensions
client_hello_from_tls none = empty_fields 0x0303
client_hello_from_tls (some info) =
    let hello = record (empty_fields 0x0303) {
      cipher_suites = info.cipher_suites;
      server_name = info.server_name;
      supported_points = info.supported_points;
      supported_protos = info.supported_protos;
      supported_versions = info.supported_versions;
      supported_curves = info.supported_curves;
      signature_algorithms = info.signature_schemes;
    } in
    record hello { extensions = inferred_extensions hello }
