-- ===== src/Tls/Parser/Shape.antt =====
-- What every successful run of `ParseClientHello` returns.
use anti_scrapling.Go.{
  ℕ, zero, suc, ◌+◌, ◌*◌, ◌%◌, ◌≤◌, ◌≡◌, refl, ap, ◌∙◌, List, [], ◌∷◌, ◌++◌, Bytes, ok, bind-eq-ok,
  after_ok, after_guard, ok_injective, length, arith, take, length-take, ◌==◌, true,
}
use anti_scrapling.Tls.Reader.{
  read_uint8, read_uint16, read_bytes, extension_data, version, random, session_id_length,
  session_id, cipher_length, ciphers, compression_length, compression, extensions_length,
  extensions, be16, uint16s, odd_ciphers, trailing,
}
use anti_scrapling.Tls.Reader.Laws.{
  read_uint8-shorter, length-uint16s, read_uint16-shorter, read_bytes-shorter,
}
use anti_scrapling.Tls.Parser.{
  Extension, ClientHello, add_extension, parse_known_extension, be24, read_extension,
  parse_extensions, handshake_body, client_hello_body, parse_fields, parse_rest, parse_client_hello,
}

pub read_extension-shorter :
    (data' : Bytes) {ext : Extension} {rest : Bytes}
    → read_extension data' ≡ ok (ext, rest)
    → length data' ≡ length rest + length ext.payload + 4
unfolding read_extension
read_extension-shorter (a ∷ b ∷ c ∷ d ∷ rest) h =
    let r = bind-eq-ok (read_bytes (extension_data (be16 a b)) (be16 c d) rest) _ h in
    ground (arith, r, read_bytes-shorter (extension_data (be16 a b)) (be16 c d) rest r.1)
read_extension-shorter (a ∷ b ∷ c ∷ []) h = cc
read_extension-shorter (a ∷ b ∷ []) h = cc
read_extension-shorter (a ∷ []) h = cc
read_extension-shorter [] h = cc

parse_known_extension-extensions :
    (ext : Extension) (hello : ClientHello)
    → (parse_known_extension ext hello).extensions ≡ hello.extensions
unfolding parse_known_extension
parse_known_extension-extensions ext hello = ground arith

abbrev pub extension_sizes : List Extension → ℕ
extension_sizes [] = 0
extension_sizes (ext ∷ exts) = 4 + length ext.payload + extension_sizes exts

extension_sizes-append :
    (xs ys : List Extension) → extension_sizes (xs ++ ys) ≡ extension_sizes xs + extension_sizes ys
extension_sizes-append [] ys = omega arith
extension_sizes-append (x ∷ xs) ys = omega (arith, extension_sizes-append xs ys)

add_extension-extensions :
    (ext : Extension) (hello : ClientHello)
    → (add_extension ext hello).extensions ≡ hello.extensions ++ (ext ∷ [])
unfolding add_extension
add_extension-extensions ext hello =
    parse_known_extension-extensions ext
      (record hello { extensions = hello.extensions ++ (ext ∷ []) })

-- The bytes that the fields before the extensions stand for.
abbrev pub field_sizes : ClientHello → ℕ
field_sizes h = 38 + length h.session_id + length h.cipher_suites * 2 + length h.compression_methods

add_extension-field_sizes :
    (ext : Extension) (hello : ClientHello)
    → (field_sizes (add_extension ext hello) ≡ field_sizes hello)
      × ((add_extension ext hello).random ≡ hello.random)
unfolding add_extension parse_known_extension
add_extension-field_sizes ext hello = ground arith

-- What the loop keeps of the fields, and how many bytes it turns into extensions.
parse_extensions_sizes :
    (fuel : ℕ) (data' : Bytes) (hello : ClientHello) {result : ClientHello}
    → parse_extensions fuel data' hello ≡ ok result
    → (extension_sizes result.extensions ≡ extension_sizes hello.extensions + length data')
      × (field_sizes result ≡ field_sizes hello)
      × (result.random ≡ hello.random)
unfolding parse_extensions
parse_extensions_sizes fuel [] hello h = ground arith
parse_extensions_sizes zero (b ∷ rest) hello h = cc
parse_extensions_sizes (suc fuel) (b ∷ rest) hello h =
    let r = bind-eq-ok (read_extension (b ∷ rest)) _ h in
    let ext = r.0.0 in
    ground (
      arith,
      read_extension-shorter (b ∷ rest) r.1,
      parse_extensions_sizes fuel r.0.1 (add_extension ext hello) r.2,
      add_extension-extensions ext hello,
      extension_sizes-append hello.extensions (ext ∷ []),
      add_extension-field_sizes ext hello,
    )

even : (n len : ℕ) → (n % 2 == 0) ≡ true → len ≡ n → len % 2 ≡ 0
even n len h k = ground arith

-- The numbers of the reads of `parse_fields`, added up.
reads_total :
    {b b1 b2 b3 b4 b5 b6 b7 session n4 n6 cipher_bytes methods n8 : ℕ} (suites b8 : ℕ)
    → b ≡ b1 + 2
    → b1 ≡ b2 + 32
    → b2 ≡ b3 + 1
    → (session ≡ n4) × (b3 ≡ b4 + n4)
    → b4 ≡ b5 + 2
    → suites * 2 ≡ cipher_bytes
    → (cipher_bytes ≡ n6) × (b5 ≡ b6 + n6)
    → b6 ≡ b7 + 1
    → (methods ≡ n8) × (b7 ≡ b8 + n8)
    → b ≡ 38 + session + suites * 2 + methods + b8
reads_total suites b8 e1 e2 e3 e4 e5 e6 e7 e8 e9 = omega arith

parse_fields_sizes :
    (body : Bytes) {p : ClientHello × Bytes}
    → parse_fields body ≡ ok p
    → (length body ≡ field_sizes p.0 + length p.1)
      × (length (p.0).random ≡ 32)
      × ((p.0).extensions ≡ [])
unfolding parse_fields
parse_fields_sizes body h = after_ok (read_uint16 version body) h λ (v, b1) e1 h1.
    after_ok (read_bytes random 32 b1) h1 λ (nonce, b2) e2 h2.
      after_ok (read_uint8 session_id_length b2) h2 λ (n4, b3) e3 h3.
        after_ok (read_bytes session_id n4 b3) h3 λ (session, b4) e4 h4.
          after_ok (read_uint16 cipher_length b4) h4 λ (n6, b5) e5 h5.
            after_guard (n6 % 2 == 0) (odd_ciphers n6) h5 λ g h6.
              after_ok (read_bytes ciphers n6 b5) h6 λ (suites, b6) e6 h7.
                after_ok (read_uint8 compression_length b6) h7 λ (n8, b7) e7 h8.
                  after_ok (read_bytes compression n8 b7) h8 λ (methods, b8) e8 h9.
                    let cut = read_bytes-shorter ciphers n6 b5 e6 in
                    rw (← ok_injective h9) (
                      reads_total (length (uint16s suites)) (length b8)
                          (read_uint16-shorter version body e1)
                          (read_bytes-shorter random 32 b1 e2).1
                          (read_uint8-shorter session_id_length b2 e3)
                          (read_bytes-shorter session_id n4 b3 e4)
                          (read_uint16-shorter cipher_length b4 e5)
                          (length-uint16s suites (even n6 (length suites) g cut.0)) cut
                          (read_uint8-shorter compression_length b6 e7)
                          (read_bytes-shorter compression n8 b7 e8),
                      (read_bytes-shorter random 32 b1 e2).0,
                      refl,
                    )

parse_rest_sizes :
    (hello : ClientHello) (rest : Bytes) {result : ClientHello}
    → parse_rest hello rest ≡ ok result
    → hello.extensions ≡ []
    → (field_sizes result ≡ field_sizes hello)
      × (result.random ≡ hello.random)
      × (extension_sizes result.extensions ≤ length rest)
unfolding parse_rest
parse_rest_sizes hello [] h e = ground arith
parse_rest_sizes hello (b ∷ data') h e =
    after_ok (read_uint16 extensions_length (b ∷ data')) h λ (n, r1) e1 h1.
      after_ok (read_bytes extensions n r1) h1 λ (bs, r2) e2 h2.
        after_guard (length r2 == 0) (trailing (length r2)) h2 λ g h3. ground (
          arith,
          read_uint16-shorter extensions_length (b ∷ data') e1,
          read_bytes-shorter extensions n r1 e2,
          parse_extensions_sizes (length bs) bs hello h3,
        )

handshake_body_shorter :
    (raw : Bytes) {body : Bytes} → handshake_body raw ≡ ok body → length body + 4 ≤ length raw
unfolding handshake_body
handshake_body_shorter (t ∷ a ∷ b ∷ c ∷ rest) h = ground (arith, length-take (be24 a b c) rest)
handshake_body_shorter (t ∷ a ∷ b ∷ []) h = cc
handshake_body_shorter (t ∷ a ∷ []) h = cc
handshake_body_shorter (t ∷ []) h = cc
handshake_body_shorter [] h = cc

client_hello_body_shorter :
    (raw : Bytes) {body : Bytes} → client_hello_body raw ≡ ok body → length body + 4 ≤ length raw
unfolding client_hello_body
client_hello_body_shorter (t ∷ v ∷ w ∷ hi ∷ lo ∷ rest) {body = body} h = ground (
  arith,
  handshake_body_shorter (take (be16 hi lo) rest) {body = body},
  handshake_body_shorter (t ∷ v ∷ w ∷ hi ∷ lo ∷ rest) {body = body},
  length-take (be16 hi lo) rest,
)
client_hello_body_shorter (t ∷ v ∷ w ∷ hi ∷ []) h = handshake_body_shorter (t ∷ v ∷ w ∷ hi ∷ []) h
client_hello_body_shorter (t ∷ v ∷ w ∷ []) h = cc
client_hello_body_shorter (t ∷ v ∷ []) h = cc
client_hello_body_shorter (t ∷ []) h = cc
client_hello_body_shorter [] h = cc

-- A ClientHello that parses has 32 random bytes, and what it holds was on the wire: its fields and
-- its extensions, at their encoded sizes, fit in the input behind the handshake header.
pub parse_client_hello_sizes :
    (raw : Bytes) {hello : ClientHello}
    → parse_client_hello raw ≡ ok hello
    → (length hello.random ≡ 32)
      × (4 + field_sizes hello + extension_sizes hello.extensions ≤ length raw)
unfolding parse_client_hello
parse_client_hello_sizes raw h = after_ok (client_hello_body raw) h λ body e1 h1.
    after_ok (parse_fields body) h1 λ (fields, rest) e2 h2.
      let f = parse_fields_sizes body e2 in
      let r = parse_rest_sizes fields rest h2 f.2 in
      (ap length r.1 ∙ f.1, omega (arith, client_hello_body_shorter raw e1, f.0, r.0, r.2))
