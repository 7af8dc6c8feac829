-- ===== src/Tls/Parser/RoundTrip.antt =====
-- A ClientHello that is written as RFC 8446, section 4.1.2, says is read back.
use anti_scrapling.Go.{
  ℕ, zero, suc, ◌*◌, ◌/◌, ◌%◌, ◌≤◌, ◌≡◌, refl, List, [], ◌∷◌, ◌++◌, Bytes, ok, length, arith,
  take-length-append, length-append, take-length, ◌==◌, true,
}
use anti_scrapling.Tls.Reader.{random, session_id, ciphers, compression, extensions, extension_data}
use anti_scrapling.Tls.Reader.Laws.{
  put16, put16s, read_bytes-append, read_bytes-append_of_length, read_bytes-length, be16-put16,
  uint16s-put16s, length-put16s,
}
use anti_scrapling.Tls.Parser.{
  Extension, ClientHello, empty_fields, add_extension, read_extension, parse_extensions, be24,
  handshake_body, client_hello_body, parse_fields, parse_rest, parse_client_hello,
}

-- What a client writes into its hello.
pub record WireHello : Type 0 where
  pub version : ℕ
  pub random : Bytes
  pub session_id : Bytes
  pub cipher_suites : List ℕ
  pub compression_methods : Bytes
  pub extensions : List Extension

abbrev pub put_extension : Extension → Bytes
put_extension ext = put16 ext.type ++ (put16 (length ext.payload) ++ ext.payload)

abbrev pub put_extensions : List Extension → Bytes
put_extensions [] = []
put_extensions (ext ∷ exts) = put_extension ext ++ put_extensions exts

abbrev pub put_fields : WireHello → Bytes → Bytes
put_fields w rest =
    put16 w.version
    ++ (w.random
        ++ (length w.session_id
            ∷ (w.session_id
                ++ (put16 (length w.cipher_suites * 2)
                    ++ (put16s w.cipher_suites
                        ++ (length w.compression_methods ∷ (w.compression_methods ++ rest)))))))

abbrev pub put_body : WireHello → Bytes
put_body w =
    put_fields w (put16 (length (put_extensions w.extensions)) ++ put_extensions w.extensions)

abbrev pub put_handshake : Bytes → Bytes
put_handshake body = 1 ∷ length body / 65536 ∷ length body / 256 % 256 ∷ length body % 256 ∷ body

abbrev pub put_record : Bytes → Bytes
put_record handshake = 22 ∷ 3 ∷ 1 ∷ (put16 (length handshake) ++ handshake)

-- The fields that stand on the wire as they are.
abbrev pub wire_fields : WireHello → ClientHello
wire_fields w = record (empty_fields w.version) {
  random = w.random;
  session_id = w.session_id;
  cipher_suites = w.cipher_suites;
  compression_methods = w.compression_methods;
}

-- The extensions are entered from the first to the last.
abbrev pub add_extensions : List Extension → ClientHello → ClientHello
add_extensions [] hello = hello
add_extensions (ext ∷ exts) hello = add_extensions exts (add_extension ext hello)

read_extension-put :
    (ext : Extension) (rest : Bytes) → read_extension (put_extension ext ++ rest) ≡ ok (ext, rest)
unfolding read_extension
read_extension-put ext rest =
    rw
      (
        be16-put16 ext.type,
        be16-put16 (length ext.payload),
        read_bytes-append (extension_data ext.type) ext.payload rest,
        read_extension,
      )
      refl

parse_extensions-put :
    (exts : List Extension) (fuel : ℕ) (hello : ClientHello)
    → length (put_extensions exts) ≤ fuel
    → parse_extensions fuel (put_extensions exts) hello ≡ ok (add_extensions exts hello)
unfolding parse_extensions
parse_extensions-put [] fuel hello h = refl
parse_extensions-put (ext ∷ exts) zero hello h = ground arith
parse_extensions-put (ext ∷ exts) (suc fuel) hello h =
    rw (read_extension-put ext (put_extensions exts)) (
      parse_extensions-put exts fuel (add_extension ext hello)
        (omega (arith, length-append (put_extension ext) (put_extensions exts))))

parity : (n : ℕ) → (n * 2 % 2 == 0) ≡ true
parity n = ground arith

parse_fields-put :
    (w : WireHello) (rest : Bytes)
    → length w.random ≡ 32
    → parse_fields (put_fields w rest) ≡ ok (wire_fields w, rest)
unfolding parse_fields
parse_fields-put w rest h =
    rw
      (
        be16-put16 w.version,
        read_bytes-append_of_length random 32 w.random _ h,
        read_bytes-append session_id w.session_id _,
        be16-put16 (length w.cipher_suites * 2),
        parity (length w.cipher_suites),
        read_bytes-append_of_length ciphers (length w.cipher_suites * 2) (put16s w.cipher_suites) _
            (length-put16s w.cipher_suites),
        read_bytes-append compression w.compression_methods rest,
        uint16s-put16s w.cipher_suites,
      )
      refl

parse_rest-put :
    (exts : List Extension) (hello : ClientHello)
    → parse_rest hello (put16 (length (put_extensions exts)) ++ put_extensions exts)
      ≡ ok (add_extensions exts hello)
unfolding parse_rest
parse_rest-put exts hello =
    rw
      (
        be16-put16 (length (put_extensions exts)),
        read_bytes-length extensions (put_extensions exts),
      )
      (parse_extensions-put exts (length (put_extensions exts)) hello (omega arith))

be24-put24 : (n : ℕ) → be24 (n / 65536) (n / 256 % 256) (n % 256) ≡ n
be24-put24 n = omega arith

handshake_body-put : (body : Bytes) → handshake_body (put_handshake body) ≡ ok body
unfolding handshake_body
handshake_body-put body = ground (arith, be24-put24 (length body), take-length body)

client_hello_body-put :
    (body after : Bytes) → client_hello_body (put_record (put_handshake body) ++ after) ≡ ok body
unfolding client_hello_body
client_hello_body-put body after = ground (
  arith,
  handshake_body-put body,
  take-length-append (put_handshake body) after,
  length-append (put_handshake body) after,
)

-- A ClientHello in one record is read back field by field, with its extensions entered in wire
-- order, whatever bytes follow the record. Its random has 32 bytes.
pub parse_client_hello-put_record :
    (w : WireHello) (after : Bytes)
    → length w.random ≡ 32
    → parse_client_hello (put_record (put_handshake (put_body w)) ++ after)
      ≡ ok (add_extensions w.extensions (wire_fields w))
unfolding parse_client_hello
parse_client_hello-put_record w after h =
    rw (client_hello_body-put (put_body w) after, parse_fields-put w _ h)
      (parse_rest-put w.extensions (wire_fields w))
