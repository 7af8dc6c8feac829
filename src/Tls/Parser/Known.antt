-- ===== src/Tls/Parser/Known.antt =====
-- The extensions that the fingerprints use, from the wire to the fields.
use anti_scrapling.Go.{ℕ, ◌≡◌, ◌≢◌, refl, List, [], ◌∷◌, ◌++◌, Bytes, ok, length, All, ◌∙◌, ap}
use anti_scrapling.Tls.Reader.Laws.{put16s}
use anti_scrapling.Tls.Extensions.Vectors.{
  put_vector16, put_vector8, put_server_name, put_alpn, parse_uint16_vector16-put,
  parse_supported_versions-put, parse_uint8_vector8-put, parse_server_name-put, parse_alpn-put,
}
use anti_scrapling.Tls.Parser.{
  Extension, ClientHello, add_extension, parse_known_extension, parse_client_hello,
}
use anti_scrapling.Tls.Parser.RoundTrip.{
  WireHello, wire_fields, put_record, put_handshake, put_body, add_extensions,
  parse_client_hello-put_record,
}

-- What a client has to say in the six extensions.
pub record KnownExtensions : Type 0 where
  pub name : Bytes
  pub groups : List ℕ
  pub points : Bytes
  pub signatures : List ℕ
  pub protocol : Bytes
  pub protocols : List Bytes
  pub versions : List ℕ

abbrev pub extension : ℕ → Bytes → Extension
extension type payload = record { type = type; payload = payload }

abbrev pub put_known : KnownExtensions → List Extension
put_known k =
    extension 0 (put_server_name k.name)
    ∷ extension 10 (put_vector16 (put16s k.groups))
    ∷ extension 11 (put_vector8 k.points)
    ∷ extension 13 (put_vector16 (put16s k.signatures))
    ∷ extension 16 (put_alpn (k.protocol ∷ k.protocols))
    ∷ extension 43 (put_vector8 (put16s k.versions))
    ∷ []

-- The hello that has them all.
abbrev pub hello_of : WireHello → KnownExtensions → ClientHello
hello_of w k = record (wire_fields w) {
  extensions = put_known k;
  server_name = k.name;
  supported_curves = k.groups;
  supported_points = k.points;
  signature_algorithms = k.signatures;
  supported_protos = k.protocol ∷ k.protocols;
  supported_versions = k.versions;
}

add_known :
    (w : WireHello) (k : KnownExtensions)
    → All (λ p. p ≢ []) (k.protocol ∷ k.protocols)
    → add_extensions (put_known k) (wire_fields w) ≡ hello_of w k
unfolding add_extension parse_known_extension
add_known w k h =
    rw
      (
        parse_server_name-put k.name,
        parse_uint16_vector16-put k.groups,
        parse_uint8_vector8-put k.points,
        parse_uint16_vector16-put k.signatures,
        parse_alpn-put k.protocol k.protocols h,
        parse_supported_versions-put k.versions,
      )
      refl

-- A ClientHello whose extensions are the six known ones is parsed into the values that the client
-- gave for them and for the fields, whatever bytes follow the record. Its random has 32 bytes, and
-- no ALPN protocol is empty.
pub parse_client_hello-put_known :
    (w : WireHello) (k : KnownExtensions) (after : Bytes)
    → length w.random ≡ 32
    → w.extensions ≡ put_known k
    → All (λ p. p ≢ []) (k.protocol ∷ k.protocols)
    → parse_client_hello (put_record (put_handshake (put_body w)) ++ after) ≡ ok (hello_of w k)
parse_client_hello-put_known w k after r e h =
    parse_client_hello-put_record w after r
    ∙ ap ok (ap (λ exts. add_extensions exts (wire_fields w)) e ∙ add_known w k h)
