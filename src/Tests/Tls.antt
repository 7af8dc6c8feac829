-- ===== src/Tests/Tls.antt =====
-- Concrete ClientHellos, and the TLS theorems at them.
use anti_scrapling.Go.{
  ◌≡◌, ◌≢◌, All, refl, true, none, some, List, [], ◌∷◌, ◌++◌, Bytes, codes, ok, err, drop, arith,
  decimal_digits, join, text_eq, lookup, to_lower, is_ascii, hex,
}
use anti_scrapling.Types.{Signal}
use anti_scrapling.Http.{RequestContext}
use anti_scrapling.Tls.Reader.{read_uint8, read_uint16, read_bytes, uint16s, truncated_record}
use anti_scrapling.Tls.Extensions.{
  server_name_loop, parse_server_name, parse_uint16_vector16, parse_uint8_vector8,
  parse_supported_versions, no_fuel, alpn_two_byte_loop, alpn_standard_loop, parse_alpn_standard,
  parse_alpn,
}
use anti_scrapling.Tls.Parser.{
  ClientHello, parse_known_extension, add_extension, read_extension, parse_extensions,
  handshake_body, client_hello_body, parse_fields, parse_rest, parse_client_hello,
}
use anti_scrapling.Tls.Parser.RoundTrip.{WireHello, put_record, put_handshake, put_body}
use anti_scrapling.Tls.Parser.Known.{
  KnownExtensions, put_known, hello_of, parse_client_hello-put_known,
}
use anti_scrapling.Tls.Parser.Total.{IsReal, parse_client_hello-IsReal}
use anti_scrapling.Tls.Ja3.{
  ja3_string, filter_grease, extension_ids, join_uint16s, itoa, is_grease, is_key, ja3_hash,
}
use anti_scrapling.Tls.Ja3.Injective.{FieldsFit, ja3_string-injective}
use anti_scrapling.Tls.Ja4.{ja4_string}
use anti_scrapling.Tls.Ja4.Order.{ja4_string-perm}
use anti_scrapling.Tls.Families.{lookup_denylisted_ja3, lookup_ja3_family}
use anti_scrapling.Tls.Collector.{collect, has_signal, ja3_known_scraper_signal}
use anti_scrapling.Tls.Collector.Signals.{is_some, collect-known_scraper}
use mathlib.Core.List.{Permᴰ}
use mathlib.Core.List.Permᴰ

abbrev nonce : Bytes
nonce =
    1 ∷ 2 ∷ 3 ∷ 4 ∷ 5 ∷ 6 ∷ 7 ∷ 8 ∷ 9 ∷ 10 ∷ 11 ∷ 12 ∷ 13 ∷ 14 ∷ 15 ∷ 16 ∷ 17 ∷ 18 ∷ 19 ∷ 20 ∷ 21
    ∷ 22 ∷ 23 ∷ 24 ∷ 25 ∷ 26 ∷ 27 ∷ 28 ∷ 29 ∷ 30 ∷ 31 ∷ 32 ∷ []

abbrev known : KnownExtensions
known = record {
  name = codes "a.example";
  groups = 29 ∷ 23 ∷ [];
  points = 0 ∷ [];
  signatures = 0x0403 ∷ [];
  protocol = codes "h2";
  protocols = codes "http/1.1" ∷ [];
  versions = 0x0304 ∷ 0x0303 ∷ [];
}

abbrev pub wire : WireHello
wire = record {
  version = 0x0303;
  random = nonce;
  session_id = 7 ∷ [];
  cipher_suites = 0x1301 ∷ 0xc02b ∷ [];
  compression_methods = 0 ∷ [];
  extensions = put_known known;
}

abbrev pub raw : Bytes
raw = put_record (put_handshake (put_body wire))

abbrev hello : ClientHello
hello = hello_of wire known

protocols_nonempty : All (λ p. p ≢ []) (codes "h2" ∷ codes "http/1.1" ∷ [])
protocols_nonempty = (ground arith, (ground arith, tt))

parse_client_hello-put_known_example : parse_client_hello (raw ++ (23 ∷ 3 ∷ [])) ≡ ok hello
parse_client_hello-put_known_example =
    parse_client_hello-put_known wire known (23 ∷ 3 ∷ []) refl refl protocols_nonempty

raw_parses : parse_client_hello raw ≡ ok hello
unfolding parse_client_hello client_hello_body handshake_body parse_fields parse_rest
    parse_extensions read_extension add_extension parse_known_extension read_uint8 read_uint16
    read_bytes uint16s server_name_loop parse_server_name parse_uint16_vector16 parse_uint8_vector8
    parse_supported_versions alpn_standard_loop parse_alpn_standard parse_alpn
raw_parses = refl

parse_client_hello-IsReal_example :
    IsReal (parse_client_hello raw)
    × (server_name_loop 4 (1 ∷ 0 ∷ 1 ∷ 9 ∷ []) ≢ none)
    × (alpn_standard_loop 4 (1 ∷ 0 ∷ 1 ∷ 9 ∷ []) ≢ no_fuel)
    × (alpn_two_byte_loop 4 (1 ∷ 0 ∷ 1 ∷ 9 ∷ []) ≢ no_fuel)
parse_client_hello-IsReal_example = parse_client_hello-IsReal raw (1 ∷ 0 ∷ 1 ∷ 9 ∷ [])

cut_short : parse_client_hello (22 ∷ 3 ∷ 1 ∷ 0 ∷ 9 ∷ 1 ∷ []) ≡ err truncated_record
unfolding parse_client_hello client_hello_body
cut_short = refl

hello_ja3 : ja3_string (some hello) ≡ codes "771,4865-49195,0-10-11-13-16-43,29-23,0"
unfolding ja3_string filter_grease extension_ids join_uint16s itoa is_grease is_key decimal_digits
    join
hello_ja3 = refl

abbrev id : Bytes → Bytes
id s = s

-- A digest that is on the deny list.
abbrev fixed_md5 : Bytes → Bytes
fixed_md5 s =
    0x78 ∷ 0x6e ∷ 0x7a ∷ 0xb5 ∷ 0xb8 ∷ 0x1d ∷ 0x05 ∷ 0xd3 ∷ 0x93 ∷ 0x1b ∷ 0x48 ∷ 0x71 ∷ 0xda ∷ 0x61
    ∷ 0xda ∷ 0x35 ∷ []

is_grease_0a0a : is_grease 0x0a0a ≡ true
unfolding is_grease is_key
is_grease_0a0a = refl

is_grease_2a2a : is_grease 0x2a2a ≡ true
unfolding is_grease is_key
is_grease_2a2a = refl

is_grease_fafa : is_grease 0xfafa ≡ true
unfolding is_grease is_key
is_grease_fafa = refl

hello-FieldsFit : FieldsFit hello
unfolding extension_ids
hello-FieldsFit = omega arith

ja3_string-injective_example :
    (hello.version ≡ hello.version)
    × (filter_grease hello.cipher_suites ≡ filter_grease hello.cipher_suites)
    × (filter_grease (extension_ids hello.extensions)
        ≡ filter_grease (extension_ids hello.extensions))
    × (filter_grease hello.supported_curves ≡ filter_grease hello.supported_curves)
    × (hello.supported_points ≡ hello.supported_points)
ja3_string-injective_example = ja3_string-injective hello hello hello-FieldsFit hello-FieldsFit refl

ja4_string-perm_example :
    ja4_string id (some hello)
    ≡ ja4_string id
        (some (record hello { cipher_suites = 0xc02b ∷ 0x1301 ∷ []; extensions = put_known known }))
ja4_string-perm_example =
    ja4_string-perm id hello (0xc02b ∷ 0x1301 ∷ []) (put_known known) ∣ Permᴰ.swap refl refl ∣₁
      ∣ Permᴰ.refl _ ∣₁

abbrev request : RequestContext
request = record {
  request = none;
  remote_ip = codes "203.0.113.9";
  client_hello = raw;
  ja3 = codes "x";
  ja4 = [];
  headers = [];
  header_order = [];
  frame_bytes = none;
}

collect-known_scraper_example :
    (ss : List Signal) × (collect fixed_md5 id id request ≡ ok ss)
    × (has_signal ss ja3_known_scraper_signal
        ≡ is_some (lookup_denylisted_ja3 id (ja3_hash fixed_md5 (ja3_string (some hello)))))
collect-known_scraper_example =
    collect-known_scraper fixed_md5 id id request 22 (drop 1 raw) hello refl raw_parses

denylisted :
    is_some (lookup_denylisted_ja3 id (ja3_hash fixed_md5 (ja3_string (some hello)))) ≡ true
unfolding lookup_denylisted_ja3 lookup_ja3_family ja3_hash hex to_lower is_ascii lookup text_eq
denylisted = refl
