-- ===== src/Tests/Servers.antt =====
-- The capture of ClientHellos, the listener's protocols and JA4H on concrete inputs.
use anti_scrapling.Go.{
  ◌≡◌, refl, none, some, List, [], ◌∷◌, ◌++◌, Bytes, codes, text_eq, take, drop, ok, arith,
  split_on, trim_space, contains_byte, before_byte,
}
use anti_scrapling.Types.{Signal}
use anti_scrapling.Http.{HttpRequest, RequestContext}
use anti_scrapling.Tls.Parser.{parse_client_hello}
use anti_scrapling.Tls.Parser.RoundTrip.{
  put_record, put_handshake, put_body, wire_fields, add_extensions,
}
use anti_scrapling.Server.ClientHello.{Conn, read_all, raw_client_hello}
use anti_scrapling.Server.ClientHello.Recorded.{hello_captured}
use anti_scrapling.Server.{with_default_next_protos}
use anti_scrapling.Http2.Ja4h.{
  Ja4hShape, cookies_of, cookies_of_parts, cookie_of, compute_ja4h_full_from_shape,
}
use anti_scrapling.Http2.Ja4h.Cookies.{with_cookies, compute_ja4h_full-perm}
use anti_scrapling.Http2.Collector.{new_collector, ja4h_unknown, collect}
use anti_scrapling.Http2.Collector.Signals.{collect-not_http1}
use anti_scrapling.Tests.Data.{request}
use anti_scrapling.Tests.Tls.{wire, raw}
use mathlib.Core.List.{Perm}
use mathlib.Core.List.Perm

abbrev chunks : List Bytes
chunks = take 7 raw ∷ drop 7 raw ∷ (23 ∷ 3 ∷ []) ∷ []

hello_captured_example :
    (raw_client_hello (read_all [] chunks) ≡ put_record (put_handshake (put_body wire)))
    × (parse_client_hello (raw_client_hello (read_all [] chunks))
        ≡ ok (add_extensions wire.extensions (wire_fields wire)))
hello_captured_example = hello_captured wire chunks (23 ∷ 3 ∷ []) refl refl (omega arith)

offered :
    with_default_next_protos (codes "h3" ∷ codes "h2" ∷ codes "h3" ∷ [])
    ≡ codes "h2" ∷ codes "http/1.1" ∷ codes "h3" ∷ []
unfolding with_default_next_protos
offered = refl

abbrev conn : Bytes → Conn
conn port = record {
  local_addr = some (codes "10.0.0.9:443");
  remote_addr = some (codes "10.0.0.1:" ++ port);
  wrapped = some raw;
}

abbrev got : HttpRequest
got = record {
  method = codes "GET";
  host = codes "h";
  remote_addr = codes "10.0.0.1:80";
  headers = [];
  path = some (codes "/");
  proto_major = 2;
  proto_minor = 0;
  frame_bytes = none;
}

abbrev shape : Ja4hShape
shape = record {
  method = codes "GET";
  proto_major = 1;
  proto_minor = 1;
  header = (codes "Accept", codes "*/*" ∷ []) ∷ [];
  header_order = [];
  host = codes "h";
}

abbrev one_line : List Bytes
one_line = codes "b=2; a=1" ∷ []

abbrev two_lines : List Bytes
two_lines = codes "a=1" ∷ codes "b=2" ∷ []

same_cookies : Perm (cookies_of one_line) (cookies_of two_lines)
unfolding cookies_of cookies_of_parts cookie_of split_on trim_space contains_byte before_byte
    text_eq
same_cookies = Perm.swap _ _ _

abbrev sha256 : Bytes → Bytes
sha256 s =
    1 ∷ 2 ∷ 3 ∷ 4 ∷ 5 ∷ 6 ∷ 7 ∷ 8 ∷ 1 ∷ 2 ∷ 3 ∷ 4 ∷ 5 ∷ 6 ∷ 7 ∷ 8 ∷ 1 ∷ 2 ∷ 3 ∷ 4 ∷ 5 ∷ 6 ∷ 7 ∷ 8
    ∷ 1 ∷ 2 ∷ 3 ∷ 4 ∷ 5 ∷ 6 ∷ 7 ∷ 8 ∷ []

abbrev same : Bytes → Bytes
same s = s

compute_ja4h_full-perm_example :
    compute_ja4h_full_from_shape sha256 same (with_cookies one_line shape)
    ≡ compute_ja4h_full_from_shape sha256 same (with_cookies two_lines shape)
compute_ja4h_full-perm_example =
    compute_ja4h_full-perm sha256 same shape one_line two_lines same_cookies

abbrev over_http2 : RequestContext
over_http2 = record (request (codes "GET")) { request = some got }

collect-not_http1_example :
    (ja4h : Bytes) × (later : List Signal) × ((collect sha256 same
        (some new_collector)
        over_http2).0
      ≡ ja4h_unknown ja4h ∷ later)
collect-not_http1_example = collect-not_http1 sha256 same over_http2 got refl (omega arith)
