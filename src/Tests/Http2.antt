-- ===== src/Tests/Http2.antt =====
-- HPACK integers and frames on concrete bytes.
use anti_scrapling.Go.{◌≡◌, refl, true, List, [], ◌∷◌, ◌++◌, codes, ok, map, arith}
use anti_scrapling.Http2.Hpack.{
  hpack_int_loop, read_hpack_int, hpack_text, read_hpack_string, lookup_name, literal_name,
  read_literal_name, add_dynamic_name, decode_field, decode,
}
use anti_scrapling.Go.{
  Bytes, some, none, to_lower, is_ascii, has_prefix, text_eq, join, decimal_digits,
}
use anti_scrapling.Http2.Akamai.{
  compute_akamai_fingerprint, fingerprint_text, add_frames, add_frame, no_fingerprint, setting_text,
  digits, priorities_text, pseudo_codes, pseudo_header_code,
}
use anti_scrapling.Http2.Akamai.Stable.{IsComplete}
use anti_scrapling.Http2.Frames.{Frame, HeadersBlock, bare_frame, client_preface, parse_frames}
use anti_scrapling.Http2.Frames.RoundTrip.{
  Opening, settings_frame, window_update_frame, priority_frame, put_frames, frame_of,
  parse_frames-put_frames,
}

-- The example of RFC 7541, section C.1.2.
rfc_example : read_hpack_int 5 (31 ∷ 154 ∷ 10 ∷ []) ≡ ok (1337, [])
unfolding read_hpack_int hpack_int_loop
rfc_example = refl

-- An indexed field, and a literal whose name enters the dynamic table and is named by index 62.
fields :
    decode 9 [] (0x82 ∷ 0x40 ∷ 1 ∷ b'a' ∷ 1 ∷ b'b' ∷ 0xbe ∷ [])
    ≡ ok (codes ":method" ∷ codes "a" ∷ codes "a" ∷ [], codes "a" ∷ [])
unfolding decode decode_field read_hpack_int hpack_int_loop lookup_name read_literal_name
    literal_name read_hpack_string hpack_text add_dynamic_name
fields = refl

abbrev opening : List Opening
opening =
    settings_frame 0 (record { id = 4; value = 131072 } ∷ [])
    ∷ window_update_frame 0 0 12517377
    ∷ priority_frame 0 3 true 0 200
    ∷ []

parse_frames-put_frames_example :
    parse_frames (client_preface ++ put_frames opening) ≡ ok (map frame_of opening)
parse_frames-put_frames_example =
    parse_frames-put_frames opening
      (tt, ((omega arith, omega arith), ((omega arith, omega arith), tt)))

abbrev headers_frame : Frame
headers_frame = record (bare_frame 1 4 1) {
  headers = some (record {
    stream_id = 1;
    pseudo_header_order = codes "method" ∷ codes "path" ∷ [];
    regular_header_order = [];
    priority = none;
  });
}

abbrev first_frames : List Frame
first_frames =
    record (bare_frame 4 0 0) { settings = record { id = 4; value = 131072 } ∷ [] }
    ∷ record (bare_frame 8 0 0) { window_update_increment = 12517377 }
    ∷ headers_frame
    ∷ []

abbrev ascii : Bytes → Bytes
ascii s = s

rendered : compute_akamai_fingerprint ascii first_frames ≡ codes "4:131072|12517377|0|m,p"
unfolding compute_akamai_fingerprint fingerprint_text add_frames add_frame setting_text digits
    priorities_text pseudo_codes pseudo_header_code to_lower is_ascii has_prefix text_eq join
    decimal_digits
rendered = refl

complete : IsComplete (add_frames first_frames no_fingerprint)
unfolding add_frames add_frame
complete = (ground arith, omega arith, ground arith)

same_headers : (h : HeadersBlock) → headers_frame.headers ≡ some h → h.priority ≡ none
same_headers h e = ground (arith, e)
