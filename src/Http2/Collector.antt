-- ===== src/Http2/Collector.antt =====
-- internal/signal/http2/collector.go.
pub mod Signals
use anti_scrapling.Go.{
  ◌||◌, if◌then◌else◌, Option, none, some, List, [], ◌∷◌, ◌++◌, Bytes, codes, text_eq, contains,
  to_lower, Assoc, lookup, pos, Result, ok, err,
}
use anti_scrapling.Types.{Signal, DetailValue}
use anti_scrapling.Http.{HttpRequest, RequestContext, user_agent}
use anti_scrapling.Http2.Hpack.{FrameError}
use anti_scrapling.Http2.Akamai.{compute_akamai_fingerprint_bytes}
use anti_scrapling.Http2.Ja4h.{compute_ja4h}

abbrev pub chrome_akamai : Bytes
chrome_akamai = codes "1:65536,3:1000,4:6291456,6:262144|15663105|0|m,a,s,p"

abbrev pub firefox_akamai : Bytes
firefox_akamai = codes "1:65536,4:131072,5:16384|12517377|0|m,a,s,p"

abbrev pub default_known_akamai : Assoc Bytes
default_known_akamai =
    (chrome_akamai, codes "chrome131") ∷ (firefox_akamai, codes "firefox134") ∷ []

abbrev pub default_known_ja4h : Assoc Bytes
default_known_ja4h =
    (codes "ge11cn060000_7c8a3eaa8540_2c6e4f16ff14", codes "chrome131")
    ∷ (codes "ge11cn060000_b5d4f0c8a3d1_e17a92c3b8f4", codes "firefox134")
    ∷ []

-- A table is `none` where the map is nil.
pub record H2Collector : Type 0 where
  pub known_akamai : Option (Assoc Bytes)
  pub known_ja4h : Option (Assoc Bytes)

unfoldable pub new_collector : H2Collector
new_collector = record {
  known_akamai = some default_known_akamai;
  known_ja4h = some default_known_ja4h;
}

-- The collector that `Collect` works with: of a nil receiver the built-in one, and with the
-- built-in tables in place of nil maps.
abbrev pub table_or : Option (Assoc Bytes) → Assoc Bytes → Assoc Bytes
table_or none given = given
table_or (some table) given = table

abbrev pub akamai_table : Option H2Collector → Assoc Bytes
akamai_table none = default_known_akamai
akamai_table (some c) = table_or c.known_akamai default_known_akamai

abbrev pub ja4h_table : Option H2Collector → Assoc Bytes
ja4h_table none = default_known_ja4h
ja4h_table (some c) = table_or c.known_ja4h default_known_ja4h

-- `WithFrameBytes`: what the context holds afterwards.
unfoldable pub with_frame_bytes : Bytes → Option Bytes
with_frame_bytes frame_bytes = some frame_bytes

-- An empty value counts as none.
unfoldable pub frame_bytes_from_context : Option Bytes → Option Bytes
frame_bytes_from_context none = none
frame_bytes_from_context (some []) = none
frame_bytes_from_context (some (b ∷ bs)) = some (b ∷ bs)

unfoldable pub frame_bytes_from_request_context : RequestContext → Option Bytes
unfolding frame_bytes_from_context
frame_bytes_from_request_context ctx = elim (frame_bytes_from_context ctx.frame_bytes) [
  | some frame_bytes ↦ some frame_bytes
  | none ↦ elim ctx.request [ none ↦ none | some r ↦ frame_bytes_from_context r.frame_bytes ]
]

-- The context's headers take the place of the request's, where it has any.
unfoldable pub with_headers : Assoc (List Bytes) → HttpRequest → HttpRequest
with_headers [] req = req
with_headers (h ∷ hs) req = record req { headers = h ∷ hs }

unfoldable pub request_with_context_headers : RequestContext → HttpRequest → HttpRequest
unfolding with_headers
request_with_context_headers ctx req = with_headers ctx.headers req

unfoldable pub ja4h_unknown : Bytes → Signal
ja4h_unknown ja4h = record {
  name = codes "ja4h_unknown";
  score = pos 20;
  reason = codes "JA4H fingerprint is not in the known browser baseline";
  detail = (codes "ja4h", DetailValue.text ja4h) ∷ [];
}

unfoldable pub akamai_mismatch : Bytes → Assoc DetailValue → Signal
akamai_mismatch reason detail = record {
  name = codes "h2_akamai_mismatch";
  score = pos 35;
  reason = reason;
  detail = detail;
}

-- The signal for a fingerprint that is not empty.
unfoldable pub ja4h_signals : Assoc Bytes → Bytes → List Signal
unfolding lookup ja4h_unknown
ja4h_signals known [] = []
ja4h_signals known (c ∷ ja4h) = elim (lookup (c ∷ ja4h) known) [
  | none ↦ ja4h_unknown (c ∷ ja4h) ∷ []
  | some browser ↦ []
]

-- `sha256` is the digest, `unicode` is `strings.ToLower` on texts that are not ASCII.
module _ (sha256 unicode : Bytes → Bytes) where
  unfoldable pub expected_akamai_for_request : Option HttpRequest → Bytes
  unfolding to_lower contains user_agent
  expected_akamai_for_request none = []
  expected_akamai_for_request (some req) =
      let ua = to_lower unicode (user_agent req) in
      if contains ua (codes "firefox/134")
      then firefox_akamai
      else if contains ua (codes "chrome/131") || contains ua (codes "chromium/131")
      then chrome_akamai
      else []

  abbrev pub akamai_signal_against : Assoc Bytes → Bytes → Bytes → List Signal
  akamai_signal_against known [] akamai = elim (lookup akamai known) [
    | some browser ↦ []
    | none ↦
        akamai_mismatch (codes "HTTP/2 Akamai fingerprint is not in the known browser baseline")
          ((codes "akamai", DetailValue.text akamai) ∷ [])
        ∷ []
  ]
  akamai_signal_against known (c ∷ expected) akamai =
      if text_eq akamai (c ∷ expected)
      then []
      else akamai_mismatch
          (codes "HTTP/2 Akamai fingerprint does not match the declared browser family")
          ((codes "akamai", DetailValue.text akamai)
            ∷ (codes "expected", DetailValue.text (c ∷ expected))
            ∷ [])
        ∷ []

  unfoldable pub akamai_signal : Assoc Bytes → Option HttpRequest → Bytes → List Signal
  unfolding expected_akamai_for_request akamai_mismatch text_eq lookup
  akamai_signal known req akamai =
      akamai_signal_against known (expected_akamai_for_request req) akamai

  -- What the frames add to the signals; the empty fingerprint adds nothing.
  abbrev pub frame_signals :
      Assoc Bytes → Option HttpRequest → Result FrameError Bytes → List Signal × Option FrameError
  frame_signals known req (err e) = ([], some e)
  frame_signals known req (ok []) = ([], none)
  frame_signals known req (ok (c ∷ akamai)) = (akamai_signal known req (c ∷ akamai), none)

  abbrev pub of_frames :
      Assoc Bytes → Option HttpRequest → Option Bytes → List Signal × Option FrameError
  of_frames known req none = ([], none)
  of_frames known req (some frame_bytes) =
      frame_signals known req (compute_akamai_fingerprint_bytes unicode frame_bytes)

  unfoldable pub collect_from :
      Option H2Collector → RequestContext → Option HttpRequest → List Signal × Option FrameError
  collect_from c ctx none = ([], none)
  collect_from c ctx (some req) =
      let ja4h =
        compute_ja4h sha256 unicode (some (request_with_context_headers ctx req))
          ctx.header_order in
      let found = of_frames (akamai_table c) (some req) (frame_bytes_from_request_context ctx) in
      (ja4h_signals (ja4h_table c) ja4h ++ found.0, found.1)

  -- `none` is a nil receiver. The signals come with the error.
  unfoldable pub collect : Option H2Collector → RequestContext → List Signal × Option FrameError
  unfolding collect_from
  collect c ctx = collect_from c ctx ctx.request
