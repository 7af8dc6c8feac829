-- ===== src/Http2/Collector/Signals.antt =====
-- Which signals the HTTP/2 collector raises.
use anti_scrapling.Go.{
  ℕ, ◌==◌, inl, inr, Bool-cases, ◌≡◌, ◌≢◌, refl, ap, ◌∙◌, false, none, some, List, [], ◌∷◌, Bytes,
  codes, text_eq, Assoc, lookup, arith,
}
use anti_scrapling.Types.{Signal}
use anti_scrapling.Http.{HttpRequest, RequestContext}
use anti_scrapling.Http2.Ja4h.{compute_ja4h, version_code, shape_of}
use anti_scrapling.Http2.Ja4h.Shape.{ja4h_version}
use anti_scrapling.Http2.Collector.{
  new_collector, default_known_ja4h, default_known_akamai, ja4h_unknown, ja4h_signals, with_headers,
  collect_from, request_with_context_headers, frame_bytes_from_request_context, of_frames, collect,
}

other_version :
    (major minor : ℕ) → major ≢ 1 → (v w : ℕ) × (v ≢ b'1') × (version_code major minor ≡ v ∷ w ∷ [])
unfolding version_code
other_version major minor h =
    let not_one : (major == 1) ≡ false = ground arith in
    elim (Bool-cases (major == 2)) [
      | inl two ↦ (b'2', b'0', omega arith, rw (not_one, two))
      | inr not_two ↦ elim (Bool-cases (major == 3)) [
        | inl three ↦ (b'3', b'0', omega arith, rw (not_one, not_two, three))
        | inr other ↦ (b'0', b'0', omega arith, rw (not_one, not_two, other))
      ]
    ]

same_version :
    (headers : Assoc (List Bytes)) (req : HttpRequest)
    → ((with_headers headers req).proto_major ≡ req.proto_major)
      × ((with_headers headers req).proto_minor ≡ req.proto_minor)
unfolding with_headers
same_version [] req = (refl, refl)
same_version (h ∷ hs) req = (refl, refl)

differs : (a b u c d v : ℕ) (s t : Bytes) → v ≢ u → text_eq (a ∷ b ∷ u ∷ s) (c ∷ d ∷ v ∷ t) ≡ false
unfolding text_eq
differs a b u c d v s t h = ground arith

not_found : (c d v : ℕ) (t : Bytes) → v ≢ b'1' → lookup (c ∷ d ∷ v ∷ t) default_known_ja4h ≡ none
unfolding lookup
not_found c d v t h = rw (
  differs b'g' b'e' b'1' c d v (codes "1cn060000_7c8a3eaa8540_2c6e4f16ff14") t h,
  differs b'g' b'e' b'1' c d v (codes "1cn060000_b5d4f0c8a3d1_e17a92c3b8f4") t h,
)

not_known :
    (c d v : ℕ) (t : Bytes)
    → v ≢ b'1'
    → ja4h_signals default_known_ja4h (c ∷ d ∷ v ∷ t) ≡ ja4h_unknown (c ∷ d ∷ v ∷ t) ∷ []
unfolding ja4h_signals ja4h_unknown
not_known c d v t h = rw (not_found c d v t h, ja4h_signals)

module _ (sha256 unicode : Bytes → Bytes) where
  -- With the built-in tables every request that is not HTTP/1 raises ja4h_unknown, whatever browser
  -- sends it: the two fingerprints of the table are those of HTTP/1.1.
  pub collect-not_http1 :
      (ctx : RequestContext) (req : HttpRequest)
      → ctx.request ≡ some req
      → req.proto_major ≢ 1
      → (ja4h : Bytes) × (later : List Signal) × ((collect sha256 unicode
            (some new_collector)
            ctx).0
          ≡ ja4h_unknown ja4h ∷ later)
  unfolding collect new_collector compute_ja4h request_with_context_headers shape_of
  collect-not_http1 ctx req e v =
      let given = request_with_context_headers ctx req in
      let (c, d, rest, split) = ja4h_version sha256 unicode (shape_of given ctx.header_order) in
      let (w, x, other, code) = other_version req.proto_major req.proto_minor v in
      let (major, minor) = same_version ctx.headers req in
      let print : compute_ja4h sha256 unicode (some given) ctx.header_order ≡ c ∷ d ∷ w ∷ x ∷ rest =
        split ∙ rw (major, minor, code) in
      let found =
        of_frames sha256 unicode default_known_akamai (some req)
          (frame_bytes_from_request_context ctx) in
      (
        c ∷ d ∷ w ∷ x ∷ rest,
        found.0,
        ap (λ r. (collect_from sha256 unicode (some new_collector) ctx r).0) e
            ∙ rw (print, not_known c d w (x ∷ rest) other),
      )
