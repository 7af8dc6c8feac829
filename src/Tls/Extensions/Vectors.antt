-- ===== src/Tls/Extensions/Vectors.antt =====
-- The payloads that RFC 6066, 7301 and 8446 prescribe for the known extensions are read back.
use anti_scrapling.Go.{
  ℕ, zero, suc, ◌+◌, ◌≤◌, ◌≡◌, ◌≢◌, refl, List, [], ◌∷◌, ◌++◌, Bytes, length, arith,
  take-length-append, drop-length-append, length-append, take-length, All,
}
use anti_scrapling.Tls.Reader.Laws.{put16, put16s, be16-put16, uint16s-put16s, length-put16s}
use anti_scrapling.Tls.Extensions.{
  server_name_loop, parse_server_name, parse_uint16_vector16, parse_uint8_vector8,
  parse_supported_versions, listed, alpn_standard_loop, nonempty, parse_alpn_standard, parse_alpn,
}

-- A 16-bit length, and what it counts.
abbrev pub put_vector16 : Bytes → Bytes
put_vector16 bs = put16 (length bs) ++ bs

abbrev pub put_vector8 : Bytes → Bytes
put_vector8 bs = length bs ∷ bs

abbrev pub put_server_name : Bytes → Bytes
put_server_name name = put_vector16 (0 ∷ put_vector16 name)

abbrev pub put_protocols : List Bytes → Bytes
put_protocols [] = []
put_protocols (p ∷ ps) = put_vector8 p ++ put_protocols ps

abbrev pub put_alpn : List Bytes → Bytes
put_alpn ps = put_vector16 (put_protocols ps)

-- Supported groups and signature algorithms come back as they were written.
pub parse_uint16_vector16-put :
    (vs : List ℕ) → parse_uint16_vector16 (put_vector16 (put16s vs)) ≡ vs
unfolding parse_uint16_vector16
parse_uint16_vector16-put vs = ground (
  arith,
  be16-put16 (length (put16s vs)),
  length-put16s vs,
  take-length (put16s vs),
  uint16s-put16s vs,
)

-- Supported versions come back as they were written.
pub parse_supported_versions-put :
    (vs : List ℕ) → parse_supported_versions (put_vector8 (put16s vs)) ≡ vs
unfolding parse_supported_versions
parse_supported_versions-put vs =
    ground (arith, length-put16s vs, take-length (put16s vs), uint16s-put16s vs)

pub parse_uint8_vector8-put : (bs : Bytes) → parse_uint8_vector8 (put_vector8 bs) ≡ bs
unfolding parse_uint8_vector8
parse_uint8_vector8-put bs = ground (arith, take-length bs)

pub parse_server_name-put : (name : Bytes) → parse_server_name (put_server_name name) ≡ name
unfolding parse_server_name server_name_loop
parse_server_name-put name =
    ground (arith, be16-put16 (length name), be16-put16 (length name + 3), take-length name)

alpn_standard_loop-put :
    (fuel : ℕ) (ps : List Bytes)
    → All (λ p. p ≢ []) ps
    → length (put_protocols ps) ≤ fuel
    → alpn_standard_loop fuel (put_protocols ps) ≡ listed ps
unfolding alpn_standard_loop
alpn_standard_loop-put fuel [] a h = refl
alpn_standard_loop-put zero (p ∷ ps) a h = ground arith
alpn_standard_loop-put (suc fuel) ([] ∷ ps) (n, a) h = absurd (n refl)
alpn_standard_loop-put (suc fuel) ((c ∷ p) ∷ ps) (n, a) h = ground (
  arith,
  length-append p (put_protocols ps),
  take-length-append p (put_protocols ps),
  drop-length-append p (put_protocols ps),
  alpn_standard_loop-put fuel ps a,
)

parse_alpn_standard-vector :
    (bs : Bytes)
    → parse_alpn_standard (put_vector16 bs) ≡ nonempty (alpn_standard_loop (length bs) bs)
unfolding parse_alpn_standard
parse_alpn_standard-vector bs = ground (arith, be16-put16 (length bs))

parse_alpn-vector :
    (bs p : Bytes) (ps : List Bytes)
    → alpn_standard_loop (length bs) bs ≡ listed (p ∷ ps)
    → parse_alpn (put_vector16 bs) ≡ p ∷ ps
unfolding parse_alpn
parse_alpn-vector bs p ps h = ground (arith, parse_alpn_standard-vector bs, h)

-- A list of protocols, none of them empty, comes back as it was written.
pub parse_alpn-put :
    (p : Bytes) (ps : List Bytes)
    → All (λ q. q ≢ []) (p ∷ ps)
    → parse_alpn (put_alpn (p ∷ ps)) ≡ p ∷ ps
parse_alpn-put p ps h =
    parse_alpn-vector (put_protocols (p ∷ ps)) p ps
      (alpn_standard_loop-put (length (put_protocols (p ∷ ps))) (p ∷ ps) h (omega arith))
