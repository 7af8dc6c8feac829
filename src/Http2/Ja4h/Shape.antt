-- ===== src/Http2/Ja4h/Shape.antt =====
-- The shape of a JA4H fingerprint, which is the same for every request.
use anti_scrapling.Go.{
  ℕ, zero, suc, ◌+◌, ◌-◌, ◌*◌, ◌/◌, ◌%◌, ◌<◌, ◌≡◌, refl, ap, ltb, if◌then◌else◌, List, [], ◌∷◌,
  ◌++◌, length, length-append, length-take, take, Bytes, codes, join, hex, decimal_digits, arith,
  to_lower, trim_space, replace_byte, before_byte,
}
use mathlib.Core.List.{append_assoc}
use anti_scrapling.Tls.Ja4.{two_digits}
use anti_scrapling.Http.{header_get}
use anti_scrapling.Http2.Ja4h.{
  Ja4hShape, Cookie, version_code, pad_to, cookie_flag, two_letters, method_code, language_code,
  short_sha256, hash_or_zero, referer_flag, section_a, filtered_headers, normalize_header_order,
  sorted_cookies, names_of, compute_ja4h_from_shape,
}

length-hex : (bs : Bytes) → length (hex bs) ≡ 2 * length bs
unfolding hex
length-hex [] = refl
length-hex (b ∷ bs) = omega (arith, length-hex bs)

one_digit : (fuel n : ℕ) → n < 10 → length (decimal_digits fuel n) ≡ 1
unfolding decimal_digits
one_digit zero n h = refl
one_digit (suc fuel) n h = ground arith

length-two_digits : (n : ℕ) → n < 100 → length (two_digits n) ≡ 2
unfolding two_digits decimal_digits
length-two_digits zero h = refl
length-two_digits (suc n) h = ground (
  arith,
  one_digit n (suc n / 10),
  length-append {A = ℕ} (decimal_digits n (suc n / 10)) ((b'0' + suc n % 10) ∷ []),
)

length-pad_to :
    (missing : ℕ) (value : Bytes) → length (pad_to missing value) ≡ length value + missing
unfolding pad_to
length-pad_to zero value = omega arith
length-pad_to (suc missing) value =
    omega (arith, length-pad_to missing (value ++ (codes "0")), length-append value (codes "0"))

length-version_code : (major minor : ℕ) → length (version_code major minor) ≡ 2
unfolding version_code
length-version_code major minor = ground arith

length-two_letters : (s : Bytes) → length (two_letters s) ≡ 2
length-two_letters [] = refl
length-two_letters (c ∷ []) = refl
length-two_letters (c ∷ d ∷ cs) = refl

length-cookie_flag : (cookies : List Cookie) → length (cookie_flag cookies) ≡ 1
length-cookie_flag [] = refl
length-cookie_flag (c ∷ cs) = refl

capped : (n : ℕ) → (if ltb 99 n then 99 else n) < 100
capped n = ground arith

joined :
    (a b c d e f : Bytes)
    → length a ≡ 2
    → length b ≡ 2
    → length c ≡ 1
    → length d ≡ 1
    → length e ≡ 2
    → length f ≡ 4
    → length (a ++ (b ++ (c ++ (d ++ (e ++ f))))) ≡ 12
joined a b c d e f ha hb hc hd he hf = omega (
  arith,
  length-append a (b ++ (c ++ (d ++ (e ++ f)))),
  length-append b (c ++ (d ++ (e ++ f))),
  length-append c (d ++ (e ++ f)),
  length-append d (e ++ f),
  length-append e f,
)

module _ (unicode : Bytes → Bytes) where
  length-referer_flag : (s : Ja4hShape) → length (referer_flag unicode s) ≡ 1
  unfolding referer_flag
  length-referer_flag s = ground arith

  length-method_code : (method : Bytes) → length (method_code unicode method) ≡ 2
  unfolding method_code
  length-method_code method = length-two_letters (to_lower unicode (trim_space method))

  padded : (s : Bytes) → length (pad_to (4 - length (take 4 s)) (take 4 s)) ≡ 4
  padded s = omega (arith, length-pad_to (4 - length (take 4 s)) (take 4 s), length-take 4 s)

  length-language_code : (value : Bytes) → length (language_code unicode value) ≡ 4
  unfolding language_code
  length-language_code value = padded (
      trim_space (
        before_byte b','
          (replace_byte b';' (codes ",") (replace_byte b'-' [] (to_lower unicode value)))))

  length-section_a : (s : Ja4hShape) → length (section_a unicode s) ≡ 12
  unfolding section_a
  length-section_a s =
      joined (method_code unicode s.method) (version_code s.proto_major s.proto_minor)
        (cookie_flag (sorted_cookies s.header)) (referer_flag unicode s) _
        (language_code unicode (header_get (codes "Accept-Language") s.header))
        (length-method_code s.method) (length-version_code s.proto_major s.proto_minor)
        (length-cookie_flag (sorted_cookies s.header)) (length-referer_flag s)
        (length-two_digits _
          (capped (length (filtered_headers unicode (normalize_header_order s)))))
        (length-language_code (header_get (codes "Accept-Language") s.header))

module _ (sha256 unicode : Bytes → Bytes) (digest : (s : Bytes) → length (sha256 s) ≡ 32) where
  length-short_sha256 : (values : List Bytes) → length (short_sha256 sha256 values) ≡ 12
  unfolding short_sha256
  length-short_sha256 values = omega (
    arith,
    length-take 12 (hex (sha256 (join values (codes ",")))),
    length-hex (sha256 (join values (codes ","))),
    digest (join values (codes ",")),
  )

  length-hash_or_zero : (values : List Bytes) → length (hash_or_zero sha256 values) ≡ 12
  length-hash_or_zero [] = refl
  length-hash_or_zero (v ∷ vs) = length-short_sha256 (v ∷ vs)

  -- A JA4H fingerprint has 38 bytes whatever the request is, if a SHA-256 digest has 32: twelve
  -- for the method, the version, the flags, the count of headers and the language, and two hashes
  -- of twelve.
  pub length-compute_ja4h : (s : Ja4hShape) → length (compute_ja4h_from_shape sha256 unicode s) ≡ 38
  unfolding compute_ja4h_from_shape
  length-compute_ja4h s =
      let b = short_sha256 sha256 (filtered_headers unicode (normalize_header_order s)) in
      let c = hash_or_zero sha256 (names_of (sorted_cookies s.header)) in
      omega (
        arith,
        length-append (section_a unicode s) (codes "_" ++ (b ++ (codes "_" ++ c))),
        length-append b (codes "_" ++ c),
        length-section_a unicode s,
        length-short_sha256 (filtered_headers unicode (normalize_header_order s)),
        length-hash_or_zero (names_of (sorted_cookies s.header)),
      )

front :
    (m v r t : Bytes)
    → length m ≡ 2
    → (c d : ℕ) × (rest : Bytes) × ((m ++ (v ++ r)) ++ t ≡ c ∷ d ∷ (v ++ rest))
front [] v r t h = absurd (omega arith)
front (c ∷ []) v r t h = absurd (omega arith)
front (c ∷ d ∷ []) v r t h = (c, d, r ++ t, ap (λ xs. c ∷ d ∷ xs) (append_assoc v r t))
front (c ∷ d ∷ e ∷ m) v r t h = absurd (omega arith)

-- Behind two letters of the method stands the code of the version.
pub ja4h_version :
    (sha256 unicode : Bytes → Bytes) (s : Ja4hShape)
    → (c d : ℕ) × (rest : Bytes) × (compute_ja4h_from_shape sha256 unicode s
        ≡ c ∷ d ∷ (version_code s.proto_major s.proto_minor ++ rest))
unfolding compute_ja4h_from_shape section_a
ja4h_version sha256 unicode s =
    front (method_code unicode s.method) (version_code s.proto_major s.proto_minor) _ _
      (length-method_code unicode s.method)
