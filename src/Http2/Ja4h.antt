-- ===== src/Http2/Ja4h.antt =====
-- internal/signal/http2/ja4h.go.
pub mod Shape
pub mod Cookies
use anti_scrapling.Go.{
  ℕ, zero, suc, ◌-◌, ◌==◌, ltb, ◌||◌, Bool, true, false, if◌then◌else◌, Option, none, some, List,
  [], ◌∷◌, ◌++◌, length, take, Bytes, codes, text_eq, text_le, has_prefix, join, hex, Assoc, lookup,
  to_lower, trim_space, sort_strings, split_on, before_byte, contains_byte, replace_byte,
}
use anti_scrapling.Http.{HttpRequest, header_get}
use anti_scrapling.Tls.Ja4.{two_digits}

abbrev pub zero_hash : Bytes
zero_hash = codes "000000000000"

pub record Ja4hShape : Type 0 where
  pub method : Bytes
  pub proto_major : ℕ
  pub proto_minor : ℕ
  pub header : Assoc (List Bytes)
  pub header_order : List Bytes
  pub host : Bytes

unfoldable pub shape_of : HttpRequest → List Bytes → Ja4hShape
shape_of req order = record {
  method = req.method;
  proto_major = req.proto_major;
  proto_minor = req.proto_minor;
  header = req.headers;
  header_order = order;
  host = req.host;
}

-- The loop over the header order that is given.
unfoldable pub trimmed_names : List Bytes → List Bytes
unfolding trim_space text_eq
trimmed_names [] = []
trimmed_names (name ∷ names) =
    let rest = trimmed_names names in
    let trimmed = trim_space name in if text_eq trimmed [] then rest else trimmed ∷ rest

-- The keys of the header map, in any order: they are sorted next.
unfoldable pub map_names : Assoc (List Bytes) → List Bytes
map_names [] = []
map_names ((name, values) ∷ header) = name ∷ map_names header

abbrev pub host_name : Bytes → List Bytes
host_name [] = []
host_name (c ∷ cs) = codes "Host" ∷ []

-- The order that is given, or else the sorted names of the header.
unfoldable pub order_or : List Bytes → List Bytes → List Bytes
unfolding trimmed_names
order_or [] names = names
order_or (name ∷ order) names = trimmed_names (name ∷ order)

unfoldable pub normalize_header_order : Ja4hShape → List Bytes
unfolding order_or map_names sort_strings
normalize_header_order s =
    order_or s.header_order (sort_strings (host_name s.host ++ map_names s.header))

unfoldable pub version_code : ℕ → ℕ → Bytes
version_code major minor =
    if major == 1
    then if minor == 0 then codes "10" else codes "11"
    else if major == 2
    then codes "20"
    else if major == 3
    then codes "30"
    else codes "00"

-- `for len(value) < 4 { value += "0" }`
unfoldable pub pad_to : ℕ → Bytes → Bytes
pad_to zero value = value
pad_to (suc missing) value = pad_to missing (value ++ (codes "0"))

-- A cookie's name, and the trimmed part that it stands in.
abbrev pub Cookie : Type 0
Cookie = Bytes × Bytes

-- The body of the loop over the parts of a Cookie header; `none` is `continue`.
unfoldable pub cookie_of : Bytes → Option Cookie
unfolding trim_space text_eq contains_byte before_byte
cookie_of text =
    let part = trim_space text in
    let name = if contains_byte b'=' part then trim_space (before_byte b'=' part) else part in
    if text_eq part [] then none else if text_eq name [] then none else some (name, part)

abbrev pub add_cookie : Option Cookie → List Cookie → List Cookie
add_cookie none cookies = cookies
add_cookie (some c) cookies = c ∷ cookies

unfoldable pub cookies_of_parts : List Bytes → List Cookie
unfolding cookie_of
cookies_of_parts [] = []
cookies_of_parts (part ∷ parts) = add_cookie (cookie_of part) (cookies_of_parts parts)

unfoldable pub cookies_of : List Bytes → List Cookie
unfolding cookies_of_parts split_on
cookies_of [] = []
cookies_of (value ∷ values) = cookies_of_parts (split_on b';' value) ++ cookies_of values

-- The order by name and then by the whole part.
unfoldable pub cookie_le : Cookie → Cookie → Bool
unfolding text_eq text_le
cookie_le (n, p) (m, q) = if text_eq n m then text_le p q else text_le n m

-- `sort.Slice`, by insertion: cookies of which neither is less are the same, so the result is the
-- only sorted arrangement.
unfoldable pub insert_cookie : Cookie → List Cookie → List Cookie
unfolding cookie_le
insert_cookie a [] = a ∷ []
insert_cookie a (b ∷ bs) =
    let rest = insert_cookie a bs in if cookie_le a b then a ∷ b ∷ bs else b ∷ rest

unfoldable pub sort_cookies : List Cookie → List Cookie
unfolding insert_cookie
sort_cookies [] = []
sort_cookies (a ∷ rest) = insert_cookie a (sort_cookies rest)

unfoldable pub names_of : List Cookie → List Bytes
names_of [] = []
names_of ((name, pair) ∷ cookies) = name ∷ names_of cookies

unfoldable pub pairs_of : List Cookie → List Bytes
pairs_of [] = []
pairs_of ((name, pair) ∷ cookies) = pair ∷ pairs_of cookies

-- `Header.Values`
unfoldable pub header_values : Bytes → Assoc (List Bytes) → List Bytes
unfolding lookup
header_values name header = elim (lookup name header) [ none ↦ [] | some values ↦ values ]

-- The cookies from which the names and the pairs are taken.
unfoldable pub sorted_cookies : Assoc (List Bytes) → List Cookie
unfolding header_values cookies_of sort_cookies
sorted_cookies header = sort_cookies (cookies_of (header_values (codes "Cookie") header))

abbrev pub two_letters : Bytes → Bytes
two_letters [] = codes "xx"
two_letters (c ∷ []) = c ∷ b'x' ∷ []
two_letters (c ∷ d ∷ cs) = c ∷ d ∷ []

abbrev pub cookie_flag : List Cookie → Bytes
cookie_flag [] = codes "n"
cookie_flag (c ∷ cs) = codes "c"

-- `unicode` is `strings.ToLower` on texts that are not ASCII.
module _ (unicode : Bytes → Bytes) where
  unfoldable pub ignored_ja4h_header : Bytes → Bool
  unfolding trim_space text_eq has_prefix to_lower
  ignored_ja4h_header name =
      let trimmed = trim_space name in
      let lower = to_lower unicode trimmed in
      if text_eq trimmed [] || has_prefix trimmed (codes ":")
      then true
      else has_prefix lower (codes "cookie") || text_eq lower (codes "referer")

  unfoldable pub filtered_headers : List Bytes → List Bytes
  unfolding ignored_ja4h_header
  filtered_headers [] = []
  filtered_headers (name ∷ names) =
      let rest = filtered_headers names in if ignored_ja4h_header name then rest else name ∷ rest

  unfoldable pub has_header : List Bytes → Bytes → Bool
  unfolding text_eq to_lower trim_space
  has_header [] target = false
  has_header (name ∷ names) target =
      text_eq (to_lower unicode (trim_space name)) (to_lower unicode target)
      || has_header names target

  unfoldable pub method_code : Bytes → Bytes
  unfolding to_lower trim_space
  method_code method = two_letters (to_lower unicode (trim_space method))

  unfoldable pub language_code : Bytes → Bytes
  unfolding to_lower trim_space replace_byte before_byte pad_to
  language_code value =
      let lower = to_lower unicode value in
      let commas = replace_byte b';' (codes ",") (replace_byte b'-' [] lower) in
      let first = take 4 (trim_space (before_byte b',' commas)) in pad_to (4 - length first) first

  unfoldable pub referer_flag : Ja4hShape → Bytes
  unfolding has_header normalize_header_order header_get text_eq
  referer_flag s =
      let given = header_get (codes "Referer") s.header in
      if has_header (normalize_header_order s) (codes "referer")
      then codes "r"
      else if text_eq given []
      then codes "n"
      else codes "r"

  unfoldable pub section_a : Ja4hShape → Bytes
  section_a s =
      let count = length (filtered_headers (normalize_header_order s)) in
      method_code s.method
      ++ (version_code s.proto_major s.proto_minor
          ++ (cookie_flag (sorted_cookies s.header)
              ++ (referer_flag s
                  ++ (two_digits (if ltb 99 count then 99 else count)
                      ++ language_code (header_get (codes "Accept-Language") s.header)))))

-- `sha256` is the digest.
module _ (sha256 : Bytes → Bytes) where
  unfoldable pub short_sha256 : List Bytes → Bytes
  unfolding hex join
  short_sha256 values = take 12 (hex (sha256 (join values (codes ","))))

  abbrev pub hash_or_zero : List Bytes → Bytes
  hash_or_zero [] = zero_hash
  hash_or_zero (v ∷ vs) = short_sha256 (v ∷ vs)

module _ (sha256 unicode : Bytes → Bytes) where
  unfoldable pub compute_ja4h_from_shape : Ja4hShape → Bytes
  compute_ja4h_from_shape s =
      section_a unicode s
      ++ (codes "_"
          ++ (short_sha256 sha256 (filtered_headers unicode (normalize_header_order s))
              ++ (codes "_" ++ hash_or_zero sha256 (names_of (sorted_cookies s.header)))))

  unfoldable pub compute_ja4h_full_from_shape : Ja4hShape → Bytes
  compute_ja4h_full_from_shape s =
      compute_ja4h_from_shape s
      ++ (codes "_" ++ hash_or_zero sha256 (pairs_of (sorted_cookies s.header)))

  -- The empty text for a nil request.
  unfoldable pub compute_ja4h : Option HttpRequest → List Bytes → Bytes
  unfolding compute_ja4h_from_shape shape_of
  compute_ja4h none order = []
  compute_ja4h (some req) order = compute_ja4h_from_shape (shape_of req order)

  unfoldable pub compute_ja4h_full : Option HttpRequest → List Bytes → Bytes
  unfolding compute_ja4h_full_from_shape shape_of
  compute_ja4h_full none order = []
  compute_ja4h_full (some req) order = compute_ja4h_full_from_shape (shape_of req order)
