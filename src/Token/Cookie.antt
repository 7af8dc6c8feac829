-- ===== src/Token/Cookie.antt =====
-- internal/token/cookie.go, with what it calls of net/http's cookies.
pub mod Carried
use anti_scrapling.Go.{
  ℕ, ◌/◌, ◌^◌, ◌==◌, ltb, leb, Bool, true, false, ◌&&◌, ◌||◌, not, if◌then◌else◌, Option, none,
  some, List, [], ◌∷◌, Bytes, codes, text_eq, Assoc, lookup, split_on, before_byte, after_byte,
  all_token_bytes,
}
use anti_scrapling.Http.{HttpRequest}
use mathlib.Core.List.{reverse}

abbrev pub default_cookie_name : Bytes
default_cookie_name = codes "__as_pass"

-- `textproto.TrimString`
abbrev pub is_blank : ℕ → Bool
is_blank c = c == 32 || c == 9 || c == 10 || c == 13

unfoldable pub trim_front : Bytes → Bytes
trim_front [] = []
trim_front (c ∷ s) = let rest = trim_front s in if is_blank c then rest else c ∷ s

unfoldable pub trim_string : Bytes → Bytes
unfolding trim_front
trim_string s = reverse (trim_front (reverse (trim_front s)))

abbrev pub is_value_byte : ℕ → Bool
is_value_byte c = leb 0x20 c && ltb c 0x7f && not (c == b'"') && not (c == b';') && not (c == b'\\')

unfoldable pub is_value : Bytes → Bool
is_value [] = true
is_value (c ∷ s) = is_value_byte c && is_value s

-- Without the last byte, if that is a quote and not the only byte.
abbrev pub without_last : Bytes → Option Bytes
without_last [] = none
without_last (c ∷ s) = if c == b'"' then some (reverse s) else none

-- A text in double quotes loses them.
unfoldable pub unquoted : Bytes → Bytes
unquoted [] = []
unquoted (c ∷ s) =
    if c == b'"' then elim (without_last (reverse s)) [ none ↦ c ∷ s | some t ↦ t ] else c ∷ s

-- `parseCookieValue`: `none` where a byte is not allowed.
unfoldable pub cookie_value : Bytes → Option Bytes
unfolding unquoted is_value
cookie_value raw = let value = unquoted raw in if is_value value then some value else none

abbrev pub value_part : Option Bytes → Bytes
value_part none = []
value_part (some value) = value

-- `isToken`, which a cookie's name has to be.
unfoldable pub is_token : Bytes → Bool
unfolding all_token_bytes
is_token [] = false
is_token (c ∷ s) = all_token_bytes (c ∷ s)

-- The value that one part of a Cookie header has for `name`.
unfoldable pub value_in : Bytes → Bytes → Option Bytes
unfolding trim_string before_byte after_byte cookie_value is_token text_eq
value_in name part =
    let pair = trim_string part in
    let given = trim_string (before_byte b'=' pair) in
    if is_token given && text_eq given name
    then cookie_value (value_part (after_byte b'=' pair))
    else none

abbrev pub or_else : Option Bytes → Option Bytes → Option Bytes
or_else none later = later
or_else (some value) later = some value

unfoldable pub value_in_parts : Bytes → List Bytes → Option Bytes
unfolding value_in
value_in_parts name [] = none
value_in_parts name (part ∷ parts) = or_else (value_in name part) (value_in_parts name parts)

unfoldable pub value_in_lines : Bytes → List Bytes → Option Bytes
unfolding value_in_parts split_on
value_in_lines name [] = none
value_in_lines name (line ∷ lines) =
    or_else (value_in_parts name (split_on b';' line)) (value_in_lines name lines)

-- `GetCookie`: `Request.Cookie`, or the empty text. No cookie has the empty name, for which
-- `Request.Cookie` has an error of its own.
unfoldable pub get_cookie : HttpRequest → Bytes → Bytes
unfolding value_in_lines lookup
get_cookie r name = elim (lookup (codes "Cookie") r.headers) [
  | none ↦ []
  | some lines ↦ value_part (value_in_lines name lines)
]

-- The attributes that `SetCookie` writes besides HttpOnly, SameSite=Lax and Path=/. A TTL is in
-- nanoseconds.
pub record CookieToSet : Type 0 where
  pub name : Bytes
  pub value : Bytes
  pub max_age : ℕ
  pub secure : Bool

unfoldable pub set_cookie : Bytes → Bytes → ℕ → Bool → CookieToSet
set_cookie name value ttl secure = record {
  name = name;
  value = value;
  max_age = ttl / 10 ^ 9;
  secure = secure;
}
