-- ===== src/Token/Cookie/Carried.antt =====
-- A client sends the cookies that it holds, and GetCookie finds them.
use anti_scrapling.Go.{
  ℕ, ◌<◌, ◌≤◌, ◌≡◌, ◌≢◌, refl, sym, ap, ◌==◌, inl, inr, Bool-cases, ◌∙◌, Bool, true, false,
  if◌then◌else◌, Option, none, some, List, [], ◌∷◌, ◌++◌, map, All, All-append, Bytes, codes, join,
  text_eq, text_eq_iff, ◌&&◌, Lacks, arith, lookup, Assoc, split_on, before_byte, after_byte,
}
use mathlib.Core.Path.{subst}
use anti_scrapling.Http.{HttpRequest}
use anti_scrapling.Token.Cookie.{
  trim_front, trim_string, is_value, unquoted, cookie_value, value_part, is_token, value_in,
  or_else, value_in_parts, value_in_lines, get_cookie,
}
use mathlib.Core.List.{reverse, reverse-reverse, reverse-append}

-- The bytes that names and values are made of: visible ASCII, no quote, semicolon or backslash.
abbrev pub IsPlain : ℕ → Type 0
IsPlain c = (0x21 ≤ c) × (c < 0x7f) × (c ≢ b'"') × (c ≢ b';') × (c ≢ b'\\')

abbrev pub IsCookie : Bytes × Bytes → Type 0
IsCookie (name, value) = All IsPlain name × Lacks b'=' name × All IsPlain value

abbrev pub pair_text : Bytes × Bytes → Bytes
pair_text (name, value) = name ++ (b'=' ∷ value)

-- The Cookie header that a client sends.
abbrev pub cookie_line : Assoc Bytes → Bytes
cookie_line cookies = join (map pair_text cookies) (codes "; ")

trim_front_plain : (s : Bytes) → All IsPlain s → trim_front s ≡ s
unfolding trim_front
trim_front_plain [] h = refl
trim_front_plain (c ∷ s) (p, h) = ground arith

All-reverse : (s : Bytes) → All IsPlain s → All IsPlain (reverse s)
All-reverse [] h = tt
All-reverse (c ∷ s) (p, h) =
    subst (All IsPlain) (sym (reverse-append (c ∷ []) s))
      (All-append IsPlain (reverse s) (c ∷ []) (All-reverse s h) (p, tt))

trim_plain : (s : Bytes) → All IsPlain s → trim_string s ≡ s
unfolding trim_string
trim_plain s h =
    ap (λ t. reverse (trim_front (reverse t))) (trim_front_plain s h)
    ∙ ap reverse (trim_front_plain (reverse s) (All-reverse s h))
    ∙ reverse-reverse s

before : (name value : Bytes) → Lacks b'=' name → before_byte b'=' (name ++ (b'=' ∷ value)) ≡ name
unfolding before_byte
before [] value h = refl
before (c ∷ name) value (n, h) = ground (arith, before name value h)

after :
    (name value : Bytes) → Lacks b'=' name → after_byte b'=' (name ++ (b'=' ∷ value)) ≡ some value
unfolding after_byte
after [] value h = refl
after (c ∷ name) value (n, h) = ground (arith, after name value h)

is_value_plain : (s : Bytes) → All IsPlain s → is_value s ≡ true
unfolding is_value
is_value_plain [] h = refl
is_value_plain (c ∷ s) (p, h) = ground (arith, is_value_plain s h)

unquoted_plain : (s : Bytes) → All IsPlain s → unquoted s ≡ s
unfolding unquoted
unquoted_plain [] h = refl
unquoted_plain (c ∷ s) (p, h) = ground arith

cookie_value_plain : (s : Bytes) → All IsPlain s → cookie_value s ≡ some s
unfolding cookie_value
cookie_value_plain s h = rw (unquoted_plain s h, is_value_plain s h)

pair-IsPlain : (c : Bytes × Bytes) → IsCookie c → All IsPlain (pair_text c)
pair-IsPlain (name, value) (n, l, v) =
    All-append IsPlain name (b'=' ∷ value) n
      ((omega arith, omega arith, omega arith, omega arith, omega arith), v)

-- A part for a cookie, with the blank that follows a semicolon or without it.
value_in_blank : (wanted part : Bytes) → value_in wanted (32 ∷ part) ≡ value_in wanted part
unfolding value_in trim_string trim_front
value_in_blank wanted part = refl

token_of :
    (wanted name : Bytes)
    → is_token wanted ≡ true
    → (is_token name && text_eq name wanted) ≡ text_eq name wanted
token_of wanted name w = elim (Bool-cases (text_eq name wanted)) [
  | inl e ↦ rw (e, ap is_token ((text_eq_iff name wanted).0 e), w) refl
  | inr e ↦ ground (arith, e)
]

not_token :
    (wanted name : Bytes) → is_token wanted ≡ false → (is_token name && text_eq name wanted) ≡ false
not_token wanted name w = elim (Bool-cases (text_eq name wanted)) [
  | inl e ↦ rw (e, ap is_token ((text_eq_iff name wanted).0 e), w) refl
  | inr e ↦ ground (arith, e)
]

value_in_pair :
    (wanted : Bytes) (c : Bytes × Bytes)
    → is_token wanted ≡ true
    → IsCookie c
    → value_in wanted (pair_text c) ≡ (if text_eq c.0 wanted then some c.1 else none)
unfolding value_in
value_in_pair wanted (name, value) w (n, l, v) = rw (
  trim_plain (name ++ (b'=' ∷ value)) (pair-IsPlain (name, value) (n, l, v)),
  before name value l,
  after name value l,
  trim_plain name n,
  token_of wanted name w,
  cookie_value_plain value v,
)

split_lacking :
    (a rest : Bytes) → Lacks b';' a → split_on b';' (a ++ (b';' ∷ rest)) ≡ a ∷ split_on b';' rest
unfolding split_on
split_lacking [] rest h = refl
split_lacking (c ∷ a) rest (n, h) = ground (arith, split_lacking a rest h)

split_whole : (a : Bytes) → Lacks b';' a → split_on b';' a ≡ a ∷ []
unfolding split_on
split_whole [] h = refl
split_whole (c ∷ a) (n, h) = ground (arith, split_whole a h)

split_nonempty :
    (s : Bytes) → (part : Bytes) × (parts : List Bytes) × (split_on b';' s ≡ part ∷ parts)
unfolding split_on
split_nonempty [] = ([], [], refl)
split_nonempty (c ∷ s) = elim (Bool-cases (c == b';')) [
  | inl e ↦ ([], split_on b';' s, rw e)
  | inr e ↦ let (part, parts, rest) = split_nonempty s in (c ∷ part, parts, rw (e, rest))
]

blank_first :
    (wanted s : Bytes)
    → value_in_parts wanted (split_on b';' (32 ∷ s)) ≡ value_in_parts wanted (split_on b';' s)
unfolding value_in_parts split_on
blank_first wanted s = let (part, parts, e) = split_nonempty s in rw (e, value_in_blank wanted part)

no_semicolon : (s : Bytes) → All IsPlain s → Lacks b';' s
no_semicolon [] h = tt
no_semicolon (c ∷ s) (p, h) = (p.3, no_semicolon s h)

or_else-none : (o : Option Bytes) → or_else o none ≡ o
or_else-none none = refl
or_else-none (some v) = refl

or_else_if :
    (t : Bool) (v : Bytes) (o : Option Bytes)
    → or_else (if t then some v else none) o ≡ (if t then some v else o)
or_else_if true v o = refl
or_else_if false v o = refl

value_in_line :
    (wanted : Bytes) (c : Bytes × Bytes) (cookies : Assoc Bytes)
    → is_token wanted ≡ true
    → All IsCookie (c ∷ cookies)
    → value_in_parts wanted (split_on b';' (cookie_line (c ∷ cookies)))
      ≡ lookup wanted (c ∷ cookies)
unfolding value_in_parts lookup join
value_in_line wanted c [] w (h, _) =
    rw
      (
        split_whole (pair_text c) (no_semicolon (pair_text c) (pair-IsPlain c h)),
        value_in_pair wanted c w h,
      )
      (or_else-none _)
value_in_line wanted c (d ∷ cookies) w (h, k) =
    rw
      (
        split_lacking (pair_text c) (32 ∷ cookie_line (d ∷ cookies))
            (no_semicolon (pair_text c) (pair-IsPlain c h)),
        blank_first wanted (cookie_line (d ∷ cookies)),
        value_in_line wanted d cookies w k,
        value_in_pair wanted c w h,
      )
      (or_else_if (text_eq c.0 wanted) c.1 (lookup wanted (d ∷ cookies)))

-- A name that is no token is found in no part.
no_value_in : (wanted part : Bytes) → is_token wanted ≡ false → value_in wanted part ≡ none
unfolding value_in
no_value_in wanted part w =
    rw (not_token wanted (trim_string (before_byte b'=' (trim_string part))) w) refl

no_value_in_parts :
    (wanted : Bytes) (parts : List Bytes)
    → is_token wanted ≡ false
    → value_in_parts wanted parts ≡ none
unfolding value_in_parts
no_value_in_parts wanted [] w = refl
no_value_in_parts wanted (part ∷ parts) w =
    rw (no_value_in wanted part w) (no_value_in_parts wanted parts w)

pub get_cookie-cookie_line :
    (r : HttpRequest) (wanted : Bytes) (c : Bytes × Bytes) (cookies : Assoc Bytes)
    → All IsCookie (c ∷ cookies)
    → lookup (codes "Cookie") r.headers ≡ some (cookie_line (c ∷ cookies) ∷ [])
    → get_cookie r wanted
      ≡ (if is_token wanted then value_part (lookup wanted (c ∷ cookies)) else [])
unfolding get_cookie value_in_lines
get_cookie-cookie_line r wanted c cookies h e = elim (Bool-cases (is_token wanted)) [
  | inl w ↦
      rw (w, e, get_cookie) (ap value_part (or_else-none _ ∙ value_in_line wanted c cookies w h))
  | inr w ↦
      rw (w, e, get_cookie)
        (ap value_part
          (or_else-none _ ∙ no_value_in_parts wanted (split_on b';' (cookie_line (c ∷ cookies))) w))
]
