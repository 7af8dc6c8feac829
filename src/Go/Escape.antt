-- ===== src/Go/Escape.antt =====
-- `url.QueryEscape`, and the unescaping of a query value.
use anti_scrapling.Go.Tests.{Bool-cases, ◌==◌, ltb, leb, if◌then◌else◌}
use anti_scrapling.Go.Lists.{All}
use anti_scrapling.Go.Text.{Bytes}
use Prim.Native.Nat.{ℕ, ◌+◌, ◌-◌, ◌*◌, ◌/◌, ◌%◌, ◌<◌}
use mathlib.Core.Path.{◌≡◌, refl, ap, ◌∙◌}
use mathlib.Core.Logic.{inl, inr}
use mathlib.Core.Bool.{Bool, false, ◌&&◌, ◌||◌}
use mathlib.Core.Option.{Option, none, some}
use mathlib.Core.List.{[], ◌∷◌, ◌++◌}
use native.Mathlib.Omega.{arith}

abbrev is_unreserved : ℕ → Bool
is_unreserved c =
    (leb b'a' c && leb c b'z')
    || (leb b'A' c && leb c b'Z')
    || (leb b'0' c && leb c b'9')
    || c == b'-'
    || c == b'_'
    || c == b'.'
    || c == b'~'

abbrev upper_hex : ℕ → ℕ
upper_hex n = if ltb n 10 then b'0' + n else b'A' + (n - 10)

abbrev pub escape_byte : ℕ → Bytes
escape_byte c =
    if is_unreserved c
    then c ∷ []
    else if c == 32
    then b'+' ∷ []
    else b'%' ∷ upper_hex (c / 16) ∷ upper_hex (c % 16) ∷ []

unfoldable pub query_escape : Bytes → Bytes
query_escape [] = []
query_escape (c ∷ s) = escape_byte c ++ query_escape s

abbrev hex_value : ℕ → Option ℕ
hex_value c =
    if leb b'0' c && leb c b'9'
    then some (c - b'0')
    else if leb b'a' c && leb c b'f'
    then some (c - b'a' + 10)
    else if leb b'A' c && leb c b'F'
    then some (c - b'A' + 10)
    else none

-- The byte of two digits, before what the rest gives.
abbrev with_byte : Option ℕ → Option ℕ → Option Bytes → Option Bytes
with_byte (some h) (some l) (some rest) = some ((h * 16 + l) ∷ rest)
with_byte _ _ _ = none

abbrev with_plain : ℕ → Option Bytes → Option Bytes
with_plain c none = none
with_plain c (some rest) = some (c ∷ rest)

-- `url.QueryUnescape`: `none` where a % is not followed by two digits.
unfoldable pub query_unescape : Bytes → Option Bytes
query_unescape [] = some []
query_unescape (c ∷ []) =
    if c == b'%' then none else with_plain (if c == b'+' then 32 else c) (some [])
query_unescape (c ∷ d ∷ []) =
    let rest = query_unescape (d ∷ []) in
    if c == b'%' then none else with_plain (if c == b'+' then 32 else c) rest
query_unescape (c ∷ d ∷ e ∷ s) =
    let escaped = with_byte (hex_value d) (hex_value e) (query_unescape s) in
    let rest = query_unescape (d ∷ e ∷ s) in
    if c == b'%' then escaped else with_plain (if c == b'+' then 32 else c) rest

hex_value_upper : (n : ℕ) → n < 16 → hex_value (upper_hex n) ≡ some n
hex_value_upper n h = ground arith

unescape_plain :
    (c : ℕ) (t : Bytes)
    → (c == b'%') ≡ false
    → query_unescape (c ∷ t) ≡ with_plain (if c == b'+' then 32 else c) (query_unescape t)
unfolding query_unescape
unescape_plain c [] h = rw h
unescape_plain c (d ∷ []) h = rw h
unescape_plain c (d ∷ e ∷ t) h = rw h

two_digits :
    (h l c : ℕ) (rest : Option Bytes)
    → h * 16 + l ≡ c
    → with_byte (some h) (some l) rest ≡ with_plain c rest
two_digits h l c none e = refl
two_digits h l c (some rest) e = ap (λ d. some (d ∷ rest)) e

unescape_byte :
    (c : ℕ) (t : Bytes)
    → c < 256
    → query_unescape (escape_byte c ++ t) ≡ with_plain c (query_unescape t)
unfolding query_unescape
unescape_byte c t h = elim (Bool-cases (is_unreserved c)) [
  | inl plain ↦
      rw (plain, unescape_plain c t (ground arith))
        (ap (λ d. with_plain d (query_unescape t)) (ground arith))
  | inr other ↦ elim (Bool-cases (c == 32)) [
    | inl space ↦
        rw (other, space, unescape_plain b'+' t refl)
          (ap (λ d. with_plain d (query_unescape t)) (ground arith))
    | inr coded ↦
        rw
          (
            other,
            coded,
            hex_value_upper (c / 16) (omega arith),
            hex_value_upper (c % 16) (omega arith),
          )
          (two_digits (c / 16) (c % 16) c (query_unescape t) (omega arith))
  ]
]

-- A text of bytes that is escaped comes back.
pub query_unescape-query_escape :
    (s : Bytes) → All (λ c. c < 256) s → query_unescape (query_escape s) ≡ some s
unfolding query_escape query_unescape
query_unescape-query_escape [] h = refl
query_unescape-query_escape (c ∷ s) (small, h) =
    unescape_byte c (query_escape s) small ∙ ap (with_plain c) (query_unescape-query_escape s h)
