-- ===== src/Go/Strings.antt =====
-- What the program uses of package strings, strconv and sort.
pub mod Sort
use anti_scrapling.Go.Tests.{◌==◌, ltb, leb, if◌then◌else◌}
use anti_scrapling.Go.Lists.{length, drop}
use anti_scrapling.Go.Text.{Bytes, text_le, has_prefix, text_eq, codes}
use anti_scrapling.Go.Int.{ℤ, pos, negsuc, sub_ℕ}
use Prim.Native.Nat.{ℕ, zero, suc, ◌+◌, ◌-◌, ◌*◌, ◌^◌, ◌%◌, ◌/◌}
use mathlib.Core.Bool.{Bool, true, false, ◌&&◌, ◌||◌}
use mathlib.Core.Option.{Option, none, some}
use mathlib.Core.List.{List, [], ◌∷◌, ◌++◌, map, reverse}

-- The UTF-8 encodings of the code points for which `unicode.IsSpace` holds.
abbrev spaces : List Bytes
spaces =
    (9 ∷ [])
    ∷ (10 ∷ [])
    ∷ (11 ∷ [])
    ∷ (12 ∷ [])
    ∷ (13 ∷ [])
    ∷ (32 ∷ [])
    ∷ (0xc2 ∷ 0x85 ∷ [])
    ∷ (0xc2 ∷ 0xa0 ∷ [])
    ∷ (0xe1 ∷ 0x9a ∷ 0x80 ∷ [])
    ∷ (0xe2 ∷ 0x80 ∷ 0x80 ∷ [])
    ∷ (0xe2 ∷ 0x80 ∷ 0x81 ∷ [])
    ∷ (0xe2 ∷ 0x80 ∷ 0x82 ∷ [])
    ∷ (0xe2 ∷ 0x80 ∷ 0x83 ∷ [])
    ∷ (0xe2 ∷ 0x80 ∷ 0x84 ∷ [])
    ∷ (0xe2 ∷ 0x80 ∷ 0x85 ∷ [])
    ∷ (0xe2 ∷ 0x80 ∷ 0x86 ∷ [])
    ∷ (0xe2 ∷ 0x80 ∷ 0x87 ∷ [])
    ∷ (0xe2 ∷ 0x80 ∷ 0x88 ∷ [])
    ∷ (0xe2 ∷ 0x80 ∷ 0x89 ∷ [])
    ∷ (0xe2 ∷ 0x80 ∷ 0x8a ∷ [])
    ∷ (0xe2 ∷ 0x80 ∷ 0xa8 ∷ [])
    ∷ (0xe2 ∷ 0x80 ∷ 0xa9 ∷ [])
    ∷ (0xe2 ∷ 0x80 ∷ 0xaf ∷ [])
    ∷ (0xe2 ∷ 0x81 ∷ 0x9f ∷ [])
    ∷ (0xe3 ∷ 0x80 ∷ 0x80 ∷ [])
    ∷ []

abbrev spaces_reversed : List Bytes
spaces_reversed =
    (9 ∷ [])
    ∷ (10 ∷ [])
    ∷ (11 ∷ [])
    ∷ (12 ∷ [])
    ∷ (13 ∷ [])
    ∷ (32 ∷ [])
    ∷ (0x85 ∷ 0xc2 ∷ [])
    ∷ (0xa0 ∷ 0xc2 ∷ [])
    ∷ (0x80 ∷ 0x9a ∷ 0xe1 ∷ [])
    ∷ (0x80 ∷ 0x80 ∷ 0xe2 ∷ [])
    ∷ (0x81 ∷ 0x80 ∷ 0xe2 ∷ [])
    ∷ (0x82 ∷ 0x80 ∷ 0xe2 ∷ [])
    ∷ (0x83 ∷ 0x80 ∷ 0xe2 ∷ [])
    ∷ (0x84 ∷ 0x80 ∷ 0xe2 ∷ [])
    ∷ (0x85 ∷ 0x80 ∷ 0xe2 ∷ [])
    ∷ (0x86 ∷ 0x80 ∷ 0xe2 ∷ [])
    ∷ (0x87 ∷ 0x80 ∷ 0xe2 ∷ [])
    ∷ (0x88 ∷ 0x80 ∷ 0xe2 ∷ [])
    ∷ (0x89 ∷ 0x80 ∷ 0xe2 ∷ [])
    ∷ (0x8a ∷ 0x80 ∷ 0xe2 ∷ [])
    ∷ (0xa8 ∷ 0x80 ∷ 0xe2 ∷ [])
    ∷ (0xa9 ∷ 0x80 ∷ 0xe2 ∷ [])
    ∷ (0xaf ∷ 0x80 ∷ 0xe2 ∷ [])
    ∷ (0x9f ∷ 0x81 ∷ 0xe2 ∷ [])
    ∷ (0x80 ∷ 0x80 ∷ 0xe3 ∷ [])
    ∷ []

-- The length of the first listed prefix that `s` has, or 0.
unfoldable pub prefix_width : List Bytes → Bytes → ℕ
unfolding has_prefix
prefix_width [] s = 0
prefix_width (p ∷ ps) s = if has_prefix s p then length p else prefix_width ps s

-- Each round takes a byte at least, so `length s` rounds are enough.
unfoldable pub trim_prefixes : List Bytes → ℕ → Bytes → Bytes
unfolding prefix_width
trim_prefixes ps zero s = s
trim_prefixes ps (suc fuel) s =
    let n = prefix_width ps s in
    let rest = trim_prefixes ps fuel (drop n s) in if n == 0 then s else rest

-- `strings.TrimSpace`
unfoldable pub trim_space : Bytes → Bytes
unfolding trim_prefixes
trim_space s =
    let front = trim_prefixes spaces (length s) s in
    reverse (trim_prefixes spaces_reversed (length front) (reverse front))

abbrev pub is_digit : ℕ → Bool
is_digit c = leb b'0' c && leb c b'9'

-- The number that decimal digits denote; `none` for an empty text or another byte.
unfoldable pub digits_value : ℕ → Bytes → Option ℕ
digits_value acc [] = some acc
digits_value acc (c ∷ cs) =
    let rest = digits_value (acc * 10 + (c - b'0')) cs in if is_digit c then rest else none

unfoldable pub unsigned : Bytes → Option ℕ
unfolding digits_value
unsigned [] = none
unsigned (c ∷ cs) = digits_value 0 (c ∷ cs)

-- `strconv.Atoi`: an optional sign, digits, and a value that 64 bits hold.
unfoldable pub atoi : Bytes → Option ℤ
unfolding unsigned
atoi [] = none
atoi (c ∷ cs) =
    if c == b'-'
    then elim (unsigned cs) [
      | none ↦ none
      | some n ↦ if leb n (2 ^ 63) then some (sub_ℕ 0 n) else none
    ]
    else elim (unsigned (if c == b'+' then cs else c ∷ cs)) [
      | none ↦ none
      | some n ↦ if ltb n (2 ^ 63) then some (pos n) else none
    ]

-- The decimal digits of a number below 10^(fuel + 1).
unfoldable pub decimal_digits : ℕ → ℕ → Bytes
decimal_digits zero n = (b'0' + n % 10) ∷ []
decimal_digits (suc fuel) n =
    let front = decimal_digits fuel (n / 10) in
    if ltb n 10 then (b'0' + n) ∷ [] else front ++ ((b'0' + n % 10) ∷ [])

-- `sort.Strings`, by insertion: the result is the only sorted arrangement.
unfoldable pub insert_sorted : Bytes → List Bytes → List Bytes
insert_sorted a [] = a ∷ []
insert_sorted a (b ∷ bs) = if text_le a b then a ∷ b ∷ bs else b ∷ insert_sorted a bs

unfoldable pub sort_strings : List Bytes → List Bytes
unfolding insert_sorted text_le
sort_strings [] = []
sort_strings (a ∷ rest) = insert_sorted a (sort_strings rest)

-- `strings.Contains`
unfoldable pub contains : Bytes → Bytes → Bool
unfolding has_prefix
contains [] sub = has_prefix [] sub
contains (c ∷ s) sub = has_prefix (c ∷ s) sub || contains s sub

unfoldable pub is_ascii : Bytes → Bool
is_ascii [] = true
is_ascii (c ∷ s) = ltb c 128 && is_ascii s

abbrev pub lower_byte : ℕ → ℕ
lower_byte c = if leb b'A' c && leb c b'Z' then c + 32 else c

-- `strings.ToLower`: it has a path of its own for ASCII texts, and `unicode` is the other one,
-- `strings.Map(unicode.ToLower, s)`.
unfoldable pub to_lower : (Bytes → Bytes) → Bytes → Bytes
unfolding is_ascii
to_lower unicode s = if is_ascii s then map lower_byte s else unicode s
