-- ===== src/Headers/ClientHints.antt =====
-- internal/signal/headers/clienthints.go. The two regular expressions are written out as the
-- leftmost matches that they find.
use anti_scrapling.Go.{
  ℕ, zero, suc, ◌==◌, not, ◌&&◌, ◌||◌, if◌then◌else◌, Option, none, some, List, [], ◌∷◌, ◌++◌,
  Bytes, codes, text_eq, has_prefix, contains, to_lower, is_digit, drop, length, Assoc, store,
}
use anti_scrapling.Http.{header_get}
use anti_scrapling.Headers.SecFetch.{is_listed}

-- `\d*`, with what is left.
unfoldable pub leading_digits : Bytes → Bytes × Bytes
leading_digits [] = ([], [])
leading_digits (c ∷ s) =
    let (digits, rest) = leading_digits s in if is_digit c then (c ∷ digits, rest) else ([], c ∷ s)

abbrev pub version_or : Bytes → Option Bytes → Option Bytes
version_or [] later = later
version_or (d ∷ digits) later = some (d ∷ digits)

-- `Chrome/(\d+)`: the digits of the first match.
unfoldable pub chrome_version : Bytes → Option Bytes
unfolding has_prefix leading_digits
chrome_version [] = none
chrome_version (c ∷ s) =
    let later = chrome_version s in
    if has_prefix (c ∷ s) (codes "Chrome/")
    then version_or (leading_digits (drop 7 (c ∷ s))).0 later
    else later

-- The bytes before the next quote, and those from it on.
unfoldable pub until_quote : Bytes → Bytes × Bytes
until_quote [] = ([], [])
until_quote (c ∷ s) =
    let (text, rest) = until_quote s in if c == b'"' then ([], c ∷ s) else (c ∷ text, rest)

abbrev pub closed : Bytes → Bytes → Bytes → Option (Bytes × Bytes × Bytes)
closed brand (d ∷ digits) (c ∷ rest) = if c == b'"' then some (brand, d ∷ digits, rest) else none
closed brand _ _ = none

-- `"([^"]+)";v="(\d+)"` at the start of the text: the brand, the version and what is left.
unfoldable pub brand_at : Bytes → Option (Bytes × Bytes × Bytes)
unfolding until_quote has_prefix leading_digits text_eq
brand_at [] = none
brand_at (c ∷ s) =
    let (brand, rest) = until_quote s in
    let (version, last) = leading_digits (drop 5 rest) in
    if c == b'"' && (not (text_eq brand []) && has_prefix rest (codes "\";v=\""))
    then closed brand version last
    else none

-- `FindAllStringSubmatch`: each round takes a byte at least, so `length s` rounds are enough.
unfoldable pub brands_in : ℕ → Bytes → Assoc Bytes
unfolding brand_at
brands_in zero s = []
brands_in (suc fuel) [] = []
brands_in (suc fuel) (c ∷ s) = elim (brand_at (c ∷ s)) [
  | none ↦ brands_in fuel s
  | some (brand, version, rest) ↦ (brand, version) ∷ brands_in fuel rest
]

unfoldable pub store_all : Assoc Bytes → Assoc Bytes → Assoc Bytes
unfolding store
store_all [] brands = brands
store_all ((brand, version) ∷ found) brands = store_all found (store brand version brands)

unfoldable pub parse_sec_ch_ua : Bytes → Assoc Bytes
unfolding brands_in store_all
parse_sec_ch_ua value = store_all (brands_in (length value) value) []

abbrev pub chrome_brands : List Bytes
chrome_brands = codes "Google Chrome" ∷ codes "Chromium" ∷ codes "Microsoft Edge" ∷ []

-- The first of the brands, in the order of the list, whose version is another one.
unfoldable pub other_version : Bytes → Assoc Bytes → Option Bytes
unfolding is_listed text_eq
other_version chrome_ver [] = none
other_version chrome_ver ((brand, ver) ∷ brands) =
    let later = other_version chrome_ver brands in
    if is_listed brand chrome_brands && (not (text_eq ver []) && not (text_eq ver chrome_ver))
    then some ver
    else later

abbrev pub version_reason : Bytes → Option Bytes → Option Bytes
version_reason chrome_ver none = none
version_reason chrome_ver (some ver) = some (
    codes "sec-ch-ua Chrome brand version ("
    ++ (ver ++ (codes ") does not match User-Agent Chrome/" ++ chrome_ver)))

-- `in_range` is the order in which Go ranges over a map. `none` is the answer false, `some reason`
-- the answer true.
module _ (lower : Bytes → Bytes) (in_range : Assoc Bytes → Assoc Bytes) where
  unfoldable pub check_uach_consistency : Assoc (List Bytes) → Option Bytes
  unfolding header_get chrome_version contains to_lower text_eq parse_sec_ch_ua other_version
  check_uach_consistency h =
      let ua = header_get (codes "User-Agent") h in
      let sec_ch_ua = header_get (codes "Sec-Ch-Ua") h in
      let ua_lower = to_lower lower ua in
      if text_eq sec_ch_ua [] then none else elim (chrome_version ua) [
        | none ↦
            if contains ua_lower (codes "firefox") || contains ua_lower (codes "safari")
            then some (
                codes
                  "sec-ch-ua present but User-Agent is Firefox or Safari (these browsers do not send Client Hints)")
            else none
        | some chrome_ver ↦
            version_reason chrome_ver
              (other_version chrome_ver (in_range (parse_sec_ch_ua sec_ch_ua)))
      ]
