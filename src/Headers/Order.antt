-- ===== src/Headers/Order.antt =====
-- internal/signal/headers/order.go.
pub mod Matches
use anti_scrapling.Go.{
  ℕ, ◌+◌, ◌*◌, ◌/◌, Bool, true, false, ◌||◌, if◌then◌else◌, Option, none, some, List, [], ◌∷◌, map,
  Bytes, codes, text_eq, to_lower, length, ltb, leb,
}

abbrev pub chrome_order : List Bytes
chrome_order =
    codes "host"
    ∷ codes "connection"
    ∷ codes "sec-ch-ua"
    ∷ codes "sec-ch-ua-mobile"
    ∷ codes "sec-ch-ua-platform"
    ∷ codes "upgrade-insecure-requests"
    ∷ codes "user-agent"
    ∷ codes "accept"
    ∷ codes "sec-fetch-site"
    ∷ codes "sec-fetch-mode"
    ∷ codes "sec-fetch-user"
    ∷ codes "sec-fetch-dest"
    ∷ codes "accept-encoding"
    ∷ codes "accept-language"
    ∷ []

abbrev pub firefox_order : List Bytes
firefox_order =
    codes "host"
    ∷ codes "user-agent"
    ∷ codes "accept"
    ∷ codes "accept-language"
    ∷ codes "accept-encoding"
    ∷ codes "connection"
    ∷ codes "upgrade-insecure-requests"
    ∷ codes "sec-fetch-dest"
    ∷ codes "sec-fetch-mode"
    ∷ codes "sec-fetch-site"
    ∷ codes "sec-fetch-user"
    ∷ []

abbrev pub safari_order : List Bytes
safari_order =
    codes "host"
    ∷ codes "connection"
    ∷ codes "accept"
    ∷ codes "user-agent"
    ∷ codes "accept-language"
    ∷ codes "accept-encoding"
    ∷ []

-- The map's values; the order in which Go ranges over them makes no difference to a disjunction.
abbrev pub canonical_orders : List (List Bytes)
canonical_orders = chrome_order ∷ firefox_order ∷ safari_order ∷ []

-- `canonical` is what is left of the list from `ci` on.
unfoldable pub subsequence_score : List Bytes → List Bytes → ℕ
unfolding text_eq
subsequence_score [] canonical = 0
subsequence_score (h ∷ observed) [] = 0
subsequence_score (h ∷ observed) (c ∷ canonical) =
    let found = subsequence_score observed canonical in
    let missed = subsequence_score observed (c ∷ canonical) in
    if text_eq h c then 1 + found else missed

-- 60 % of the list's length, rounded down, as the code's product of floats is for these lists.
abbrev pub threshold : List Bytes → ℕ
threshold canonical = length canonical * 6 / 10

unfoldable pub matches_one : List Bytes → List (List Bytes) → Bool
unfolding subsequence_score
matches_one normalized [] = false
matches_one normalized (canonical ∷ orders) =
    leb (threshold canonical) (subsequence_score normalized canonical)
    || matches_one normalized orders

module _ (lower : Bytes → Bytes) where
  unfoldable pub matches_any_canonical : List Bytes → Bool
  unfolding matches_one to_lower
  matches_any_canonical observed = matches_one (map (to_lower lower) observed) canonical_orders

  -- `none` is the answer false, `some reason` the answer true.
  unfoldable pub is_order_anomaly : List Bytes → Option Bytes
  unfolding matches_any_canonical
  is_order_anomaly observed =
      if matches_any_canonical observed
      then none
      else if ltb (length observed) 8
      then some (codes "fewer than 8 headers and no browser canonical pattern matched")
      else some (codes "header order does not match any known browser canonical sequence")
