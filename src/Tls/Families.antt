-- ===== src/Tls/Families.antt =====
-- internal/signal/tls/families.go.
use anti_scrapling.Go.{
  Bool, true, false, ◌||◌, if◌then◌else◌, Option, none, some, [], ◌∷◌, Bytes, codes, Assoc, lookup,
  text_eq, contains, to_lower,
}

pub record FamilyInfo : Type 0 where
  pub family : Bytes
  pub version : Bytes
  pub library : Bytes
  pub impersonates : Bytes
  pub deny : Bool

abbrev browser : Bytes → Bytes → FamilyInfo
browser family version = record {
  family = family;
  version = version;
  library = [];
  impersonates = [];
  deny = false;
}

abbrev scraper : Bytes → Bytes → Bytes → FamilyInfo
scraper family version library = record {
  family = family;
  version = version;
  library = library;
  impersonates = [];
  deny = true;
}

-- `ja3Families`
abbrev pub ja3_families : Assoc FamilyInfo
ja3_families =
    (codes "cd08e31494f9531f560d64c695473da9", browser (codes "chrome") (codes "131"))
    ∷ (codes "e1d8b04eeb8ef3954ec4f49267a783ef", browser (codes "chrome") (codes "131"))
    ∷ (codes "0b935e9b934ada81b2e407784c3ef1b0", browser (codes "firefox") (codes "134"))
    ∷ (codes "1ad946d825cc9b4e935a7ade8fbb03b3", browser (codes "firefox") (codes "133"))
    ∷ (codes "9c4409ff1b0096116f2dcc9e696e1588", browser (codes "safari") (codes "18"))
    ∷ (
      codes "f8bfd03d8fe2b66ec606d235dacb30fa",
      scraper (codes "python-requests") [] (codes "python-requests"),
    )
    ∷ (
      codes "29c3e19f41f8747145368dc82464620c",
      scraper (codes "python-requests") [] (codes "python-requests"),
    )
    ∷ (
      codes "b32309a26951912be7dba376398abc3b",
      scraper (codes "python-requests") [] (codes "python-requests"),
    )
    ∷ (codes "786e7ab5b81d05d3931b4871da61da35", scraper (codes "curl") (codes "8") (codes "curl"))
    ∷ (codes "975b69aeb34b5d47b9684345ca079dec", scraper (codes "curl") (codes "8") (codes "curl"))
    ∷ []

-- `curlCFFIImpersonationJA3`
abbrev pub curl_cffi_impersonation_ja3 : Assoc Bytes
curl_cffi_impersonation_ja3 =
    (codes "e1d8b04eeb8ef3954ec4f49267a783ef", codes "chrome131")
    ∷ (codes "1ad946d825cc9b4e935a7ade8fbb03b3", codes "firefox133")
    ∷ (codes "9c4409ff1b0096116f2dcc9e696e1588", codes "safari18_0")
    ∷ []

-- `knownBrowserJA4`
abbrev pub known_browser_ja4 : Assoc FamilyInfo
known_browser_ja4 =
    (codes "t13d1516h2_dea800f94266_90347b42e38e", browser (codes "chrome") (codes "131"))
    ∷ (codes "t13d1515h2_dea800f94266_b7c7eda127ef", browser (codes "chrome") (codes "131"))
    ∷ (codes "t13d1715h2_ca21dff6868a_01a254a6f450", browser (codes "firefox") (codes "134"))
    ∷ (codes "t13d1714h2_ca21dff6868a_34e8737d688b", browser (codes "firefox") (codes "133"))
    ∷ (codes "t13d1714h2_ca21dff6868a_7d784a25af34", browser (codes "safari") (codes "18"))
    ∷ []

unfoldable pub lookup_known_ja4 : Bytes → Option FamilyInfo
unfolding lookup
lookup_known_ja4 ja4 = lookup ja4 known_browser_ja4

unfoldable pub is_browser_family : Bytes → Bool
unfolding text_eq
is_browser_family family =
    text_eq family (codes "chrome")
    || text_eq family (codes "firefox")
    || text_eq family (codes "safari")

-- What `lookupJA3Family` and `lookupDenylistedJA3` make of an entry.
abbrev pub with_impersonation : FamilyInfo → Option Bytes → FamilyInfo
with_impersonation info none = info
with_impersonation info (some impersonates) = record info { impersonates = impersonates }

abbrev pub denied : Option FamilyInfo → Option FamilyInfo
denied none = none
denied (some info) = if info.deny then some info else none

-- `unicode` is `strings.ToLower` on texts that are not ASCII.
module _ (unicode : Bytes → Bytes) where
  unfoldable pub lookup_ja3_family : Bytes → Option FamilyInfo
  unfolding lookup to_lower
  lookup_ja3_family hash = elim (lookup (to_lower unicode hash) ja3_families) [
    | none ↦ none
    | some info ↦
        some (with_impersonation info (lookup (to_lower unicode hash) curl_cffi_impersonation_ja3))
  ]

  unfoldable pub lookup_denylisted_ja3 : Bytes → Option FamilyInfo
  unfolding lookup_ja3_family
  lookup_denylisted_ja3 hash = denied (lookup_ja3_family hash)

  unfoldable pub user_agent_family : Bytes → Bytes
  unfolding to_lower contains
  user_agent_family user_agent =
      let ua = to_lower unicode user_agent in
      if contains ua (codes "python-requests") || contains ua (codes "urllib3")
      then codes "python-requests"
      else if contains ua (codes "curl")
      then codes "curl"
      else if contains ua (codes "firefox/")
      then codes "firefox"
      else if contains ua (codes "edg/") || contains ua (codes "opr/")
      then codes "chrome"
      else if contains ua (codes "chrome/")
          || contains ua (codes "chromium/")
          || contains ua (codes "crios/")
      then codes "chrome"
      else if contains ua (codes "safari/")
      then codes "safari"
      else []
