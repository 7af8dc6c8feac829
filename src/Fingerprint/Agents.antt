-- ===== src/Fingerprint/Agents.antt =====
-- internal/signal/fingerprint/probes/navigator.go: what the probes read from texts. `lower` and
-- `fold` are strings.ToLower and strings.EqualFold on texts that are not ASCII.
use anti_scrapling.Go.{
  Bool, false, not, ◌&&◌, ◌||◌, if◌then◌else◌, List, [], ◌∷◌, Bytes, codes, text_eq, contains,
  to_lower, trim_space,
}
use anti_scrapling.Token.Binding.{equal_fold}

module _ (lower : Bytes → Bytes) where
  unfoldable pub is_firefox_ua : Bytes → Bool
  unfolding contains to_lower
  is_firefox_ua user_agent =
      let ua = to_lower lower user_agent in
      contains ua (codes "firefox/") || contains ua (codes "fxios/")

  unfoldable pub is_chrome_ua : Bytes → Bool
  unfolding contains to_lower
  is_chrome_ua user_agent =
      let ua = to_lower lower user_agent in
      if contains ua (codes "firefox/") || contains ua (codes "fxios/")
      then false
      else if contains ua (codes "edg/") || contains ua (codes "opr/")
      then false
      else (contains ua (codes "chrome/")
          || (contains ua (codes "chromium/") || contains ua (codes "crios/")))

  unfoldable pub is_safari_ua : Bytes → Bool
  unfolding contains to_lower is_chrome_ua is_firefox_ua
  is_safari_ua user_agent =
      let ua = to_lower lower user_agent in
      contains ua (codes "safari/")
      && (contains ua (codes "version/")
          && (not (is_chrome_ua user_agent) && not (is_firefox_ua user_agent)))

  unfoldable pub os_from_ua : Bytes → Bytes
  unfolding contains to_lower
  os_from_ua user_agent =
      let ua = to_lower lower user_agent in
      if contains ua (codes "windows nt")
      then codes "windows"
      else if contains ua (codes "linux") || contains ua (codes "x11")
      then codes "linux"
      else if contains ua (codes "mac os x") || contains ua (codes "macintosh")
      then codes "mac"
      else if contains ua (codes "iphone") || contains ua (codes "ipad")
      then codes "ios"
      else []

  unfoldable pub os_from_platform : Bytes → Bytes
  unfolding contains to_lower
  os_from_platform platform =
      let value = to_lower lower platform in
      if contains value (codes "win")
      then codes "windows"
      else if contains value (codes "linux") || contains value (codes "x11")
      then codes "linux"
      else if contains value (codes "mac")
      then codes "mac"
      else if contains value (codes "iphone") || contains value (codes "ipad")
      then codes "ios"
      else []

  unfoldable pub contains_fold : Bytes → Bytes → Bool
  unfolding contains to_lower
  contains_fold value substr = contains (to_lower lower value) (to_lower lower substr)

  unfoldable pub media_support_present : Bytes → Bool
  unfolding to_lower trim_space text_eq
  media_support_present value =
      let v = to_lower lower (trim_space value) in
      text_eq v (codes "maybe") || text_eq v (codes "probably")

module _ (fold : Bytes → Bytes → Bool) where
  unfoldable pub has_exact_string : List Bytes → Bytes → Bool
  unfolding equal_fold trim_space
  has_exact_string [] want = false
  has_exact_string (value ∷ values) want =
      equal_fold fold (trim_space value) want || has_exact_string values want

  unfoldable pub has_canonical_chrome_plugins : List Bytes → Bool
  unfolding has_exact_string
  has_canonical_chrome_plugins plugins =
      let has_chrome = has_exact_string plugins (codes "Chrome PDF Viewer") in
      let has_chromium = has_exact_string plugins (codes "Chromium PDF Viewer") in
      has_exact_string plugins (codes "PDF Viewer")
      && ((has_chrome || has_chromium)
          && (has_exact_string plugins (codes "Native Client") || (has_chrome && has_chromium)))
