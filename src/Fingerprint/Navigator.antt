-- ===== src/Fingerprint/Navigator.antt =====
-- internal/signal/fingerprint/probes/navigator.go: the probe of navigator.
use anti_scrapling.Go.{
  ℕ, Bool, not, ◌&&◌, if◌then◌else◌, List, [], ◌∷◌, ◌++◌, Bytes, codes, text_eq, trim_space, Assoc,
  ℤ, pos, ltb, length, leb_ℤ,
}
use anti_scrapling.Types.{Signal, DetailValue}
use anti_scrapling.Fingerprint.Report.{FingerprintReport, NavigatorProbe}
use anti_scrapling.Fingerprint.Agents.{
  is_chrome_ua, is_firefox_ua, os_from_ua, os_from_platform, has_canonical_chrome_plugins,
}

unfoldable pub new_signal : Bytes → ℕ → Bytes → Assoc DetailValue → Signal
new_signal name score reason detail = record {
  name = name;
  score = pos score;
  reason = reason;
  detail = detail;
}

-- `if raised { signals = append(signals, s) }`
unfoldable pub when : Bool → Signal → List Signal
when raised s = if raised then s ∷ [] else []

-- `a == b` on `int`.
abbrev pub eq_ℤ : ℤ → ℤ → Bool
eq_ℤ a b = leb_ℤ a b && leb_ℤ b a

module _ {F : Type 0} (lower : Bytes → Bytes) (fold : Bytes → Bytes → Bool) where
  unfoldable pub platform_mismatch : NavigatorProbe F → List Signal
  unfolding text_eq os_from_ua os_from_platform
  platform_mismatch nav =
      let ua_os = os_from_ua lower nav.user_agent in
      let platform_os = os_from_platform lower nav.platform in
      when
        (not (text_eq ua_os [])
          && (not (text_eq platform_os []) && not (text_eq ua_os platform_os)))
        (new_signal (codes "nav_platform_ua_mismatch") 50
          (codes "navigator.platform does not match the operating system in user_agent")
          ((codes "user_agent", DetailValue.text nav.user_agent)
            ∷ (codes "platform", DetailValue.text nav.platform)
            ∷ (codes "ua_os", DetailValue.text ua_os)
            ∷ (codes "platform_os", DetailValue.text platform_os)
            ∷ []))

  unfoldable pub hardware_trap : NavigatorProbe F → List Signal
  hardware_trap nav = when (eq_ℤ nav.hardware_concurrency (pos 4)) (
      new_signal (codes "nav_hardware_concurrency_trap") 30
        (codes "navigator.hardwareConcurrency is exactly the common stealth default of 4")
        ((codes "hardware_concurrency", DetailValue.int nav.hardware_concurrency) ∷ []))

  unfoldable pub webdriver_set : NavigatorProbe F → List Signal
  webdriver_set nav = when nav.webdriver (
      new_signal (codes "nav_webdriver_set") 60 (codes "navigator.webdriver is true")
        ((codes "webdriver", DetailValue.flag nav.webdriver) ∷ []))

  -- For Chrome, then for Firefox.
  unfoldable pub plugins_anomaly : NavigatorProbe F → List Signal
  unfolding is_chrome_ua is_firefox_ua has_canonical_chrome_plugins
  plugins_anomaly nav =
      let detail = (codes "plugins", DetailValue.texts nav.plugins) ∷ [] in
      when
        (is_chrome_ua lower nav.user_agent && not (has_canonical_chrome_plugins fold nav.plugins))
        (new_signal (codes "nav_plugins_anomaly") 20
          (codes "Chrome plugin list is missing the canonical PDF viewer plugin names") detail)
      ++ when (is_firefox_ua lower nav.user_agent && ltb 0 (length nav.plugins)) (
          new_signal (codes "nav_plugins_anomaly") 20
            (codes "Firefox should expose an empty navigator.plugins list") detail)

  unfoldable pub vendor_mismatch : NavigatorProbe F → List Signal
  unfolding is_chrome_ua is_firefox_ua text_eq
  vendor_mismatch nav =
      let detail =
        (codes "user_agent", DetailValue.text nav.user_agent)
        ∷ (codes "vendor", DetailValue.text nav.vendor)
        ∷ [] in
      when (is_chrome_ua lower nav.user_agent && not (text_eq nav.vendor (codes "Google Inc."))) (
        new_signal (codes "nav_vendor_ua_mismatch") 25
          (codes "Chrome user agent must report navigator.vendor as Google Inc.") detail)
      ++ when (is_firefox_ua lower nav.user_agent && not (text_eq nav.vendor [])) (
          new_signal (codes "nav_vendor_ua_mismatch") 25
            (codes "Firefox user agent must report an empty navigator.vendor") detail)

  unfoldable pub oscpu_firefox_only : NavigatorProbe F → List Signal
  unfolding is_firefox_ua trim_space text_eq
  oscpu_firefox_only nav =
      when (not (is_firefox_ua lower nav.user_agent) && not (text_eq (trim_space nav.oscpu) [])) (
        new_signal (codes "nav_oscpu_firefox_only") 15
          (codes "navigator.oscpu is Firefox-only but is present for this user agent")
          ((codes "user_agent", DetailValue.text nav.user_agent)
            ∷ (codes "oscpu", DetailValue.text nav.oscpu)
            ∷ []))

  unfoldable pub navigator : FingerprintReport F → List Signal
  unfolding platform_mismatch hardware_trap webdriver_set plugins_anomaly vendor_mismatch
      oscpu_firefox_only
  navigator report =
      let nav = report.navigator in
      platform_mismatch nav
      ++ hardware_trap nav
      ++ webdriver_set nav
      ++ plugins_anomaly nav
      ++ vendor_mismatch nav
      ++ oscpu_firefox_only nav
