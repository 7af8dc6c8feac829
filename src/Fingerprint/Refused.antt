-- ===== src/Fingerprint/Refused.antt =====
-- Reports that `HandleVerify` never grants a pass.
use anti_scrapling.Go.{
  ℕ, Bool, ◌≤◌, ◌≡◌, ◌≢◌, refl, sym, ap, ◌∙◌, true, false, some, Bytes, pos, ◌≤ℤ◌, arith, ◌⊎◌, inl,
  inr, codes, contains, to_lower, is_ascii, has_prefix, text_eq,
}
use mathlib.Core.Option.{some_inj}
use anti_scrapling.Http.{HttpRequest}
use anti_scrapling.Lru.{Lru}
use anti_scrapling.Token.Issuer.{Jwt}
use anti_scrapling.Fingerprint.Report.{FingerprintReport, NavigatorProbe}
use anti_scrapling.Fingerprint.Agents.{os_from_ua, os_from_platform}
use anti_scrapling.Fingerprint.Navigator.{
  new_signal, when, platform_mismatch, hardware_trap, webdriver_set,
}
use anti_scrapling.Fingerprint.Page.{runtime}
use anti_scrapling.Fingerprint.Scorer.{score, run_families, probe_families}
use anti_scrapling.Fingerprint.Total.{
  points, points-append, score-Selected, families-points, navigator-points,
}
use anti_scrapling.Challenge.Service.{VerifyRequest, Service, redirect, total_of, handle_verify}
use anti_scrapling.Challenge.Service.Granted.{handle_verify-redirect}

runtime-points :
    {F : Type 0} (report : FingerprintReport F)
    → (report.runtime.console_debug_arity ≡ pos 0)
      ⊎ (report.runtime.error_stack_contains_pw_sig ≡ true)
    → 60 ≤ points (runtime report)
unfolding runtime when new_signal
runtime-points report (inl h) = simp points-append (ground (arith, h))
runtime-points report (inr h) = simp points-append (ground (arith, h))

mac_ua :
    (lower : Bytes → Bytes) (ua : Bytes)
    → contains (to_lower lower ua) (codes "mac os x") ≡ true
    → contains (to_lower lower ua) (codes "windows nt") ≡ false
    → contains (to_lower lower ua) (codes "linux") ≡ false
    → contains (to_lower lower ua) (codes "x11") ≡ false
    → os_from_ua lower ua ≡ codes "mac"
unfolding os_from_ua
mac_ua lower ua mac windows linux x11 = rw (windows, linux, x11, mac) refl

iphone_platform : (lower : Bytes → Bytes) → os_from_platform lower (codes "iPhone") ≡ codes "ios"
unfolding os_from_platform contains to_lower is_ascii has_prefix
iphone_platform lower = refl

module _ {F : Type 0} (lower : Bytes → Bytes) (fold : Bytes → Bytes → Bool) where
  webdriver-points :
      (nav : NavigatorProbe F) → nav.webdriver ≡ true → 60 ≤ points (webdriver_set lower fold nav)
  unfolding webdriver_set when new_signal
  webdriver-points nav h = ground (arith, h)

  hardware-points :
      (nav : NavigatorProbe F)
      → nav.hardware_concurrency ≡ pos 4
      → 30 ≤ points (hardware_trap lower fold nav)
  unfolding hardware_trap when new_signal
  hardware-points nav h = ground (arith, h)

  platform-points :
      (nav : NavigatorProbe F)
      → contains (to_lower lower nav.user_agent) (codes "mac os x") ≡ true
      → contains (to_lower lower nav.user_agent) (codes "windows nt") ≡ false
      → contains (to_lower lower nav.user_agent) (codes "linux") ≡ false
      → contains (to_lower lower nav.user_agent) (codes "x11") ≡ false
      → nav.platform ≡ codes "iPhone"
      → 50 ≤ points (platform_mismatch lower fold nav)
  unfolding platform_mismatch when new_signal text_eq
  platform-points nav mac windows linux x11 platform =
      let ua = mac_ua lower nav.user_agent mac windows linux x11 in
      let os = ap (os_from_platform lower) platform ∙ iphone_platform lower in
      rw (ua, os) (omega arith)

  module _ (lru : Lru ℕ) (jwt : Jwt) (sha256 : Bytes → Bytes) where
    open lru use {State}

    refused :
        (s : Service) (now n : ℕ) (r : HttpRequest) (req : VerifyRequest (FingerprintReport F))
        (ids : State) (target token : Bytes)
        → s.deny_threshold ≤ℤ pos n
        → n ≤ points (run_families (probe_families lower fold) req.fingerprint_report)
        → (handle_verify lru jwt sha256 (score lower fold) s now r (some req) ids).0
          ≢ redirect target token
    unfolding score
    refused s now n r req ids target token below enough h =
        let (post, id, pow, (signals, scored, less, signed), to) =
          handle_verify-redirect lru jwt sha256 (score lower fold) s now r req ids target token h in
        let (given, e, selected, total, small) = score-Selected lower fold req.fingerprint_report in
        let fam = some_inj.0 e in
        let same = sym (some_inj.0 scored) ∙ fam in
        absurd
          (ground (arith, below, enough, ap points fam, ap (total_of (pos 0)) same ∙ total, less))

    -- A client that reports navigator.webdriver and a disabled console.debug or a Playwright
    -- signature in its stack is never granted a pass, whatever else it reports, where the deny
    -- threshold is at most 120.
    pub handle_verify-automated :
        (s : Service) (now : ℕ) (r : HttpRequest) (req : VerifyRequest (FingerprintReport F))
        (ids : State) (target token : Bytes)
        → s.deny_threshold ≤ℤ pos 120
        → req.fingerprint_report.navigator.webdriver ≡ true
        → (req.fingerprint_report.runtime.console_debug_arity ≡ pos 0)
          ⊎ (req.fingerprint_report.runtime.error_stack_contains_pw_sig ≡ true)
        → (handle_verify lru jwt sha256 (score lower fold) s now r (some req) ids).0
          ≢ redirect target token
    handle_verify-automated s now r req ids target token below driven patched =
        let report = req.fingerprint_report in
        refused s now 120 r req ids target token below (
          omega (
            arith,
            families-points lower fold report,
            navigator-points lower fold report,
            webdriver-points report.navigator driven,
            runtime-points report patched,
          ))

    -- An iPhone is never granted a pass where the deny threshold is at most 80, if it reports four
    -- cores and the platform "iPhone" and its User-Agent names Mac OS X and neither Windows NT,
    -- Linux nor X11.
    pub handle_verify-iphone :
        (s : Service) (now : ℕ) (r : HttpRequest) (req : VerifyRequest (FingerprintReport F))
        (ids : State) (target token : Bytes)
        → s.deny_threshold ≤ℤ pos 80
        → contains (to_lower lower req.fingerprint_report.navigator.user_agent) (codes "mac os x")
          ≡ true
        → contains (to_lower lower req.fingerprint_report.navigator.user_agent) (codes "windows nt")
          ≡ false
        → contains (to_lower lower req.fingerprint_report.navigator.user_agent) (codes "linux")
          ≡ false
        → contains (to_lower lower req.fingerprint_report.navigator.user_agent) (codes "x11")
          ≡ false
        → req.fingerprint_report.navigator.platform ≡ codes "iPhone"
        → req.fingerprint_report.navigator.hardware_concurrency ≡ pos 4
        → (handle_verify lru jwt sha256 (score lower fold) s now r (some req) ids).0
          ≢ redirect target token
    handle_verify-iphone s now r req ids target token below mac windows linux x11 iphone cores =
        let report = req.fingerprint_report in
        refused s now 80 r req ids target token below (
          omega (
            arith,
            families-points lower fold report,
            navigator-points lower fold report,
            hardware-points report.navigator cores,
            platform-points report.navigator mac windows linux x11 iphone,
          ))
