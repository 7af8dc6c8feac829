-- ===== src/Fingerprint/Catalogue.antt =====
-- Which signals `Score` can give.
use anti_scrapling.Go.{
  ℕ, ltb, length, text_eq, ◌≡◌, refl, Bool, true, false, ◌&&◌, not, List, [], ◌∷◌, ◌++◌, Bytes,
  codes, pos, arith, Assoc,
}
use anti_scrapling.Types.{Signal, DetailValue}
use anti_scrapling.Fingerprint.Report.{FingerprintReport, NavigatorProbe}
use anti_scrapling.Fingerprint.Agents.{is_chrome_ua, is_firefox_ua, has_canonical_chrome_plugins}
use anti_scrapling.Fingerprint.Navigator.{
  new_signal, when, navigator, platform_mismatch, hardware_trap, webdriver_set, plugins_anomaly,
  vendor_mismatch, oscpu_firefox_only,
}
use anti_scrapling.Fingerprint.Probes.{web_gl, canvas, audio, codecs, fonts, window}
use anti_scrapling.Fingerprint.Page.{
  chrome_runtime, permissions, web_rtc, dom, runtime, speech, service_worker, hairline,
}
use anti_scrapling.Fingerprint.Scorer.{run_families, probe_families}

-- The signals have the names and the scores of some of the entries, in their order, each once.
pub data Selected : List Signal → List (Bytes × ℕ) → Type 0 where
  done : Selected [] []
  chosen :
      {s : Signal} {name : Bytes} {k : ℕ} {ss : List Signal} {cs : List (Bytes × ℕ)}
      → s.name ≡ name
      → s.score ≡ pos k
      → Selected ss cs
      → Selected (s ∷ ss) ((name, k) ∷ cs)
  skipped :
      {c : Bytes × ℕ} {ss : List Signal} {cs : List (Bytes × ℕ)}
      → Selected ss cs
      → Selected ss (c ∷ cs)

pub Selected-append :
    {ss ts : List Signal} {cs ds : List (Bytes × ℕ)}
    → Selected ss cs
    → Selected ts ds
    → Selected (ss ++ ts) (cs ++ ds)
Selected-append done q = q
Selected-append (chosen n k p) q = chosen n k (Selected-append p q)
Selected-append (skipped p) q = skipped (Selected-append p q)

Selected-when :
    (b : Bool) (name : Bytes) (k : ℕ) (reason : Bytes) (detail : Assoc DetailValue)
    → Selected (when b (new_signal name k reason detail)) ((name, k) ∷ [])
unfolding when new_signal
Selected-when true name k reason detail = chosen refl refl done
Selected-when false name k reason detail = skipped done

-- Two tests of which one fails.
Selected-either :
    (a b c d : Bool) {name : Bytes} {k : ℕ} (reason other : Bytes) (detail : Assoc DetailValue)
    → a && c ≡ false
    → Selected
        (when (a && b) (new_signal name k reason detail)
          ++ when (c && d) (new_signal name k other detail))
        ((name, k) ∷ [])
unfolding when new_signal
Selected-either true b true d reason other detail h = absurd (ground (arith, h))
Selected-either true true false d reason other detail h = chosen refl refl done
Selected-either true false false d reason other detail h = skipped done
Selected-either false b true true reason other detail h = chosen refl refl done
Selected-either false b true false reason other detail h = skipped done
Selected-either false b false d reason other detail h = skipped done

not_both :
    (lower : Bytes → Bytes) (ua : Bytes) → is_chrome_ua lower ua && is_firefox_ua lower ua ≡ false
unfolding is_chrome_ua is_firefox_ua
not_both lower ua = ground arith

-- A browser is not Chrome and Firefox at once.
Selected-browsers :
    (lower : Bytes → Bytes) (ua : Bytes) (b c : Bool) {name : Bytes} {k : ℕ} (reason other : Bytes)
    (detail : Assoc DetailValue)
    → Selected
        (when (is_chrome_ua lower ua && b) (new_signal name k reason detail)
          ++ when (is_firefox_ua lower ua && c) (new_signal name k other detail))
        ((name, k) ∷ [])
Selected-browsers lower ua b c reason other detail =
    Selected-either (is_chrome_ua lower ua) b (is_firefox_ua lower ua) c reason other detail
      (not_both lower ua)

abbrev pub navigator_catalogue : List (Bytes × ℕ)
navigator_catalogue =
    (codes "nav_platform_ua_mismatch", 50)
    ∷ (codes "nav_hardware_concurrency_trap", 30)
    ∷ (codes "nav_webdriver_set", 60)
    ∷ (codes "nav_plugins_anomaly", 20)
    ∷ (codes "nav_vendor_ua_mismatch", 25)
    ∷ (codes "nav_oscpu_firefox_only", 15)
    ∷ []

abbrev web_gl_catalogue : List (Bytes × ℕ)
web_gl_catalogue =
    (codes "webgl_vendor_renderer_impossible", 40)
    ∷ (codes "webgl_unmasked_missing", 20)
    ∷ (codes "webgl_extensions_anomaly", 15)
    ∷ []

abbrev dom_catalogue : List (Bytes × ℕ)
dom_catalogue =
    (codes "dom_iframe_contentwindow_anomaly", 40)
    ∷ (codes "dom_closed_shadow_root_accessible", 50)
    ∷ []

abbrev runtime_catalogue : List (Bytes × ℕ)
runtime_catalogue =
    (codes "runtime_console_debug_disabled", 60)
    ∷ (codes "runtime_to_string_proxy", 35)
    ∷ (codes "runtime_error_stack_pw_signature", 70)
    ∷ []

abbrev pub catalogue : List (Bytes × ℕ)
catalogue =
    navigator_catalogue
    ++ (web_gl_catalogue
        ++ ((codes "canvas_seeded_noise", 50)
            ∷ (codes "audio_seeded_noise", 40)
            ∷ (codes "codec_rare_missing", 20)
            ∷ (codes "font_os_bundled_missing", 25)
            ∷ (codes "window_outer_height_85_trap", 50)
            ∷ (codes "chrome_runtime_connect_failure", 40)
            ∷ (codes "chrome_present_for_firefox", 60)
            ∷ (codes "permissions_midi_inconsistent", 35)
            ∷ (codes "webrtc_no_local_ips", 15)
            ∷ (dom_catalogue
                ++ (runtime_catalogue
                    ++ ((codes "speech_voices_empty", 15)
                        ∷ (codes "sw_register_noop", 45)
                        ∷ (codes "hairline_non_modernizr_anomaly", 20)
                        ∷ [])))))

module _ {F : Type 0} (lower : Bytes → Bytes) (fold : Bytes → Bytes → Bool) where
  plugins_anomaly-Selected :
      (nav : NavigatorProbe F)
      → Selected (plugins_anomaly lower fold nav) ((codes "nav_plugins_anomaly", 20) ∷ [])
  unfolding plugins_anomaly
  plugins_anomaly-Selected nav =
      Selected-browsers lower nav.user_agent (not (has_canonical_chrome_plugins fold nav.plugins))
        (ltb 0 (length nav.plugins)) _ _ _

  vendor_mismatch-Selected :
      (nav : NavigatorProbe F)
      → Selected (vendor_mismatch lower fold nav) ((codes "nav_vendor_ua_mismatch", 25) ∷ [])
  unfolding vendor_mismatch
  vendor_mismatch-Selected nav =
      Selected-browsers lower nav.user_agent (not (text_eq nav.vendor (codes "Google Inc.")))
        (not (text_eq nav.vendor [])) _ _ _

  navigator-Selected :
      (report : FingerprintReport F) → Selected (navigator lower fold report) navigator_catalogue
  unfolding navigator platform_mismatch hardware_trap webdriver_set oscpu_firefox_only
  navigator-Selected report =
      Selected-append
        (Selected-append
          (Selected-append
            (Selected-append (Selected-append (Selected-when _ _ _ _ _) (Selected-when _ _ _ _ _))
              (Selected-when _ _ _ _ _))
            (plugins_anomaly-Selected report.navigator))
          (vendor_mismatch-Selected report.navigator))
        (Selected-when _ _ _ _ _)

module _ {F : Type 0} (lower : Bytes → Bytes) where
  web_gl-Selected :
      (fold : Bytes → Bytes → Bool) (report : FingerprintReport F)
      → Selected (web_gl lower fold report) web_gl_catalogue
  unfolding web_gl
  web_gl-Selected fold report =
      Selected-append (Selected-append (Selected-when _ _ _ _ _) (Selected-when _ _ _ _ _))
        (Selected-when _ _ _ _ _)

  chrome_runtime-Selected :
      (report : FingerprintReport F)
      → Selected (chrome_runtime lower report) (
          (codes "chrome_runtime_connect_failure", 40)
          ∷ (codes "chrome_present_for_firefox", 60)
          ∷ [])
  unfolding chrome_runtime
  chrome_runtime-Selected report =
      Selected-append (Selected-when _ _ _ _ _) (Selected-when _ _ _ _ _)

module _ {F : Type 0} where
  dom-Selected : (report : FingerprintReport F) → Selected (dom report) dom_catalogue
  unfolding dom
  dom-Selected report = Selected-append (Selected-when _ _ _ _ _) (Selected-when _ _ _ _ _)

  runtime-Selected : (report : FingerprintReport F) → Selected (runtime report) runtime_catalogue
  unfolding runtime
  runtime-Selected report =
      Selected-append (Selected-append (Selected-when _ _ _ _ _) (Selected-when _ _ _ _ _))
        (Selected-when _ _ _ _ _)

module _ {F : Type 0} (lower : Bytes → Bytes) (fold : Bytes → Bytes → Bool) where
  pub families-Selected :
      (report : FingerprintReport F)
      → Selected (run_families (probe_families lower fold) report) catalogue
  unfolding run_families probe_families canvas audio codecs fonts window permissions web_rtc speech
      service_worker hairline
  families-Selected report = Selected-append (navigator-Selected lower fold report) (
      Selected-append (web_gl-Selected lower fold report) (
        Selected-append (Selected-when _ _ _ _ _) (
          Selected-append (Selected-when _ _ _ _ _) (
            Selected-append (Selected-when _ _ _ _ _) (
              Selected-append (Selected-when _ _ _ _ _) (
                Selected-append (Selected-when _ _ _ _ _) (
                  Selected-append (chrome_runtime-Selected lower report) (
                    Selected-append (Selected-when _ _ _ _ _) (
                      Selected-append (Selected-when _ _ _ _ _) (
                        Selected-append (dom-Selected report) (
                          Selected-append (runtime-Selected report) (
                            Selected-append (Selected-when _ _ _ _ _) (
                              Selected-append (Selected-when _ _ _ _ _)
                                (Selected-append (Selected-when _ _ _ _ _) done))))))))))))))
