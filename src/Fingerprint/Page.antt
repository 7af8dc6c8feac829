-- ===== src/Fingerprint/Page.antt =====
-- internal/signal/fingerprint/probes: the probes of what scripts find in the page.
use anti_scrapling.Go.{
  Bool, not, ◌&&◌, ◌||◌, List, [], ◌∷◌, ◌++◌, Bytes, codes, text_eq, pos, ltb, length, ltb_ℤ,
}
use anti_scrapling.Types.{Signal, DetailValue}
use anti_scrapling.Fingerprint.Report.{FingerprintReport}
use anti_scrapling.Fingerprint.Agents.{is_chrome_ua, is_firefox_ua, is_safari_ua, contains_fold}
use anti_scrapling.Fingerprint.Navigator.{new_signal, when, eq_ℤ}

module _ {F : Type 0} where
  unfoldable pub permissions : FingerprintReport F → List Signal
  unfolding text_eq
  permissions report =
      let notifications = report.permissions.notifications_state in
      let midi = report.permissions.midi_state in
      when
        (text_eq notifications (codes "granted")
          && (text_eq midi (codes "denied") || text_eq midi (codes "prompt")))
        (new_signal (codes "permissions_midi_inconsistent") 35
          (codes "notifications permission is granted while midi remains denied or prompt")
          ((codes "notifications_state", DetailValue.text notifications)
            ∷ (codes "midi_state", DetailValue.text midi)
            ∷ []))

  unfoldable pub web_rtc : FingerprintReport F → List Signal
  web_rtc report = when (not (ltb 0 (length report.webrtc.local_ips))) (
      new_signal (codes "webrtc_no_local_ips") 15
        (codes "WebRTC STUN probe did not expose any local IP candidates")
        ((codes "public_ip", DetailValue.text report.webrtc.public_ip) ∷ []))

  unfoldable pub dom : FingerprintReport F → List Signal
  dom report =
      let identity = report.dom.iframe_content_window_identity in
      let accessible = report.dom.closed_shadow_root_accessible in
      when identity (
        new_signal (codes "dom_iframe_contentwindow_anomaly") 40
          (codes "iframe.contentWindow identity probe matched a stealth patch signature")
          ((codes "iframe_content_window_identity", DetailValue.flag identity) ∷ []))
      ++ when accessible (
          new_signal (codes "dom_closed_shadow_root_accessible") 50
            (codes "closed shadow root was accessible from page JavaScript")
            ((codes "closed_shadow_root_accessible", DetailValue.flag accessible) ∷ []))

  unfoldable pub runtime : FingerprintReport F → List Signal
  runtime report =
      let arity = report.runtime.console_debug_arity in
      let native = report.runtime.function_to_string_native in
      let signed = report.runtime.error_stack_contains_pw_sig in
      when (eq_ℤ arity (pos 0)) (
        new_signal (codes "runtime_console_debug_disabled") 60
          (codes "console.debug.length is zero, matching the patchright Console API patch")
          ((codes "console_debug_arity", DetailValue.int arity) ∷ []))
      ++ when (not native) (
          new_signal (codes "runtime_to_string_proxy") 35
            (codes "Function.prototype.toString failed the native reflection probe")
            ((codes "function_to_string_native", DetailValue.flag native) ∷ []))
      ++ when signed (
          new_signal (codes "runtime_error_stack_pw_signature") 70
            (codes "error stack contains a Playwright init-script signature")
            ((codes "error_stack_contains_pw_sig", DetailValue.flag signed) ∷ []))

  unfoldable pub hairline : FingerprintReport F → List Signal
  hairline report =
      let result = report.hairline.non_modernizr_result in
      when (ltb_ℤ (pos 0) result) (
        new_signal (codes "hairline_non_modernizr_anomaly") 20
          (codes "non-Modernizr hairline probe returned a positive result")
          ((codes "non_modernizr_result", DetailValue.int result) ∷ []))

module _ (lower : Bytes → Bytes) where
  unfoldable pub is_real_chrome_runtime_connect_error : Bytes → Bool
  unfolding contains_fold
  is_real_chrome_runtime_connect_error value =
      contains_fold lower value (codes "Could not establish connection")
      && not (contains_fold lower value (codes "TypeError"))

  unfoldable pub browser_bundles_voices : Bytes → Bool
  unfolding is_chrome_ua is_firefox_ua is_safari_ua
  browser_bundles_voices ua =
      is_chrome_ua lower ua || (is_firefox_ua lower ua || is_safari_ua lower ua)

module _ {F : Type 0} (lower : Bytes → Bytes) where
  unfoldable pub chrome_runtime : FingerprintReport F → List Signal
  unfolding is_chrome_ua is_firefox_ua text_eq is_real_chrome_runtime_connect_error
  chrome_runtime report =
      let ua = report.navigator.user_agent in
      let failure = report.chrome.runtime_connect_error in
      when
        (is_chrome_ua lower ua
          && (not (text_eq failure []) && not (is_real_chrome_runtime_connect_error lower failure)))
        (new_signal (codes "chrome_runtime_connect_failure") 40
          (codes "chrome.runtime.connect failed with a mock-specific error")
          ((codes "runtime_connect_error", DetailValue.text failure) ∷ []))
      ++ when (is_firefox_ua lower ua && report.chrome.present) (
          new_signal (codes "chrome_present_for_firefox") 60
            (codes "window.chrome is present for a Firefox user agent")
            ((codes "chrome_present", DetailValue.flag report.chrome.present)
              ∷ (codes "user_agent", DetailValue.text ua)
              ∷ []))

  unfoldable pub speech : FingerprintReport F → List Signal
  unfolding browser_bundles_voices
  speech report =
      when
        (browser_bundles_voices lower report.navigator.user_agent
          && (eq_ℤ report.speech.voices_count (pos 0) && not (ltb 0 (length report.speech.voices))))
        (new_signal (codes "speech_voices_empty") 15
          (codes "speechSynthesis voice list is empty for a browser/OS that bundles default voices")
          ((codes "voices_count", DetailValue.int report.speech.voices_count) ∷ []))

  unfoldable pub service_worker : FingerprintReport F → List Signal
  unfolding text_eq contains_fold
  service_worker report =
      let sw = report.service_worker in
      when
        ((sw.registered && not sw.controller)
          || (not (text_eq sw.error []) && contains_fold lower sw.error (codes "no-op")))
        (new_signal (codes "sw_register_noop") 45
          (codes "service worker registration did not produce a controller after wait")
          ((codes "registered", DetailValue.flag sw.registered)
            ∷ (codes "controller", DetailValue.flag sw.controller)
            ∷ (codes "error", DetailValue.text sw.error)
            ∷ []))
