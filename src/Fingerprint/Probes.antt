-- ===== src/Fingerprint/Probes.antt =====
-- internal/signal/fingerprint/probes: the probes of rendering, media and window.
use anti_scrapling.Go.{
  Bool, true, not, ◌&&◌, ◌||◌, if◌then◌else◌, none, some, List, [], ◌∷◌, ◌++◌, Bytes, codes,
  text_eq, lookup, Assoc, ℤ, pos, ltb, leb, length, ltb_ℤ, wrap64, sub_ℕ, pos_part, neg_part, ◌+◌,
}
use anti_scrapling.Types.{Signal, DetailValue}
use anti_scrapling.Fingerprint.Report.{FingerprintReport, RenderProbe}
use anti_scrapling.Fingerprint.Agents.{
  is_chrome_ua, is_safari_ua, contains_fold, media_support_present, has_exact_string,
}
use anti_scrapling.Fingerprint.Navigator.{new_signal, when, eq_ℤ}

-- `m[k]` on a map of strings: the empty text where there is no such key.
unfoldable pub text_at : Assoc Bytes → Bytes → Bytes
unfolding lookup
text_at m k = elim (lookup k m) [ none ↦ [] | some v ↦ v ]

-- `a - b` on `int`.
unfoldable pub sub64 : ℤ → ℤ → ℤ
unfolding wrap64
sub64 a b = wrap64 (sub_ℕ (pos_part a + neg_part b) (neg_part a + pos_part b))

module _ (fold : Bytes → Bytes → Bool) where
  unfoldable pub web_gl_extensions_anomalous : List Bytes → Bool
  unfolding has_exact_string
  web_gl_extensions_anomalous extensions =
      if ltb (length extensions) 10
      then true
      else leb (length extensions) 12
        && (has_exact_string fold extensions (codes "WEBGL_debug_renderer_info")
            && not (has_exact_string fold extensions (codes "OES_texture_float")))

unfoldable pub render_detail : RenderProbe → Assoc DetailValue
render_detail probe =
    (codes "variance", DetailValue.int probe.variance)
    ∷ (codes "hashes", DetailValue.texts probe.hashes)
    ∷ []

module _ {F : Type 0} (lower : Bytes → Bytes) where
  unfoldable pub codecs : FingerprintReport F → List Signal
  unfolding is_chrome_ua is_safari_ua text_at media_support_present
  codecs report =
      let ua = report.navigator.user_agent in
      let hevc = text_at report.codecs.rare (codes "hevc") in
      let av1 = text_at report.codecs.rare (codes "av1_p1") in
      when
        ((is_chrome_ua lower ua || is_safari_ua lower ua)
          && not (media_support_present lower hevc && media_support_present lower av1))
        (new_signal (codes "codec_rare_missing") 20
          (codes "modern Chrome/Safari user agent is missing HEVC or AV1 rare codec support")
          ((codes "hevc", DetailValue.text hevc) ∷ (codes "av1_p1", DetailValue.text av1) ∷ []))

  unfoldable pub web_gl : (Bytes → Bytes → Bool) → FingerprintReport F → List Signal
  unfolding contains_fold text_eq web_gl_extensions_anomalous
  web_gl fold report =
      let webgl = report.webgl in
      let unmasked =
        (codes "unmasked_vendor", DetailValue.text webgl.unmasked_vendor)
        ∷ (codes "unmasked_renderer", DetailValue.text webgl.unmasked_renderer)
        ∷ [] in
      when
        (contains_fold lower webgl.unmasked_vendor (codes "Intel")
          && contains_fold lower webgl.unmasked_renderer (codes "Apple GPU"))
        (new_signal (codes "webgl_vendor_renderer_impossible") 40
          (codes "WebGL unmasked vendor and renderer describe an impossible GPU combination")
          unmasked)
      ++ when (text_eq webgl.unmasked_vendor [] || text_eq webgl.unmasked_renderer []) (
          new_signal (codes "webgl_unmasked_missing") 20
            (codes "WEBGL_debug_renderer_info did not expose unmasked vendor and renderer")
            unmasked)
      ++ when (web_gl_extensions_anomalous fold webgl.extensions) (
          new_signal (codes "webgl_extensions_anomaly") 15
            (codes "WebGL extension surface is too small or matches a fake extension set")
            ((codes "extensions", DetailValue.texts webgl.extensions)
              ∷ (codes "extension_count", DetailValue.int (pos (length webgl.extensions)))
              ∷ []))

module _ {F : Type 0} where
  unfoldable pub canvas : FingerprintReport F → List Signal
  unfolding render_detail
  canvas report = when (not (ltb_ℤ report.canvas.variance (pos 2))) (
      new_signal (codes "canvas_seeded_noise") 50
        (codes "repeated canvas renders produced multiple hashes in the same session")
        (render_detail report.canvas))

  unfoldable pub audio : FingerprintReport F → List Signal
  unfolding render_detail
  audio report = when (not (ltb_ℤ report.audio.variance (pos 2))) (
      new_signal (codes "audio_seeded_noise") 40
        (codes "repeated AudioContext renders produced multiple hashes in the same session")
        (render_detail report.audio))

  unfoldable pub fonts : FingerprintReport F → List Signal
  fonts report =
      let missing = report.fonts.missing_os_bundled in
      when (ltb 0 (length missing)) (
        new_signal (codes "font_os_bundled_missing") 25
          (codes "claimed platform is missing OS-bundled fonts")
          ((codes "missing_os_bundled", DetailValue.texts missing) ∷ []))

  unfoldable pub window : FingerprintReport F → List Signal
  unfolding sub64
  window report =
      let delta = sub64 report.window.outer_height report.window.inner_height in
      when (eq_ℤ delta (pos 85)) (
        new_signal (codes "window_outer_height_85_trap") 50
          (codes "window.outerHeight - window.innerHeight is the playwright-stealth constant 85")
          ((codes "inner_height", DetailValue.int report.window.inner_height)
            ∷ (codes "outer_height", DetailValue.int report.window.outer_height)
            ∷ (codes "delta", DetailValue.int delta)
            ∷ []))
