-- ===== src/Fingerprint/Scorer.antt =====
-- internal/signal/fingerprint/scorer.go. Score never returns an error.
use anti_scrapling.Go.{Bool, Option, some, List, [], ◌∷◌, ◌++◌, Bytes}
use anti_scrapling.Types.{Signal}
use anti_scrapling.Fingerprint.Report.{FingerprintReport}
use anti_scrapling.Fingerprint.Navigator.{navigator}
use anti_scrapling.Fingerprint.Probes.{web_gl, canvas, audio, codecs, fonts, window}
use anti_scrapling.Fingerprint.Page.{
  chrome_runtime, permissions, web_rtc, dom, runtime, speech, service_worker, hairline,
}

unfoldable pub run_families :
    {F : Type 0} → List (FingerprintReport F → List Signal) → FingerprintReport F → List Signal
run_families [] report = []
run_families (family ∷ families) report = family report ++ run_families families report

module _ {F : Type 0} (lower : Bytes → Bytes) (fold : Bytes → Bytes → Bool) where
  unfoldable pub probe_families : List (FingerprintReport F → List Signal)
  probe_families =
      navigator lower fold
      ∷ web_gl lower fold
      ∷ canvas
      ∷ audio
      ∷ codecs lower
      ∷ fonts
      ∷ window
      ∷ chrome_runtime lower
      ∷ permissions
      ∷ web_rtc
      ∷ dom
      ∷ runtime
      ∷ speech lower
      ∷ service_worker lower
      ∷ hairline
      ∷ []

  unfoldable pub score : FingerprintReport F → Option (List Signal)
  unfolding run_families probe_families
  score report = some (run_families probe_families report)
