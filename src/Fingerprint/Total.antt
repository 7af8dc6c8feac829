-- ===== src/Fingerprint/Total.antt =====
-- What `Score` adds up to, and whom `HandleVerify` therefore refuses.
use anti_scrapling.Go.{
  ℕ, Bool, wrap64, ◌+◌, ◌^◌, ◌≤◌, ◌<◌, ◌≡◌, refl, ap, ◌∙◌, some, List, [], ◌∷◌, ◌++◌, Bytes, pos,
  pos_part, add64, ◌+ℤ◌, arith,
}
use anti_scrapling.Types.{Signal}
use anti_scrapling.Fingerprint.Report.{FingerprintReport}
use anti_scrapling.Fingerprint.Navigator.{
  navigator, platform_mismatch, hardware_trap, webdriver_set,
}
use anti_scrapling.Fingerprint.Page.{runtime}
use anti_scrapling.Fingerprint.Scorer.{score, run_families, probe_families}
use anti_scrapling.Fingerprint.Catalogue.{
  Selected, done, chosen, skipped, catalogue, families-Selected,
}
use anti_scrapling.Challenge.Service.{total_of}

abbrev pub points_of : List (Bytes × ℕ) → ℕ
points_of [] = 0
points_of ((name, k) ∷ cs) = k + points_of cs

abbrev pub points : List Signal → ℕ
points [] = 0
points (s ∷ ss) = pos_part s.score + points ss

pub points-append : (ss ts : List Signal) → points (ss ++ ts) ≡ points ss + points ts
points-append [] ts = omega arith
points-append (s ∷ ss) ts = omega (arith, points-append ss ts)

points-le : {ss : List Signal} {cs : List (Bytes × ℕ)} → Selected ss cs → points ss ≤ points_of cs
points-le done = omega arith
points-le (chosen {s} n k p) = ground (arith, k, points-le p)
points-le (skipped p) = ground (arith, points-le p)

add64-pos : (a b : ℕ) → a + b < 2 ^ 63 → add64 (pos a) (pos b) ≡ pos (a + b)
unfolding add64 wrap64 ◌+ℤ◌
add64-pos a b h = ground (arith, h)

total-Selected :
    (t : ℕ) {ss : List Signal} {cs : List (Bytes × ℕ)}
    → Selected ss cs
    → t + points_of cs < 2 ^ 63
    → total_of (pos t) ss ≡ pos (t + points ss)
unfolding total_of
total-Selected t done h = ap pos (omega arith)
total-Selected t (chosen {s} {k} {ss} n e p) h =
    ap (λ x. total_of (add64 (pos t) x) ss) e
    ∙ ap (λ x. total_of x ss) (add64-pos t k (ground (arith, h)))
    ∙ total-Selected (t + k) p (ground (arith, h))
    ∙ ap pos (ground (arith, e))
total-Selected t (skipped p) h = total-Selected t p (ground (arith, h))

module _ {F : Type 0} (lower : Bytes → Bytes) (fold : Bytes → Bytes → Bool) where
  -- Score gives every report signals, never an error: a selection of the 26 entries of the
  -- catalogue, in order and each at most once. HandleVerify's sum of them is exact and at most 945.
  pub score-Selected :
      (report : FingerprintReport F)
      → (signals : List Signal) × (score lower fold report ≡ some signals)
        × Selected signals catalogue
        × (total_of (pos 0) signals ≡ pos (points signals))
        × (points signals ≤ 945)
  unfolding score
  score-Selected report =
      let selected = families-Selected lower fold report in
      (
        run_families (probe_families lower fold) report,
        refl,
        selected,
        total-Selected 0 selected (omega arith) ∙ ap pos (omega arith),
        ground (arith, points-le selected),
      )

  pub families-points :
      (report : FingerprintReport F)
      → points (navigator lower fold report) + points (runtime report)
        ≤ points (run_families (probe_families lower fold) report)
  unfolding run_families probe_families
  families-points report = simp points-append (omega arith)

  pub navigator-points :
      (report : FingerprintReport F)
      → points (platform_mismatch lower fold report.navigator)
          + points (hardware_trap lower fold report.navigator)
          + points (webdriver_set lower fold report.navigator)
        ≤ points (navigator lower fold report)
  unfolding navigator
  navigator-points report = simp points-append (omega arith)
