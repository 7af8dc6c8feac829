-- ===== src/Tests/Decisions.antt =====
-- `Combine` on concrete signals.
use anti_scrapling.Go.{
  ◌≡◌, ◌↔◌, ◌⊎◌, refl, true, false, none, some, [], ◌∷◌, codes, text_eq, lookup, add64, pos, negsuc,
}
use anti_scrapling.Types.{allow, challenge, Signal}
use anti_scrapling.Decision.{
  EvalCtx, EvalResult, combine, weigh, reweight, sum_scores, clamp, deny_threshold,
  challenge_threshold, policy_answer, settle, threshold_decision, token_bypass,
}
use anti_scrapling.Decision.Score.{total_score}
use anti_scrapling.Decision.Order.{combine-allow_iff, Bypasses, Settled, context}
use anti_scrapling.Tests.Data.{signal, info, config}

abbrev tor : Signal
tor = signal (codes "tor_exit") (pos 10)

abbrev mobile : Signal
mobile = signal (codes "mobile_ip") (negsuc 4)

-- The weight replaces the score of the signal: 50 - 5 is a challenge.
challenged : (combine 7 (tor ∷ mobile ∷ []) (some config) info false none).verdict ≡ challenge
unfolding combine weigh reweight sum_scores clamp deny_threshold challenge_threshold policy_answer
    settle threshold_decision token_bypass lookup text_eq add64
challenged = refl

abbrev allow_all : EvalCtx → EvalResult
allow_all ctx = record { action = codes "allow"; rule_name = codes "all" }

combine-allow_iff_example :
    ((combine 7 (tor ∷ []) (some config) info true (some allow_all)).verdict ≡ allow) ↔ (
      Bypasses 7 (tor ∷ []) (some config) info true (some allow_all)
      ⊎ Settled
          (deny_threshold (some config))
          (challenge_threshold (some config))
          (total_score (some config) (tor ∷ []))
          (policy_answer
            (some allow_all)
            (context 7 (tor ∷ []) (some config) info true (some allow_all))))
combine-allow_iff_example = combine-allow_iff 7 (tor ∷ []) (some config) info true (some allow_all)
