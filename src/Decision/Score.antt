-- ===== src/Decision/Score.antt =====
-- The score of a decision, on every path through `Combine`.
use anti_scrapling.Go.{
  ℕ, suc, sym, +ℤ_assoc, zero-+ℤ, +ℤ-zero, +ℤ_parts_le, ◌+◌, ◌*◌, ◌^◌, ◌≤◌, ◌≡◌, ap, ◌∙◌, Bool,
  Option, List, [], ◌∷◌, arith, length, All, ℤ, pos, pos_part, neg_part, ◌+ℤ◌, ◌≤ℤ◌,
  add64_of_IsInt64,
}
use anti_scrapling.Types.{Signal, PolicyConfig}
use anti_scrapling.Decision.{
  EvalCtx, EvalResult, RequestInfo, combine, weigh, sum_scores, clamp, token_bypass, eval_decision,
  threshold_decision, settle,
}

pub clamp_range : (t : ℤ) → (pos 0 ≤ℤ clamp t) × (clamp t ≤ℤ pos 100)
unfolding clamp
clamp_range t = ground arith

pub clamp_mono : (s t : ℤ) → s ≤ℤ t → clamp s ≤ℤ clamp t
unfolding clamp
clamp_mono s t h = ground arith

-- The score that `Combine` computes from the signals and the weights.
abbrev pub total_score : Option PolicyConfig → List Signal → ℤ
total_score policy signals = clamp (sum_scores (pos 0) (weigh policy signals))

module _ (now : ℕ) (signals : List Signal) (policy : Option PolicyConfig) (info : RequestInfo)
    (tok : Bool) (eval_fn : Option (EvalCtx → EvalResult)) where
  pub combine-score :
      (combine now signals policy info tok eval_fn).score ≡ total_score policy signals
  unfolding combine settle token_bypass eval_decision threshold_decision
  combine-score = ground arith

  pub combine-signals : (combine now signals policy info tok eval_fn).signals ≡ weigh policy signals
  unfolding combine settle token_bypass eval_decision threshold_decision
  combine-signals = ground arith

-- The sum of the scores with no wrap.
abbrev pub exact_sum : List Signal → ℤ
exact_sum [] = pos 0
exact_sum (s ∷ ss) = s.score +ℤ exact_sum ss

-- A score that a 32-bit integer holds.
abbrev pub IsSmall : Signal → Type 0
IsSmall s = (pos_part s.score ≤ 2 ^ 31) × (neg_part s.score ≤ 2 ^ 31)

-- `acc` leaves room for `n` more small scores.
abbrev HasRoom : ℤ → ℕ → Type 0
HasRoom acc n = (pos_part acc + n * 2 ^ 31 ≤ 2 ^ 62) × (neg_part acc + n * 2 ^ 31 ≤ 2 ^ 62)

add-HasRoom :
    (acc : ℤ) (n : ℕ) (s : Signal) → IsSmall s → HasRoom acc (suc n) → HasRoom (acc +ℤ s.score) n
add-HasRoom acc n s h r = omega (arith, +ℤ_parts_le acc s.score)

sum_scores-exact_from :
    (acc : ℤ) (ss : List Signal)
    → All IsSmall ss
    → HasRoom acc (length ss)
    → sum_scores acc ss ≡ acc +ℤ exact_sum ss
unfolding sum_scores
sum_scores-exact_from acc [] h r = sym (+ℤ-zero acc)
sum_scores-exact_from acc (s ∷ ss) (p, h) r =
    let room = add-HasRoom acc (length ss) s p r in
    rw (add64_of_IsInt64 acc s.score (omega (arith, room)))
      (sum_scores-exact_from (acc +ℤ s.score) ss h room ∙ +ℤ_assoc acc s.score (exact_sum ss))

-- With fewer than 2^31 scores of 32 bits the 64-bit sum does not wrap.
pub sum_scores-exact :
    (ss : List Signal) → All IsSmall ss → length ss ≤ 2 ^ 31 → sum_scores (pos 0) ss ≡ exact_sum ss
sum_scores-exact ss h n = sum_scores-exact_from (pos 0) ss h (omega arith) ∙ zero-+ℤ (exact_sum ss)

-- Whatever the signals, the weights, the token and the policy, the score of a decision lies between
-- 0 and 100.
pub combine-score_range :
    (now : ℕ) (signals : List Signal) (policy : Option PolicyConfig) (info : RequestInfo)
    (tok : Bool) (eval_fn : Option (EvalCtx → EvalResult))
    → (pos 0 ≤ℤ (combine now signals policy info tok eval_fn).score)
      × ((combine now signals policy info tok eval_fn).score ≤ℤ pos 100)
combine-score_range now signals policy info tok eval_fn =
    rw (combine-score now signals policy info tok eval_fn)
      (clamp_range (sum_scores (pos 0) (weigh policy signals)))

-- With at most 2^31 signals whose weighted scores 32 bits hold, the score of a decision is their
-- exact sum, cut to the range from 0 to 100, on every branch: the 64-bit sum does not wrap.
pub combine-score_exact :
    (now : ℕ) (signals : List Signal) (policy : Option PolicyConfig) (info : RequestInfo)
    (tok : Bool) (eval_fn : Option (EvalCtx → EvalResult))
    → All IsSmall (weigh policy signals)
    → length (weigh policy signals) ≤ 2 ^ 31
    → (combine now signals policy info tok eval_fn).score ≡ clamp (exact_sum (weigh policy signals))
combine-score_exact now signals policy info tok eval_fn small few =
    combine-score now signals policy info tok eval_fn
    ∙ ap clamp (sum_scores-exact (weigh policy signals) small few)
