-- ===== src/Decision/Order.antt =====
-- What moves a verdict of `Combine` and what does not: more score, the order of the signals, a
-- pass token, the policy's answer.
use anti_scrapling.Go.{
  ℕ, ◌≤◌, ◌≡◌, ◌↔◌, refl, ap, ◌∙◌, Bool, true, Option, none, some, List, [], arith, length, ℤ, pos,
  ◌≤ℤ◌, ◌<ℤ◌, add64_right_comm, ltb_ℤ, ltb, Bytes, ◌&&◌, add64, text_eq_refl, text_eq_iff, ◌⊎◌, inl,
  inr, Bool-cases, ℤ_set,
}
use anti_scrapling.Types.{Verdict, allow, challenge, deny, Signal, PolicyConfig}
use anti_scrapling.Decision.{
  EvalCtx, EvalResult, RequestInfo, combine, weigh, sum_scores, clamp, token_bypass, eval_decision,
  threshold_decision, policy_answer, settle, signal_map, deny_threshold, challenge_threshold,
  action_allow,
}
use anti_scrapling.Decision.Score.{total_score}
use mathlib.Core.List.{Perm, Permᴰ}
use mathlib.Core.List.Permᴰ
use mathlib.Core.Logic.{∥∥₁_elim}

abbrev pub severity : Verdict → ℕ
severity allow = 0
severity challenge = 1
severity deny = 2

module _ (policy : Option PolicyConfig) (info : RequestInfo) (tok : Bool) where
  -- With no evaluator, and with or without a token, signals of a larger total score never give a
  -- milder verdict than signals of a smaller one.
  pub combine_mono :
      (now now' : ℕ) (ss ts : List Signal)
      → total_score policy ss ≤ℤ total_score policy ts
      → severity (combine now ss policy info tok none).verdict
        ≤ severity (combine now' ts policy info tok none).verdict
  unfolding combine settle policy_answer threshold_decision token_bypass
  combine_mono now now' ss ts h = ground arith

sum_scores-perm :
    {ss ts : List Signal} → Permᴰ ss ts → (acc : ℤ) → sum_scores acc ss ≡ sum_scores acc ts
unfolding sum_scores
sum_scores-perm Permᴰ.nil acc = refl
sum_scores-perm (Permᴰ.cons {b = b} e p) acc = rw e (sum_scores-perm p (add64 acc b.score))
sum_scores-perm (Permᴰ.swap {a' = c} {b' = d} {l = l} e f) acc =
    rw (e, f) (ap (λ t. sum_scores t l) (add64_right_comm acc d.score c.score))
sum_scores-perm (Permᴰ.trans p q) acc = sum_scores-perm p acc ∙ sum_scores-perm q acc

weigh-perm :
    (policy : Option PolicyConfig) {ss ts : List Signal}
    → Permᴰ ss ts
    → Permᴰ (weigh policy ss) (weigh policy ts)
unfolding weigh
weigh-perm none p = p
weigh-perm (some c) p = elim (Bool-cases (ltb 0 (length c.scoring.weights))) [
  | inl e ↦ rw e (Permᴰ.map _ p)
  | inr e ↦ rw e p
]

total_score-perm :
    (policy : Option PolicyConfig) (ss ts : List Signal)
    → Perm ss ts
    → total_score policy ss ≡ total_score policy ts
total_score-perm policy ss ts p =
    ∥∥₁_elim p (ℤ_set _ _) (λ d. ap clamp (sum_scores-perm (weigh-perm policy d) (pos 0)))

module _ (policy : Option PolicyConfig) (info : RequestInfo) (tok : Bool) (now : ℕ) where
  -- The order in which the collectors' signals come makes no difference to the score or, with no
  -- evaluator, to the verdict: wraps of the 64-bit sum included.
  pub combine-perm :
      (ss ts : List Signal)
      → Perm ss ts
      → ((combine now ss policy info tok none).score ≡ (combine now ts policy info tok none).score)
        × ((combine now ss policy info tok none).verdict
            ≡ (combine now ts policy info tok none).verdict)
  unfolding combine settle policy_answer threshold_decision token_bypass
  combine-perm ss ts p = let e = total_score-perm policy ss ts p in ground (arith, e)

eval_decision-allow_iff :
    (now : ℕ) (action name : Bytes) (score : ℤ) (ss : List Signal)
    → ((eval_decision now action name score ss).verdict ≡ allow) ↔ (action ≡ action_allow)
unfolding eval_decision
eval_decision-allow_iff now action name score ss = (
  λ h. (text_eq_iff action action_allow).0 (ground arith),
  λ e. ground (arith, text_eq_refl action_allow),
)

-- The ways to be allowed that are left when no token bypasses the policy.
abbrev pub Settled : ℤ → ℤ → ℤ → Option EvalResult → Type 0
Settled deny_at challenge_at total (some r) = r.action ≡ action_allow
Settled deny_at challenge_at total none = (total <ℤ deny_at) × (total <ℤ challenge_at)

settle-allow_iff :
    (now : ℕ) (deny_at challenge_at total : ℤ) (ss : List Signal) (answer : Option EvalResult)
    → ((settle now deny_at challenge_at total ss answer).verdict ≡ allow)
      ↔ Settled deny_at challenge_at total answer
unfolding settle threshold_decision
settle-allow_iff now d c total ss (some r) =
    eval_decision-allow_iff now r.action r.rule_name total ss
settle-allow_iff now d c total ss none = (λ h. ground arith, λ h. ground arith)

module _ (now : ℕ) (ss : List Signal) (policy : Option PolicyConfig) (info : RequestInfo)
    (tok : Bool) (eval_fn : Option (EvalCtx → EvalResult)) where
  -- What the evaluator is given.
  abbrev pub context : EvalCtx
  context = record {
    score = total_score policy ss;
    signals = signal_map [] (weigh policy ss);
    request_info = info;
    has_valid_token = tok;
  }

  -- A token bypasses the policy below the deny threshold only.
  abbrev pub Bypasses : Type 0
  Bypasses = (tok ≡ true) × (total_score policy ss <ℤ deny_threshold policy)

  -- `Combine` allows a request in exactly three cases: a valid token comes with a score below the deny
  -- threshold; the policy answers "allow"; the policy has no answer and the score is below both
  -- thresholds.
  pub combine-allow_iff : ((combine now ss policy info tok eval_fn).verdict ≡ allow) ↔ (
      Bypasses
      ⊎ Settled
          (deny_threshold policy)
          (challenge_threshold policy)
          (total_score policy ss)
          (policy_answer eval_fn context))
  unfolding combine token_bypass
  combine-allow_iff = elim (Bool-cases (tok && ltb_ℤ total deny_at)) [
    | inl e ↦ (λ h. inl (ground arith), λ h. rw e)
    | inr e ↦ (
      λ h. inr (settled.0 (rw e at h)),
      elim [ inl b ↦ absurd (ground arith) | inr s ↦ rw e (settled.1 s) ],
    )
  ]
    where
      total : ℤ
      total = total_score policy ss

      deny_at : ℤ
      deny_at = deny_threshold policy

      answer : Option EvalResult
      answer = policy_answer eval_fn context

      settled :
          ((settle now deny_at (challenge_threshold policy) total (weigh policy ss) answer).verdict
            ≡ allow)
          ↔ Settled deny_at (challenge_threshold policy) total answer
      settled =
          settle-allow_iff now deny_at (challenge_threshold policy) total (weigh policy ss) answer
