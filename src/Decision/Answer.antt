-- ===== src/Decision/Answer.antt =====
-- `Combine` with a policy that answers, and with one that does not.
use anti_scrapling.Go.{
  ℕ, ◌≡◌, refl, Bool, false, ◌&&◌, Option, none, some, List, [], ◌∷◌, Bytes, text_eq, ltb_ℤ,
  if◌then◌else◌,
}
use anti_scrapling.Types.{Verdict, allow, challenge, deny, Signal, PolicyConfig}
use anti_scrapling.Decision.{
  EvalCtx, EvalResult, RequestInfo, combine, settle, eval_decision, policy_answer, deny_threshold,
  action_allow, action_deny, action_none,
}
use anti_scrapling.Decision.Score.{total_score}
use anti_scrapling.Decision.Order.{context}

-- The verdict that a rule's action stands for; a text that is no action means a challenge.
abbrev pub verdict_of : Bytes → Verdict
verdict_of action =
    if text_eq action action_allow
    then allow
    else if text_eq action action_deny
    then deny
    else challenge

policy_answer-none :
    (eval : EvalCtx → EvalResult) (ctx : EvalCtx)
    → (eval ctx).action ≡ action_none
    → policy_answer (some eval) ctx ≡ policy_answer none ctx
unfolding policy_answer text_eq
policy_answer-none eval ctx h = rw h refl

policy_answer-some :
    (eval : EvalCtx → EvalResult) (ctx : EvalCtx)
    → text_eq (eval ctx).action action_none ≡ false
    → policy_answer (some eval) ctx ≡ some (eval ctx)
unfolding policy_answer
policy_answer-some eval ctx h = rw h refl

module _ (now : ℕ) (ss : List Signal) (policy : Option PolicyConfig) (info : RequestInfo)
    (tok : Bool) (eval : EvalCtx → EvalResult) where
  -- Where the policy gives no answer, the decision is the one without a policy.
  pub combine_unanswered :
      (eval (context now ss policy info tok (some eval))).action ≡ action_none
      → combine now ss policy info tok (some eval) ≡ combine now ss policy info tok none
  unfolding combine
  combine_unanswered h =
      rw (policy_answer-none eval (context now ss policy info tok (some eval)) h) refl

  -- Where it gives one, and no token bypasses it, the verdict is the action's, and the thresholds
  -- are not asked.
  pub combine_answered :
      (tok && ltb_ℤ (total_score policy ss) (deny_threshold policy)) ≡ false
      → text_eq (eval (context now ss policy info tok (some eval))).action action_none ≡ false
      → let d = combine now ss policy info tok (some eval) in
        let r = eval (context now ss policy info tok (some eval)) in
        (d.verdict ≡ verdict_of r.action)
        × (d.policy_name ≡ r.rule_name)
        × (d.reasons ≡ r.rule_name ∷ [])
  unfolding combine settle eval_decision
  combine_answered h k =
      rw (h, policy_answer-some eval (context now ss policy info tok (some eval)) k)
        (refl, refl, refl)
