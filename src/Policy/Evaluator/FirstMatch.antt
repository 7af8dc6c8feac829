-- ===== src/Policy/Evaluator/FirstMatch.antt =====
-- `Evaluate` against the order of the rules: the first rule that does not answer false decides.
use anti_scrapling.Go.{
  ◌≡◌, ◌↔◌, refl, ap, ◌∙◌, true, false, none, some, List, [], ◌∷◌, ◌++◌, All, Bytes, Assoc, ok, err,
  arith,
}
use anti_scrapling.Types.{PolicyRule}
use anti_scrapling.Policy.Evaluator.{
  Cel, CelValue, CelOutcome, failed, bool, non_bool, CompiledRule, Evaluator, EvaluationContext,
  answer, evaluate_rules, evaluate, build_activation, eval_failed,
}
use mathlib.Core.List.{append-nil}

module _ (cel : Cel) (activation : Assoc CelValue) where
  open cel use {eval}

  -- The rule does not match.
  abbrev pub IsSilent : CompiledRule cel → Type 0
  IsSilent cr = eval cr.program activation ≡ bool false

  -- `cr` is the first rule that is not silent.
  pub record StopsAt (rules : List (CompiledRule cel)) (cr : CompiledRule cel) : Type 0 where
    pub front : List (CompiledRule cel)
    pub back : List (CompiledRule cel)
    pub splits : rules ≡ front ++ (cr ∷ back)
    pub silent : All IsSilent front

  -- What is known when the rules answer with a rule's action.
  pub record Hit (rules : List (CompiledRule cel)) (action : Bytes) (rule : PolicyRule)
      : Type 0 where
    pub cr : CompiledRule cel
    pub stops : StopsAt rules cr
    pub matches : eval cr.program activation ≡ bool true
    pub action_is : action ≡ cr.rule.action
    pub rule_is : rule ≡ cr.rule

  module _ (default : Bytes) where
    evaluate_rules_past :
        (front rest : List (CompiledRule cel))
        → All IsSilent front
        → evaluate_rules cel default activation (front ++ rest)
          ≡ evaluate_rules cel default activation rest
    unfolding evaluate_rules answer
    evaluate_rules_past [] rest h = refl
    evaluate_rules_past (cr ∷ front) rest (e, h) = rw (e, evaluate_rules_past front rest h) refl

    Hit-skip :
        (cr : CompiledRule cel) {rest : List (CompiledRule cel)} {action : Bytes}
        {rule : PolicyRule}
        → IsSilent cr
        → Hit rest action rule
        → Hit (cr ∷ rest) action rule
    Hit-skip cr e h = record {
      cr = h.cr;
      stops = record {
        front = cr ∷ h.stops.front;
        back = h.stops.back;
        splits = ap (◌∷◌ cr) h.stops.splits;
        silent = (e, h.stops.silent);
      };
      matches = h.matches;
      action_is = h.action_is;
      rule_is = h.rule_is;
    }

    answer-Hit :
        (cr : CompiledRule cel) (rest : List (CompiledRule cel)) (o : CelOutcome) {action : Bytes}
        {rule : PolicyRule}
        → eval cr.program activation ≡ o
        → answer cel cr o (evaluate_rules cel default activation rest) ≡ ok (action, some rule)
        → (evaluate_rules cel default activation rest ≡ ok (action, some rule)
            → Hit rest action rule)
        → Hit (cr ∷ rest) action rule
    unfolding answer
    answer-Hit cr rest failed e h ih = cc
    answer-Hit cr rest non_bool e h ih = cc
    answer-Hit cr rest (bool true) e h ih = record {
      cr = cr;
      stops = record { front = []; back = rest; splits = refl; silent = tt };
      matches = e;
      action_is = ground arith;
      rule_is = ground arith;
    }
    answer-Hit cr rest (bool false) e h ih = Hit-skip cr e (ih h)

    evaluate_rules-Hit :
        (rules : List (CompiledRule cel)) {action : Bytes} {rule : PolicyRule}
        → evaluate_rules cel default activation rules ≡ ok (action, some rule)
        → Hit rules action rule
    unfolding evaluate_rules
    evaluate_rules-Hit [] h = cc
    evaluate_rules-Hit (cr ∷ rest) h =
        answer-Hit cr rest (eval cr.program activation) refl h (evaluate_rules-Hit rest)

    -- The rules stop at `cr`, whatever its program answers.
    evaluate_rules_stop :
        (rules : List (CompiledRule cel)) (cr : CompiledRule cel) (s : StopsAt rules cr)
        → evaluate_rules cel default activation rules
          ≡ answer cel cr
              (eval cr.program activation)
              (evaluate_rules cel default activation s.back)
    unfolding evaluate_rules
    evaluate_rules_stop rules cr s =
        rw s.splits (evaluate_rules_past s.front (cr ∷ s.back) s.silent)

    evaluate_rules_of_Hit :
        (rules : List (CompiledRule cel)) {action : Bytes} {rule : PolicyRule}
        → Hit rules action rule
        → evaluate_rules cel default activation rules ≡ ok (action, some rule)
    unfolding answer
    evaluate_rules_of_Hit rules h =
        evaluate_rules_stop rules h.cr h.stops ∙ rw (h.matches, h.action_is, h.rule_is) refl

module _ (cel : Cel) (e : Evaluator cel) (ctx : EvaluationContext) where
  -- `Evaluate` answers with a rule exactly when that is the first rule of the policy whose program
  -- does not answer false, and its program answers true. The action is the rule's.
  pub evaluate-Hit_iff :
      (action : Bytes) (rule : PolicyRule)
      → (evaluate cel e ctx ≡ ok (action, some rule))
        ↔ Hit cel (build_activation ctx) e.rules action rule
  unfolding evaluate
  evaluate-Hit_iff action rule = (
    evaluate_rules-Hit cel (build_activation ctx) e.config.policy.default e.rules,
    evaluate_rules_of_Hit cel (build_activation ctx) e.config.policy.default e.rules,
  )

  -- A rule whose program fails hides all later rules and the default: the rules behind it are
  -- not asked, and the answer is the error that names it.
  pub evaluate_failed :
      (cr : CompiledRule cel)
      → StopsAt cel (build_activation ctx) e.rules cr
      → cel.eval cr.program (build_activation ctx) ≡ failed
      → evaluate cel e ctx ≡ err (eval_failed cr.rule.name)
  unfolding evaluate answer
  evaluate_failed cr s f =
      evaluate_rules_stop cel (build_activation ctx) e.config.policy.default e.rules cr s
      ∙ rw f refl

  -- With no rule that matches or fails the answer is the default, and no rule.
  pub evaluate_default :
      All (IsSilent cel (build_activation ctx)) e.rules
      → evaluate cel e ctx ≡ ok (e.config.policy.default, none)
  unfolding evaluate evaluate_rules
  evaluate_default h =
      rw (← append-nil e.rules)
        (evaluate_rules_past cel (build_activation ctx) e.config.policy.default e.rules [] h)
