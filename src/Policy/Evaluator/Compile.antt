-- ===== src/Policy/Evaluator/Compile.antt =====
-- `compileRule` and `NewEvaluator` keep the rules and their order.
use mathlib.Core.Path.{subst}
use anti_scrapling.Go.{
  ℕ, ◌+◌, ◌≡◌, refl, List, [], ◌∷◌, All, true, false, Bytes, Assoc, Option, Result, ok, arith,
}
use anti_scrapling.Types.{PolicyRule, PolicyConfig}
use anti_scrapling.Policy.Evaluator.{
  Cel, CelValue, CelOutcome, failed, bool, non_bool, EvalError, EvaluationContext, build_activation,
  answer, evaluate_rules, evaluate, CompiledRule, Evaluator, compile_rule, compile_rules,
  new_evaluator,
}

pub rules_of : (cel : Cel) → List (CompiledRule cel) → List PolicyRule
rules_of cel [] = []
rules_of cel (cr ∷ crs) = cr.rule ∷ rules_of cel crs

module _ (cel : Cel) where
  pub compile_rule-rule :
      (rule : PolicyRule) {cr : CompiledRule cel} → compile_rule cel rule ≡ ok cr → cr.rule ≡ rule
  unfolding compile_rule
  compile_rule-rule rule h = ground arith

  pub compile_rules-cons :
      (i : ℕ) (rule : PolicyRule) (rest : List PolicyRule) {cr : CompiledRule cel}
      {crs : List (CompiledRule cel)}
      → compile_rule cel rule ≡ ok cr
      → compile_rules cel (i + 1) rest ≡ ok crs
      → compile_rules cel i (rule ∷ rest) ≡ ok (cr ∷ crs)
  unfolding compile_rules
  compile_rules-cons i rule rest h k = ground arith

  pub compile_rules-nil : (i : ℕ) → compile_rules cel i [] ≡ ok []
  unfolding compile_rules
  compile_rules-nil i = refl

  -- Every rule of the list has a program, and the rules come in their order.
  pub record Compiles (i : ℕ) (rules : List PolicyRule) : Type 0 where
    pub compiled : List (CompiledRule cel)
    pub compiles : compile_rules cel i rules ≡ ok compiled
    pub in_order : rules_of cel compiled ≡ rules

  pub Compiles-nil : (i : ℕ) → Compiles i []
  unfolding rules_of
  Compiles-nil i = record { compiled = []; compiles = compile_rules-nil i; in_order = refl }

  pub Compiles-cons :
      (i : ℕ) (rule : PolicyRule) (rest : List PolicyRule) {cr : CompiledRule cel}
      → compile_rule cel rule ≡ ok cr
      → Compiles (i + 1) rest
      → Compiles i (rule ∷ rest)
  unfolding rules_of
  Compiles-cons i rule rest {cr} h c = record {
    compiled = cr ∷ c.compiled;
    compiles = compile_rules-cons i rule rest h c.compiles;
    in_order = rw (compile_rule-rule rule h, c.in_order) refl;
  }

  pub new_evaluator_of_Compiles :
      (cfg : PolicyConfig) (c : Compiles 0 cfg.policy.rules)
      → new_evaluator cel cfg ≡ ok (record { config = cfg; rules = c.compiled })
  unfolding new_evaluator
  new_evaluator_of_Compiles cfg c = rw (c.compiles) refl

module _ (cel : Cel) (P : Bytes → Type 0) (activation : Assoc CelValue) (default : Bytes) where
  answer-All :
      (cr : CompiledRule cel) (o : CelOutcome)
      (later : Result EvalError (Bytes × Option PolicyRule)) {action : Bytes}
      {rule : Option PolicyRule}
      → P cr.rule.action
      → answer cel cr o later ≡ ok (action, rule)
      → (later ≡ ok (action, rule) → P action)
      → P action
  unfolding answer
  answer-All cr failed later p h k = absurd (cc)
  answer-All cr non_bool later p h k = absurd (cc)
  answer-All cr (bool true) later p h k = subst P (cc h) p
  answer-All cr (bool false) later p h k = k h

  evaluate_rules-All :
      (crs : List (CompiledRule cel)) {action : Bytes} {rule : Option PolicyRule}
      → P default
      → All (λ r. P r.action) (rules_of cel crs)
      → evaluate_rules cel default activation crs ≡ ok (action, rule)
      → P action
  unfolding evaluate_rules rules_of
  evaluate_rules-All [] d h e = subst P (cc e) d
  evaluate_rules-All (cr ∷ crs) d (p, h) e =
      answer-All cr (cel.eval cr.program activation) (evaluate_rules cel default activation crs) p e
        (evaluate_rules-All crs d h)

-- What holds of the default action and of every rule's holds of the answer.
pub evaluate-All :
    (cel : Cel) (P : Bytes → Type 0) (e : Evaluator cel) (ctx : EvaluationContext) {action : Bytes}
    {rule : Option PolicyRule}
    → P e.config.policy.default
    → All (λ r. P r.action) (rules_of cel e.rules)
    → evaluate cel e ctx ≡ ok (action, rule)
    → P action
unfolding evaluate
evaluate-All cel P e ctx d h k =
    evaluate_rules-All cel P (build_activation ctx) e.config.policy.default e.rules d h k
