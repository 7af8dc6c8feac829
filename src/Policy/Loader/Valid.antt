-- ===== src/Policy/Loader/Valid.antt =====
-- What a policy that loads is known to be: the evaluator compiles it, and answers with known actions.
use mathlib.Core.Path.{subst}
use anti_scrapling.Go.{
  Option-cases, ℕ, ◌+◌, ◌≡◌, inl, inr, refl, true, false, Option, none, some, List, [], ◌∷◌, All,
  Bytes, ok, Result-cases, arith, ℤ, text_eq,
}
use anti_scrapling.Types.{PolicyRule, PolicyConfig}
use anti_scrapling.Policy.Evaluator.{
  Cel, CompiledRule, Evaluator, EvaluationContext, compile_rule, new_evaluator, evaluate,
}
use anti_scrapling.Policy.Evaluator.Compile.{
  rules_of, evaluate-All, Compiles, Compiles-nil, Compiles-cons, new_evaluator_of_Compiles,
}
use anti_scrapling.Policy.Loader.{
  is_valid_action, validate_rules, validate_config, parse, load, is_zero,
}

abbrev pub IsValidRule : PolicyRule → Type 0
IsValidRule rule = is_valid_action rule.action ≡ true

-- A valid action is not the empty one, which stands for no answer.
pub is_valid_action-ne_none :
    (action : Bytes) → is_valid_action action ≡ true → text_eq action [] ≡ false
unfolding is_valid_action text_eq
is_valid_action-ne_none [] h = cc
is_valid_action-ne_none (c ∷ cs) h = refl

module _ (cel : Cel) (parse_duration : Bytes → Option ℤ) where
  validate_rules-cons :
      (i : ℕ) (rule : PolicyRule) (rest : List PolicyRule)
      → validate_rules cel parse_duration i (rule ∷ rest) ≡ none
      → IsValidRule rule
        × ((cr : CompiledRule cel) × (compile_rule cel rule ≡ ok cr))
        × (validate_rules cel parse_duration (i + 1) rest ≡ none)
  unfolding validate_rules
  validate_rules-cons i rule rest h = elim (Result-cases (compile_rule cel rule)) [
    | inl (cr, e) ↦ (ground arith, (cr, e), ground arith)
    | inr (x, e) ↦ absurd (ground arith)
  ]

  validate_rules-Compiles :
      (i j : ℕ) (rules : List PolicyRule)
      → validate_rules cel parse_duration i rules ≡ none
      → All IsValidRule rules × Compiles cel j rules
  validate_rules-Compiles i j [] h = (tt, Compiles-nil cel j)
  validate_rules-Compiles i j (rule ∷ rest) h =
      let (v, (cr, e), k) = validate_rules-cons i rule rest h in
      let (vs, c) = validate_rules-Compiles (i + 1) (j + 1) rest k in
      ((v, vs), Compiles-cons cel j rule rest e c)

  -- A configuration that the loader accepts.
  pub record IsLoadable (cfg : PolicyConfig) : Type 0 where
    pub versioned : is_zero cfg.version ≡ false
    pub default_valid : is_valid_action cfg.policy.default ≡ true
    pub rules_valid : All IsValidRule cfg.policy.rules
    pub rules_compile : Compiles cel 0 cfg.policy.rules

  validate_config-IsLoadable :
      (cfg : PolicyConfig) → validate_config cel parse_duration cfg ≡ none → IsLoadable cfg
  unfolding validate_config
  validate_config-IsLoadable cfg h =
      let rules : validate_rules cel parse_duration 0 cfg.policy.rules ≡ none = ground arith in
      let (vs, c) = validate_rules-Compiles 0 0 cfg.policy.rules rules in
      record {
        versioned = ground arith;
        default_valid = ground arith;
        rules_valid = vs;
        rules_compile = c;
      }

  module _ (unmarshal : Bytes → Option PolicyConfig) where
    load-IsLoadable :
        (file : Option Bytes) {cfg : PolicyConfig}
        → load cel parse_duration unmarshal file ≡ ok cfg
        → IsLoadable cfg
    unfolding load parse
    load-IsLoadable none h = cc
    load-IsLoadable (some contents) {cfg} h = elim (Option-cases (unmarshal contents)) [
      | inl e ↦ absurd (ground arith)
      | inr (c, e) ↦ elim (Option-cases (validate_config cel parse_duration c)) [
        | inl v ↦ subst IsLoadable (ground arith) (validate_config-IsLoadable c v)
        | inr (x, v) ↦ absurd (ground arith)
      ]
    ]

    -- A policy that loads has an evaluator: `NewEvaluator` compiles every rule, in the file's order.
    pub load-new_evaluator :
        (file : Option Bytes) {cfg : PolicyConfig}
        → load cel parse_duration unmarshal file ≡ ok cfg
        → (e : Evaluator cel) × (new_evaluator cel cfg ≡ ok e)
          × (rules_of cel e.rules ≡ cfg.policy.rules)
          × (e.config ≡ cfg)
    load-new_evaluator file {cfg} h =
        let c = (load-IsLoadable file h).rules_compile in
        (
          record { config = cfg; rules = c.compiled },
          new_evaluator_of_Compiles cel cfg c,
          c.in_order,
          refl,
        )

    -- Under a policy that loads, `Evaluate` answers "allow", "challenge" or "deny" and nothing else:
    -- so never the empty action that stands for no answer.
    pub evaluate-is_valid_action :
        (file : Option Bytes) {cfg : PolicyConfig} {e : Evaluator cel} (ctx : EvaluationContext)
        {action : Bytes} {rule : Option PolicyRule}
        → load cel parse_duration unmarshal file ≡ ok cfg
        → new_evaluator cel cfg ≡ ok e
        → evaluate cel e ctx ≡ ok (action, rule)
        → is_valid_action action ≡ true
    evaluate-is_valid_action file {cfg} {e} ctx {action} {rule} h k r =
        let l = load-IsLoadable file h in
        let same : record { config = cfg; rules = l.rules_compile.compiled } ≡ e =
          cc (new_evaluator_of_Compiles cel cfg l.rules_compile) in
        evaluate-All cel (λ a. is_valid_action a ≡ true) e ctx
          (subst (λ (x : Evaluator cel). is_valid_action x.config.policy.default ≡ true) same
            l.default_valid)
          (subst (λ (x : Evaluator cel). All IsValidRule (rules_of cel x.rules)) same
            (rw (l.rules_compile.in_order) l.rules_valid))
          r
