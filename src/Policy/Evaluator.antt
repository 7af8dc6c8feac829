-- ===== src/Policy/Evaluator.antt =====
-- internal/policy/evaluator.go and `compileRule`: CEL programs, run in order until one matches.
-- github.com/google/cel-go is a parameter.
pub mod FirstMatch
pub mod Compile
use anti_scrapling.Go.{
  ℕ, suc, ◌+◌, Bool, true, false, not, if◌then◌else◌, Option, none, some, List, [], ◌∷◌, map, Bytes,
  codes, Assoc, Result, ok, err, ◌>>=◌, ℤ,
}
use anti_scrapling.Types.{MatchValue, PolicyRule, PolicyConfig}
use anti_scrapling.Policy.Compiler.{MatchError, match_map_to_expr}

-- A value that a CEL variable is bound to.
pub data CelValue : Type 0 where
  text : Bytes → CelValue
  int : ℤ → CelValue
  flag : Bool → CelValue
  texts : Assoc Bytes → CelValue
  ints : Assoc ℤ → CelValue

-- What `Program.Eval` returns: an error, a Boolean, or a value of another type.
pub data CelOutcome : Type 0 where
  failed : CelOutcome
  bool : Bool → CelOutcome
  non_bool : CelOutcome

-- The CEL library: `has_env` is whether `cel.NewEnv` makes the environment, which holds
-- `matchesFamilyBinding` (Policy/Compiler/Families), `compile` is `env.Compile` and `env.Program`,
-- and `quote` the verb %q.
pub record Cel : Type 1 where
  pub Program : Type 0
  pub has_env : Bool
  pub compile : Bytes → Option Program
  pub eval : Program → Assoc CelValue → CelOutcome
  pub quote : Bytes → Bytes

pub record RequestInfo : Type 0 where
  pub method : Bytes
  pub path : Bytes
  pub host : Bytes
  pub user_agent : Bytes

pub record IpInfo : Type 0 where
  pub address : Bytes
  pub category : Bytes
  pub asn : Bytes

pub record EvaluationContext : Type 0 where
  pub request : RequestInfo
  pub ip : IpInfo
  pub ja3 : Bytes
  pub ja4 : Bytes
  pub score : ℤ
  pub has_valid_token : Bool
  pub signals : Assoc ℤ

unfoldable pub build_activation : EvaluationContext → Assoc CelValue
build_activation ctx =
    (
      codes "request",
      CelValue.texts (
          (codes "method", ctx.request.method)
          ∷ (codes "path", ctx.request.path)
          ∷ (codes "host", ctx.request.host)
          ∷ (codes "user_agent", ctx.request.user_agent)
          ∷ []),
    )
    ∷ (
      codes "ip",
      CelValue.texts (
          (codes "address", ctx.ip.address)
          ∷ (codes "category", ctx.ip.category)
          ∷ (codes "asn", ctx.ip.asn)
          ∷ []),
    )
    ∷ (codes "ja3", CelValue.text ctx.ja3)
    ∷ (codes "ja4", CelValue.text ctx.ja4)
    ∷ (codes "score", CelValue.int ctx.score)
    ∷ (codes "has_valid_token", CelValue.flag ctx.has_valid_token)
    ∷ (codes "signals", CelValue.ints ctx.signals)
    ∷ []

pub data CompileError : Type 0 where
  no_env : CompileError
  bad_match : MatchError → CompileError
  bad_expr : Bytes → CompileError

pub data EvalError : Type 0 where
  eval_failed returned_non_bool : Bytes → EvalError

module _ (cel : Cel) where
  open cel use {Program, has_env, compile, eval, quote}

  pub record CompiledRule : Type 0 where
    pub rule : PolicyRule
    pub program : Program

  unfoldable pub compile_rule : PolicyRule → Result CompileError CompiledRule
  compile_rule rule =
      if not has_env then err no_env else elim (match_map_to_expr quote rule.match) [
        | err e ↦ err (bad_match e)
        | ok expr ↦ elim (compile expr) [
          | none ↦ err (bad_expr expr)
          | some program ↦ ok (record { rule = rule; program = program })
        ]
      ]

  pub record Evaluator : Type 0 where
    pub config : PolicyConfig
    pub rules : List CompiledRule

  -- The loop of `NewEvaluator`, at index `i`, which the error names.
  unfoldable pub compile_rules : ℕ → List PolicyRule → Result (ℕ × CompileError) (List CompiledRule)
  compile_rules i [] = ok []
  compile_rules i (rule ∷ rest) =
      let compiled = compile_rules (i + 1) rest in
      elim (compile_rule rule) [ err e ↦ err (i, e) | ok cr ↦ (compiled >>= λ crs. ok (cr ∷ crs)) ]

  unfoldable pub new_evaluator : PolicyConfig → Result (ℕ × CompileError) Evaluator
  new_evaluator cfg =
      compile_rules 0 cfg.policy.rules >>= λ crs. ok (record { config = cfg; rules = crs })

  abbrev pub Answer : Type 0
  Answer = Result EvalError (Bytes × Option PolicyRule)

  -- The body of the loop of `Evaluate`; `later` is what the rest of the loop returns.
  unfoldable pub answer : CompiledRule → CelOutcome → Answer → Answer
  answer cr failed later = err (eval_failed cr.rule.name)
  answer cr non_bool later = err (returned_non_bool cr.rule.name)
  answer cr (bool true) later = ok (cr.rule.action, some cr.rule)
  answer cr (bool false) later = later

  -- The action of the first rule that matches, or else the default.
  unfoldable pub evaluate_rules : Bytes → Assoc CelValue → List CompiledRule → Answer
  evaluate_rules default activation [] = ok (default, none)
  evaluate_rules default activation (cr ∷ rest) =
      answer cr (eval cr.program activation) (evaluate_rules default activation rest)

  unfoldable pub evaluate : Evaluator → EvaluationContext → Answer
  evaluate e ctx = evaluate_rules e.config.policy.default (build_activation ctx) e.rules
