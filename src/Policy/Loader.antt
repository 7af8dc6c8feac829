-- ===== src/Policy/Loader.antt =====
-- internal/policy/loader.go: a policy file is read, parsed and validated.
pub mod Valid
use anti_scrapling.Go.{
  ℕ, zero, suc, ◌+◌, Bool, true, false, ◌||◌, not, Option, none, some, List, [], ◌∷◌, Bytes, codes,
  text_eq, Assoc, Result, ok, err, ◌>>=◌, ℤ, pos, negsuc, if◌then◌else◌,
}
use anti_scrapling.Types.{PolicyRule, PolicyConfig}
use anti_scrapling.Policy.Evaluator.{Cel, CompiledRule, CompileError, compile_rule}

-- `validActions[action]`
unfoldable pub is_valid_action : Bytes → Bool
is_valid_action action =
    text_eq action (codes "allow")
    || text_eq action (codes "challenge")
    || text_eq action (codes "deny")

pub data LoadError : Type 0 where
  unreadable yaml_error missing_version : LoadError
  bad_default bad_ttl : Bytes → LoadError
  bad_action : ℕ → Bytes → LoadError
  bad_rule : ℕ → CompileError → LoadError

unfoldable pub is_zero : ℤ → Bool
is_zero (pos zero) = true
is_zero _ = false

-- `parse_duration` says whether `time.ParseDuration` accepts a text.
module _ (cel : Cel) (parse_duration : Bytes → Option ℤ) where
  -- The loop over the rules, at index `i`; nil is `none`.
  unfoldable pub validate_rules : ℕ → List PolicyRule → Option LoadError
  validate_rules i [] = none
  validate_rules i (rule ∷ rest) =
      let later = validate_rules (i + 1) rest in
      if not (is_valid_action rule.action)
      then some (bad_action i rule.action)
      else elim (compile_rule cel rule) [ err e ↦ some (bad_rule i e) | ok _ ↦ later ]

  unfoldable pub validate_ttl : Bytes → Option LoadError
  validate_ttl ttl =
      if text_eq ttl []
      then none
      else elim (parse_duration ttl) [ none ↦ some (bad_ttl ttl) | some _ ↦ none ]

  unfoldable pub validate_config : PolicyConfig → Option LoadError
  validate_config cfg =
      if is_zero cfg.version
      then some missing_version
      else if not (is_valid_action cfg.policy.default)
      then some (bad_default cfg.policy.default)
      else elim (validate_ttl cfg.token.ttl) [
        | some e ↦ some e
        | none ↦ validate_rules 0 cfg.policy.rules
      ]

  -- `unmarshal` is `yaml.Unmarshal` into a PolicyConfig.
  module _ (unmarshal : Bytes → Option PolicyConfig) where
    unfoldable pub parse : Bytes → Result LoadError PolicyConfig
    parse contents = elim (unmarshal contents) [
      | none ↦ err yaml_error
      | some cfg ↦ elim (validate_config cfg) [ some e ↦ err e | none ↦ ok cfg ]
    ]

    -- `file` is what `os.ReadFile` reads, `none` where it fails.
    unfoldable pub load : Option Bytes → Result LoadError PolicyConfig
    load none = err unreadable
    load (some contents) = parse contents
