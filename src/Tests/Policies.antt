-- ===== src/Tests/Policies.antt =====
-- Policies compiled, loaded and evaluated.
use anti_scrapling.Go.{
  ◌≡◌, ◌↔◌, refl, Bool, true, false, Option, none, some, if◌then◌else◌, [], ◌∷◌, Bytes, codes,
  text_eq, text_eq_iff, has_prefix, lookup, join, ok, err, trim_space, atoi, sort_strings, ℤ, pos,
  arith,
}
use anti_scrapling.Types.{MatchValue, PolicyConfig}
use anti_scrapling.Policy.Compiler.{
  parse_score_expr, parse_score_with, match_map_to_expr, key_value_to_expr, parts_of, keys_of,
  value_at, as_string, as_bool, bad_number,
}
use anti_scrapling.Policy.Compiler.Order.{SameMap}
use anti_scrapling.Policy.Compiler.Families.{
  Element, Val, trim_prefix, is_match, any_family, matches_family_binding,
}
use anti_scrapling.Policy.Evaluator.{
  Evaluator, CompiledRule, EvaluationContext, build_activation, compile_rule, compile_rules,
  new_evaluator, answer, evaluate_rules, evaluate,
}
use anti_scrapling.Policy.Evaluator.FirstMatch.{Hit, evaluate-Hit_iff}
use anti_scrapling.Policy.Evaluator.Compile.{rules_of}
use anti_scrapling.Policy.Loader.{
  is_valid_action, is_zero, validate_rules, validate_ttl, validate_config, parse, load,
}
use anti_scrapling.Policy.Loader.Valid.{load-new_evaluator, evaluate-is_valid_action}
use anti_scrapling.Tests.Data.{cel, config, rule}
use mathlib.Core.List.Perm

at_least : parse_score_expr (codes ">= 50 ") ≡ ok (codes "score >= 50")
unfolding parse_score_expr parse_score_with has_prefix trim_space atoi
at_least = refl

not_a_number : parse_score_expr (codes ">=5O") ≡ err (bad_number (codes ">=5O"))
unfolding parse_score_expr parse_score_with has_prefix trim_space atoi
not_a_number = refl

-- Stands for `path.Match` on patterns without wildcards, where `[` alone is malformed.
abbrev path_match : Bytes → Bytes → Option Bool
unfolding text_eq
path_match pattern s = if text_eq pattern (codes "[") then none else some (text_eq pattern s)

-- A malformed pattern and a value that is no string are passed over.
family_found :
    matches_family_binding path_match
      (Val.text (codes "chrome"))
      (Val.lister (Element.text (codes "[") ∷ Element.other ∷ Element.text (codes "@chrome") ∷ []))
    ≡ true
unfolding matches_family_binding any_family trim_prefix is_match has_prefix text_eq
family_found = refl

abbrev score_entry : Bytes × MatchValue
score_entry = (codes "score", MatchValue.text (codes "<5"))

abbrev token_entry : Bytes × MatchValue
token_entry = (codes "has_valid_token", MatchValue.flag false)

both_keys :
    match_map_to_expr cel.quote (score_entry ∷ token_entry ∷ [])
    ≡ ok (codes "!has_valid_token && score < 5")
unfolding match_map_to_expr parts_of keys_of value_at key_value_to_expr as_string as_bool
    parse_score_expr parse_score_with has_prefix trim_space atoi lookup text_eq join sort_strings
both_keys = refl

entries_SameMap : SameMap (score_entry ∷ token_entry ∷ []) (token_entry ∷ score_entry ∷ [])
unfolding keys_of lookup
entries_SameMap = record {
  same_keys = Perm.swap (codes "has_valid_token") (codes "score") [];
  same_values =
      λ k. ground (arith, text_eq_iff (codes "score") k, text_eq_iff (codes "has_valid_token") k);
}

abbrev pub parse_duration : Bytes → Option ℤ
parse_duration s = some (pos 1)

abbrev pub unmarshal : Bytes → Option PolicyConfig
unmarshal s = some config

pub loaded : load cel parse_duration unmarshal (some (codes "yaml")) ≡ ok config
unfolding load parse validate_config validate_ttl validate_rules is_zero is_valid_action
    compile_rule match_map_to_expr parts_of keys_of value_at key_value_to_expr as_string lookup
    text_eq join sort_strings
loaded = refl

abbrev compiled : Evaluator cel
compiled = record {
  config = config;
  rules =
      record {
        rule =
            rule (codes "broken") ((codes "expr", MatchValue.text (codes "false")) ∷ [])
              (codes "challenge");
        program = codes "false";
      }
      ∷ record { rule = rule (codes "all") [] (codes "deny"); program = codes "true" }
      ∷ [];
}

compiles : new_evaluator cel config ≡ ok compiled
unfolding new_evaluator compile_rules compile_rule match_map_to_expr parts_of keys_of value_at
    key_value_to_expr as_string lookup text_eq join sort_strings
compiles = refl

load-new_evaluator_example :
    (e : Evaluator cel) × (new_evaluator cel config ≡ ok e)
    × (rules_of cel e.rules ≡ config.policy.rules)
    × (e.config ≡ config)
load-new_evaluator_example =
    load-new_evaluator cel parse_duration unmarshal (some (codes "yaml")) loaded

abbrev asked : EvaluationContext
asked = record {
  request = record { method = codes "GET"; path = codes "/"; host = []; user_agent = [] };
  ip = record { address = codes "10.0.0.1"; category = []; asn = [] };
  ja3 = [];
  ja4 = [];
  score = pos 0;
  has_valid_token = false;
  signals = [];
}

denied :
    evaluate cel compiled asked ≡ ok (codes "deny", some (rule (codes "all") [] (codes "deny")))
unfolding evaluate evaluate_rules answer build_activation text_eq
denied = refl

evaluate-is_valid_action_example : is_valid_action (codes "deny") ≡ true
evaluate-is_valid_action_example =
    evaluate-is_valid_action cel parse_duration unmarshal (some (codes "yaml")) asked loaded
      compiles denied

evaluate-Hit_iff_example :
    (evaluate cel compiled asked ≡ ok (codes "deny", some (rule (codes "all") [] (codes "deny"))))
    ↔ Hit cel
        (build_activation asked)
        compiled.rules
        (codes "deny")
        (rule (codes "all") [] (codes "deny"))
evaluate-Hit_iff_example =
    evaluate-Hit_iff cel compiled asked (codes "deny") (rule (codes "all") [] (codes "deny"))

-- A rule whose program fails, in front of one that matches.
abbrev broken : CompiledRule cel
broken = record {
  rule = rule (codes "broken") [] (codes "allow");
  program = codes "signals['x'] > 0";
}

abbrev half_broken : Evaluator cel
half_broken = record { config = config; rules = broken ∷ compiled.rules }
