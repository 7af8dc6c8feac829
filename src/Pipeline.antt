-- ===== src/Pipeline.antt =====
-- internal/pipeline: collectors run in parallel, their signals are combined, and the decision is
-- cached.
pub mod Collect
pub mod Key
pub mod Decide
use anti_scrapling.Go.{
  ℕ, ◌*◌, ◌^◌, Bool, true, false, ◌&&◌, Option, none, some, List, [], ◌∷◌, ◌++◌, map, take, length,
  ltb, if◌then◌else◌, Bytes, codes, Assoc, Result, ok, err, ℤ, pos, ltb_ℤ, leb_ℤ,
}
use anti_scrapling.Types.{Signal, Decision, PolicyConfig, PolicyRule}
use anti_scrapling.Http.{HttpRequest, RequestContext, user_agent}
use anti_scrapling.Decision.{EvalCtx, EvalResult, RequestInfo, combine, action_none}
use anti_scrapling.Policy.Evaluator.{Cel, Evaluator, EvaluationContext, evaluate}
use anti_scrapling.Cache.{Cache}
use anti_scrapling.Pipeline.Collect.{Collector, collect_parallel}
use anti_scrapling.Pipeline.Key.{compute_cache_key}

-- 60 seconds, in nanoseconds.
abbrev pub default_cache_ttl : ℤ
default_cache_ttl = pos (60 * 10 ^ 9)

unfoldable pub build_request_info : RequestContext → RequestInfo
build_request_info req = record {
  method = elim req.request [ none ↦ [] | some r ↦ r.method ];
  path = elim req.request [ none ↦ [] | some r ↦ elim r.path [ none ↦ [] | some p ↦ p ] ];
  host = elim req.request [ none ↦ [] | some r ↦ r.host ];
  user_agent = elim req.request [ none ↦ [] | some r ↦ user_agent r ];
  remote_ip = req.remote_ip;
  ja3 = req.ja3;
  ja4 = req.ja4;
  ip_category = [];
}

-- `polCtx.Signals[name] = sig.Score`
unfoldable pub signal_scores : Assoc Signal → Assoc ℤ
signal_scores [] = []
signal_scores ((name, sig) ∷ m) = (name, sig.score) ∷ signal_scores m

unfoldable pub policy_context : EvalCtx → EvaluationContext
policy_context ec = record {
  request = record {
    method = ec.request_info.method;
    path = ec.request_info.path;
    host = ec.request_info.host;
    user_agent = ec.request_info.user_agent;
  };
  ip = record {
    address = ec.request_info.remote_ip;
    category = ec.request_info.ip_category;
    asn = [];
  };
  ja3 = ec.request_info.ja3;
  ja4 = ec.request_info.ja4;
  score = ec.score;
  has_valid_token = ec.has_valid_token;
  signals = signal_scores ec.signals;
}

-- `encode` is `json.Marshal` of a decision, `decode` is `json.Unmarshal`, and `sha256` the digest.
pub record Codec : Type 0 where
  pub encode : Decision → Option Bytes
  pub decode : Bytes → Option Decision
  pub sha256 : Bytes → Bytes

module _ (cel : Cel) (cache : Cache) (codec : Codec) where
  open codec use {encode, decode, sha256}

  pub record PipelineConfig : Type 0 where
    pub collectors : List Collector
    pub evaluator : Option (Evaluator cel)
    pub has_cache : Bool
    pub cache_ttl : ℤ
    pub policy : Option PolicyConfig

  -- `Pipeline` has the fields of its configuration. `has_cache` says that the cache is not nil.
  unfoldable pub new : PipelineConfig → PipelineConfig
  new cfg = record cfg {
    cache_ttl = if leb_ℤ cfg.cache_ttl (pos 0) then default_cache_ttl else cfg.cache_ttl;
  }

  -- The closure that `buildEvalFn` returns.
  unfoldable pub eval_result : Evaluator cel → EvalCtx → EvalResult
  eval_result eval ec = elim (evaluate cel eval (policy_context ec)) [
    | err e ↦ record { action = action_none; rule_name = [] }
    | ok (action, none) ↦ record { action = action; rule_name = [] }
    | ok (action, some rule) ↦ record { action = action; rule_name = rule.name }
  ]

  unfoldable pub build_eval_fn : Option (Evaluator cel) → Option (EvalCtx → EvalResult)
  build_eval_fn none = none
  build_eval_fn (some eval) = some (eval_result eval)

  -- `Cache.Get` at time `now`, where the entry is not empty and decodes.
  unfoldable pub cached : PipelineConfig → ℕ → Bytes → cache.State → Option Decision × cache.State
  cached p now key s =
      let (found, s') = cache.get now key s in
      if p.has_cache
      then (elim found [
        | none ↦ (none, s')
        | some data' ↦ if ltb 0 (length data') then (decode data', s') else (none, s')
      ])
      else (none, s)

  unfoldable pub remember : PipelineConfig → ℕ → Bytes → Decision → cache.State → cache.State
  remember p now key d s =
      if p.has_cache
      then (elim (encode d) [ none ↦ s | some data' ↦ cache.set now key data' p.cache_ttl s ])
      else s

  -- The decision on a request that the cache does not answer.
  unfoldable pub decide_fresh : PipelineConfig → ℕ → List ℕ → RequestContext → Bool → Decision
  decide_fresh p now schedule req has_valid_token =
      combine now (collect_parallel p.collectors schedule req) p.policy (build_request_info req)
        has_valid_token (build_eval_fn p.evaluator)

  -- The clock is read at most three times: for the cache, the decision, and the cache again.
  pub record Times : Type 0 where
    pub at_get : ℕ
    pub at_combine : ℕ
    pub at_set : ℕ

  -- What `Decide` does with the cache's answer: `schedule` is the order in which the collectors'
  -- goroutines end.
  unfoldable pub serve :
      PipelineConfig
      → Times
      → List ℕ
      → RequestContext
      → Bool
      → Option Decision × cache.State
      → Decision × cache.State
  serve p t schedule req has_valid_token (some d, s) = (d, s)
  serve p t schedule req has_valid_token (none, s) =
      let d = decide_fresh p t.at_combine schedule req has_valid_token in
      (d, remember p t.at_set (compute_cache_key sha256 req has_valid_token) d s)

  unfoldable pub decide :
      PipelineConfig → Times → List ℕ → RequestContext → Bool → cache.State → Decision × cache.State
  decide p t schedule req has_valid_token s =
      let key = compute_cache_key sha256 req has_valid_token in
      serve p t schedule req has_valid_token (cached p t.at_get key s)
