-- ===== src/Pipeline/Decide.antt =====
-- `Decide`: the cache in front of the decision, and the policy behind it.
use mathlib.Core.Path.{subst}
use anti_scrapling.Go.{
  ℕ, ◌+◌, ◌<◌, ◌≤◌, ◌≡◌, refl, ap, Bool, true, false, ◌&&◌, Option, none, some, List, [], ◌∷◌,
  Bytes, length, ok, err, pos, ltb_ℤ, arith,
}
use anti_scrapling.Types.{Signal, Decision, PolicyRule}
use anti_scrapling.Http.{RequestContext}
use anti_scrapling.Decision.Score.{total_score}
use anti_scrapling.Decision.Order.{context}
use anti_scrapling.Decision.Answer.{verdict_of, combine_unanswered, combine_answered}
use anti_scrapling.Policy.Loader.{is_valid_action}
use anti_scrapling.Policy.Loader.Valid.{is_valid_action-ne_none}
use anti_scrapling.Decision.{deny_threshold, EvalCtx, combine}
use anti_scrapling.Policy.Evaluator.{Cel, Evaluator, EvaluationContext, EvalError, evaluate}
use anti_scrapling.Cache.{Cache}
use anti_scrapling.Pipeline.Collect.{collect_parallel}
use anti_scrapling.Pipeline.Key.{compute_cache_key}
use anti_scrapling.Pipeline.{
  Codec, PipelineConfig, Times, cached, remember, serve, decide, decide_fresh, eval_result,
  build_eval_fn, policy_context, build_request_info,
}

-- A decision that JSON carries: it comes back with its verdict, score and policy name.
pub record Carries (codec : Codec) (d : Decision) : Type 0 where
  pub bytes : Bytes
  pub back : Decision
  pub encoded : codec.encode d ≡ some bytes
  pub not_empty : 0 < length bytes
  pub decoded : codec.decode bytes ≡ some back
  pub same_verdict : back.verdict ≡ d.verdict
  pub same_score : back.score ≡ d.score
  pub same_policy : back.policy_name ≡ d.policy_name

module _ (cel : Cel) (cache : Cache) (codec : Codec) (p : PipelineConfig cel cache codec) where
  abbrev pub key_of : RequestContext → Bool → Bytes
  key_of = compute_cache_key codec.sha256

  -- A cached decision that decodes is returned as it is: no collector and no rule is asked.
  pub decide_hit :
      (t : Times cel cache codec) (schedule : List ℕ) (req : RequestContext) (tok : Bool)
      (s s' : cache.State) (d : Decision)
      → cached cel cache codec p t.at_get (key_of req tok) s ≡ (some d, s')
      → decide cel cache codec p t schedule req tok s ≡ (d, s')
  unfolding decide serve
  decide_hit t schedule req tok s s' d h = ap (serve cel cache codec p t schedule req tok) h

  pub decide_miss :
      (t : Times cel cache codec) (schedule : List ℕ) (req : RequestContext) (tok : Bool)
      (s s' : cache.State)
      → cached cel cache codec p t.at_get (key_of req tok) s ≡ (none, s')
      → decide cel cache codec p t schedule req tok s ≡ (
        decide_fresh cel cache codec p t.at_combine schedule req tok,
        remember cel cache codec p t.at_set
            (key_of req tok)
            (decide_fresh cel cache codec p t.at_combine schedule req tok)
            s',
      )
  unfolding decide serve
  decide_miss t schedule req tok s s' h = ap (serve cel cache codec p t schedule req tok) h

  serve_hit :
      (t : Times cel cache codec) (schedule : List ℕ) (req : RequestContext) (tok : Bool)
      (r : Option Decision × cache.State) {d : Decision}
      → r.0 ≡ some d
      → (serve cel cache codec p t schedule req tok r).0 ≡ d
  unfolding serve
  serve_hit t schedule req tok (some d, s) h = ground arith
  serve_hit t schedule req tok (none, s) h = cc

  decide_known :
      (t : Times cel cache codec) (schedule : List ℕ) (req : RequestContext) (tok : Bool)
      (s : cache.State) {d : Decision}
      → (cached cel cache codec p t.at_get (key_of req tok) s).0 ≡ some d
      → (decide cel cache codec p t schedule req tok s).0 ≡ d
  unfolding decide
  decide_known t schedule req tok s h =
      serve_hit t schedule req tok (cached cel cache codec p t.at_get (key_of req tok) s) h

  cached-remember :
      (at now ttl : ℕ) (key : Bytes) (d : Decision) (s : cache.State) (c : Carries codec d)
      → p.has_cache ≡ true
      → p.cache_ttl ≡ pos ttl
      → 0 < ttl
      → now ≤ at + ttl
      → (cached cel cache codec p now key (remember cel cache codec p at key d s)).0 ≡ some c.back
  unfolding cached remember
  cached-remember at now ttl key d s c on long pos_ttl soon =
      rw (on, c.encoded, long)
        (ground (arith, cache.get-set at now ttl key c.bytes s, c.not_empty, c.decoded))

  -- After a request that the cache did not answer, the next request, if it has the same cache key
  -- and comes before the TTL is over, gets the same verdict, score and policy name, whatever else
  -- differs between the two. There is a cache, its TTL is positive, and JSON carries the decision.
  pub decide_again :
      (t t' : Times cel cache codec) (schedule schedule' : List ℕ) (req req' : RequestContext)
      (tok tok' : Bool) (ttl : ℕ) (s s' : cache.State)
      (c : Carries codec (decide_fresh cel cache codec p t.at_combine schedule req tok))
      → p.has_cache ≡ true
      → p.cache_ttl ≡ pos ttl
      → 0 < ttl
      → t'.at_get ≤ t.at_set + ttl
      → cached cel cache codec p t.at_get (key_of req tok) s ≡ (none, s')
      → key_of req tok ≡ key_of req' tok'
      → let first = decide cel cache codec p t schedule req tok s in
        let second = decide cel cache codec p t' schedule' req' tok' first.1 in
        (second.0.verdict ≡ first.0.verdict)
        × (second.0.score ≡ first.0.score)
        × (second.0.policy_name ≡ first.0.policy_name)
  decide_again t t' schedule schedule' req req' tok tok' ttl s s' c on long pos_ttl soon miss same =
      let key = key_of req tok in
      let d = decide_fresh cel cache codec p t.at_combine schedule req tok in
      let stored = remember cel cache codec p t.at_set key d s' in
      let known = cached-remember t.at_set t'.at_get ttl key d s' c on long pos_ttl soon in
      let again : (decide cel cache codec p t' schedule' req' tok' stored).0 ≡ c.back =
        decide_known t' schedule' req' tok' stored
          (subst (λ k. (cached cel cache codec p t'.at_get k stored).0 ≡ some c.back) same known) in
      rw (decide_miss t schedule req tok s s' miss, again)
        (c.same_verdict, c.same_score, c.same_policy)

module _ (cel : Cel) (cache : Cache) (codec : Codec) (p : PipelineConfig cel cache codec)
    (eval : Evaluator cel) (now : ℕ) (schedule : List ℕ) (req : RequestContext) (tok : Bool) where
  abbrev signals : List Signal
  signals = collect_parallel p.collectors schedule req

  -- What the rules are asked about the request.
  abbrev pub asked : EvaluationContext
  asked = policy_context (
      context now signals p.policy (build_request_info req) tok
        (some (eval_result cel cache codec eval)))

  eval_result_ok :
      (ec : EvalCtx) {action : Bytes} {rule : PolicyRule}
      → evaluate cel eval (policy_context ec) ≡ ok (action, some rule)
      → eval_result cel cache codec eval ec ≡ record { action = action; rule_name = rule.name }
  unfolding eval_result
  eval_result_ok ec h = rw (h, eval_result) refl

  -- A rule whose program fails switches the whole policy off for the request: the decision is the
  -- one of the bare thresholds, the policy's default and its other rules included.
  pub decide_fresh_failed :
      {e : EvalError}
      → p.evaluator ≡ some eval
      → evaluate cel eval asked ≡ err e
      → decide_fresh cel cache codec p now schedule req tok
        ≡ combine now signals p.policy (build_request_info req) tok none
  unfolding decide_fresh build_eval_fn eval_result
  decide_fresh_failed is_set f = rw is_set (
      combine_unanswered now signals p.policy (build_request_info req) tok
        (eval_result cel cache codec eval) (rw (f, eval_result) refl))

  -- With a policy that answers, a request that no token lets through gets the verdict of the answer,
  -- under the rule's name: the thresholds and the score decide nothing.
  pub decide_fresh_answered :
      {action : Bytes} {rule : PolicyRule}
      → p.evaluator ≡ some eval
      → evaluate cel eval asked ≡ ok (action, some rule)
      → is_valid_action action ≡ true
      → (tok && ltb_ℤ (total_score p.policy signals) (deny_threshold p.policy)) ≡ false
      → let d = decide_fresh cel cache codec p now schedule req tok in
        (d.verdict ≡ verdict_of action) × (d.policy_name ≡ rule.name) × (d.reasons ≡ rule.name ∷ [])
  unfolding decide_fresh build_eval_fn
  decide_fresh_answered {action} {rule} is_set f valid no_bypass =
      let fn = eval_result cel cache codec eval in
      let ctx = context now signals p.policy (build_request_info req) tok (some fn) in
      let r = eval_result_ok ctx f in
      rw is_set (
        rw r at (
          combine_answered now signals p.policy (build_request_info req) tok fn no_bypass
            (rw r (is_valid_action-ne_none action valid))))
