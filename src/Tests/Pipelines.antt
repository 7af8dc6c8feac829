-- ===== src/Tests/Pipelines.antt =====
-- Requests through the pipeline.
use anti_scrapling.Go.{
  hex, ℕ, ◌+◌, ◌%◌, ◌≡◌, ◌<◌, refl, true, false, Option, none, some, List, [], ◌∷◌, take, Bytes,
  codes, text_eq, lookup, add64, pos, arith,
}
use anti_scrapling.Types.{allow, challenge, deny, Decision}
use anti_scrapling.Http.{RequestContext, header_get, user_agent}
use anti_scrapling.Cache.{Cache}
use anti_scrapling.Cache.Memory.{Entry, memory_cache, memory_get}
use anti_scrapling.Lru.Bounded.{bounded}
use anti_scrapling.Decision.{
  combine, weigh, reweight, sum_scores, clamp, deny_threshold, challenge_threshold, settle,
  policy_answer, eval_decision,
}
use anti_scrapling.Policy.Evaluator.{
  Evaluator, CompiledRule, evaluate, evaluate_rules, answer, build_activation, eval_failed,
}
use anti_scrapling.Pipeline.Collect.{
  Collector, collect_parallel, write_slots, write_slot, empty_slots, concat_slots,
}
use anti_scrapling.Pipeline.Collect.Schedule.{collect_parallel_any_order, in_turn, contains}
use anti_scrapling.Pipeline.Key.{
  compute_cache_key, raw_key_of, raw_key, request_user_agent, request_path,
}
use anti_scrapling.Pipeline.Key.Injective.{compute_cache_key-injective, AreBytes}
use anti_scrapling.Pipeline.{
  Codec, PipelineConfig, Times, cached, decide, decide_fresh, build_request_info, build_eval_fn,
  eval_result, policy_context,
}
use anti_scrapling.Pipeline.Decide.{Carries, key_of, decide_again, decide_fresh_failed}
use anti_scrapling.Tests.Data.{signal, cel, config, rule, request}

abbrev pub tor : Collector
tor = record { name = codes "ip"; collect = λ req. signal (codes "tor_exit") (pos 10) ∷ [] }

abbrev pub quiet : Collector
quiet = record { name = codes "tls"; collect = λ req. [] }

covered : (j : ℕ) → j < 2 → contains (1 ∷ 0 ∷ []) j ≡ true
covered j h = ground arith

collect_parallel_any_order_example :
    collect_parallel (quiet ∷ tor ∷ []) (1 ∷ 0 ∷ []) (request (codes "GET"))
    ≡ concat_slots (in_turn (request (codes "GET")) (quiet ∷ tor ∷ []))
collect_parallel_any_order_example =
    collect_parallel_any_order (request (codes "GET")) (quiet ∷ tor ∷ []) (1 ∷ 0 ∷ []) covered

-- A digest that keeps the first bytes of its input, each within a byte.
abbrev pub digest : Bytes → Bytes
digest [] = []
digest (b ∷ bs) = (b % 256) ∷ digest bs

digest-AreBytes : (a : Bytes) → AreBytes (digest a)
digest-AreBytes [] = tt
digest-AreBytes (b ∷ bs) = (omega arith, digest-AreBytes bs)

abbrev post : RequestContext
post = request (codes "POST")

abbrev got : RequestContext
got = request (codes "GET")

-- The method is no part of the key.
same_key : compute_cache_key digest got false ≡ compute_cache_key digest post false
unfolding compute_cache_key raw_key_of raw_key request_user_agent request_path user_agent header_get
    lookup hex
same_key = refl

same_raw : raw_key_of digest got false ≡ raw_key_of digest post false
unfolding raw_key_of raw_key request_user_agent request_path user_agent header_get lookup hex
same_raw = refl

compute_cache_key-injective_example :
    (got.remote_ip ≡ post.remote_ip)
    × (got.ja3 ≡ post.ja3)
    × (take 8 (digest (request_user_agent got)) ≡ take 8 (digest (request_user_agent post)))
    × (request_path got ≡ request_path post)
    × (false ≡ false)
compute_cache_key-injective_example =
    compute_cache_key-injective digest digest-AreBytes got post false false
      (omega arith, omega arith) (tt, tt) (λ e. same_raw) same_key

abbrev pub fixed : Decision
fixed = record {
  verdict = deny;
  score = pos 50;
  signals = [];
  reasons = [];
  policy_name = codes "all";
  timestamp = 0;
  request_id = [];
}

-- JSON that carries any decision as one byte for the verdict.
abbrev pub encode : Decision → Option Bytes
encode d = some (elim d.verdict [ allow ↦ 0 | challenge ↦ 1 | deny ↦ 2 ] ∷ [])

abbrev pub decode : Bytes → Option Decision
decode b = some fixed

abbrev pub codec : Codec
codec = record { encode = encode; decode = decode; sha256 = digest }

abbrev pub memory : Cache
memory = memory_cache (bounded Entry 3)

abbrev pub compiled : List (CompiledRule cel) → Evaluator cel
compiled rs = record { config = config; rules = rs }

abbrev deny_all : CompiledRule cel
deny_all = record { rule = rule (codes "all") [] (codes "deny"); program = codes "true" }

abbrev broken : CompiledRule cel
broken = record {
  rule = rule (codes "broken") [] (codes "allow");
  program = codes "signals['x'] > 0";
}

abbrev pub pipeline : List (CompiledRule cel) → PipelineConfig cel memory codec
pipeline rs = record {
  collectors = quiet ∷ tor ∷ [];
  evaluator = some (compiled rs);
  has_cache = true;
  cache_ttl = pos 60;
  policy = some config;
}

abbrev pub times : ℕ → Times cel memory codec
times n = record { at_get = n; at_combine = n + 1; at_set = n + 2 }

abbrev first : Decision
first = decide_fresh cel memory codec (pipeline (deny_all ∷ [])) 1 (1 ∷ 0 ∷ []) got false

first-Carries : Carries codec first
unfolding decide_fresh combine weigh reweight sum_scores add64 clamp deny_threshold
    challenge_threshold settle policy_answer eval_decision build_eval_fn eval_result evaluate
    evaluate_rules answer build_activation policy_context collect_parallel write_slots write_slot
    empty_slots concat_slots lookup text_eq
first-Carries = record {
  bytes = 2 ∷ [];
  back = fixed;
  encoded = refl;
  not_empty = omega arith;
  decoded = refl;
  same_verdict = refl;
  same_score = refl;
  same_policy = refl;
}

missed :
    cached cel memory codec
      (pipeline (deny_all ∷ []))
      0
      (key_of cel memory codec (pipeline (deny_all ∷ [])) got false)
      []
    ≡ (none, [])
unfolding cached memory_get lookup
missed = refl

decide_again_example :
    let p = pipeline (deny_all ∷ []) in
    let d = decide cel memory codec p (times 0) (1 ∷ 0 ∷ []) got false [] in
    let e = decide cel memory codec p (times 62) [] post false d.1 in
    (e.0.verdict ≡ d.0.verdict) × (e.0.score ≡ d.0.score) × (e.0.policy_name ≡ d.0.policy_name)
decide_again_example =
    decide_again cel memory codec (pipeline (deny_all ∷ [])) (times 0) (times 62) (1 ∷ 0 ∷ []) []
      got post false false 60 [] [] first-Carries refl refl (omega arith) (omega arith) missed
      same_key

decide_fresh_failed_example :
    decide_fresh cel memory codec (pipeline (broken ∷ deny_all ∷ [])) 1 (1 ∷ 0 ∷ []) got false
    ≡ combine 1
        (collect_parallel (quiet ∷ tor ∷ []) (1 ∷ 0 ∷ []) got)
        (some config)
        (build_request_info got)
        false
        none
unfolding evaluate evaluate_rules answer text_eq
decide_fresh_failed_example =
    decide_fresh_failed cel memory codec (pipeline (broken ∷ deny_all ∷ []))
      (compiled (broken ∷ deny_all ∷ [])) 1 (1 ∷ 0 ∷ []) got false
      {e = eval_failed (codes "broken")} refl refl
