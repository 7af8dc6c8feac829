-- ===== src/Daemon/Handler/Forwards.antt =====
-- When the daemon lets a request through to the site, and where it sends one that is challenged.
use anti_scrapling.Go.{
  ℕ, ◌<◌, ◌≡◌, ◌↔◌, ◌⊎◌, refl, ap, ◌∙◌, sym, Bool, true, false, Option, none, some, List, ◌++◌, All,
  Bytes, codes, ℤ, query_escape, query_unescape, query_unescape-query_escape,
}
use anti_scrapling.Types.{Verdict, allow, challenge, deny, Signal}
use anti_scrapling.Http.{HttpRequest, RequestContext}
use anti_scrapling.Decision.{combine, deny_threshold, challenge_threshold, policy_answer}
use anti_scrapling.Decision.Score.{total_score}
use anti_scrapling.Decision.Order.{Bypasses, Settled, context, combine-allow_iff}
use anti_scrapling.Policy.Evaluator.{Cel}
use anti_scrapling.Cache.{Cache}
use anti_scrapling.Pipeline.{Codec, Times, cached, decide_fresh, build_eval_fn, build_request_info}
use anti_scrapling.Pipeline.Collect.{collect_parallel}
use anti_scrapling.Pipeline.Decide.{key_of, decide_miss}
use anti_scrapling.Token.Issuer.{Jwt}
use anti_scrapling.Daemon.{Deps}
use anti_scrapling.Daemon.Handler.{
  forwarded, forbidden, to_challenge, answer_to, build_request_context, has_valid_token,
  decide_request, serve_site,
}

answer_to-forwarded_iff :
    (forwards : Bool) (uri : Bytes) (v : Verdict)
    → (answer_to forwards uri v ≡ forwarded) ↔ ((forwards ≡ true) × (v ≡ allow))
unfolding answer_to
answer_to-forwarded_iff true uri allow = (λ h. (refl, refl), λ h. refl)
answer_to-forwarded_iff false uri allow = (λ h. cc, λ h. cc)
answer_to-forwarded_iff f uri challenge = (λ h. cc, λ h. cc)
answer_to-forwarded_iff f uri deny = (λ h. cc, λ h. cc)

module _ (jwt : Jwt) (unicode : Bytes → Bytes → Bool) (cel : Cel) (cache : Cache) (codec : Codec)
    (parse_duration : Bytes → Option ℤ) (d : Deps cel cache codec parse_duration) (now : ℕ)
    (t : Times cel cache codec) (schedule : List ℕ) (r : HttpRequest) (uri : Bytes)
    (capture : Option Bytes) (s s' : cache.State) where
  -- What the pipeline is given on the request.
  abbrev pub ctx : RequestContext
  ctx = build_request_context r capture

  abbrev pub tok : Bool
  tok = has_valid_token jwt unicode d.token_verifier now r ctx

  abbrev pub signals : List Signal
  signals = collect_parallel d.pl.collectors schedule ctx

  -- A valid token below the deny threshold, a policy that allows, or no answer of the policy and
  -- a score below both thresholds.
  abbrev pub LetsThrough : Type 0
  LetsThrough =
      Bypasses t.at_combine signals d.pl.policy (build_request_info ctx) tok
        (build_eval_fn cel cache codec d.pl.evaluator)
      ⊎ Settled (deny_threshold d.pl.policy) (challenge_threshold d.pl.policy)
          (total_score d.pl.policy signals)
          (policy_answer (build_eval_fn cel cache codec d.pl.evaluator) (
            context t.at_combine signals d.pl.policy (build_request_info ctx) tok
              (build_eval_fn cel cache codec d.pl.evaluator)))

  -- A request that the cache does not answer reaches the site exactly if there is one and the
  -- request has a pass cookie that verifies and a score below the deny threshold, or the policy
  -- answers "allow", or the policy has no answer and the score is below both thresholds.
  pub serve_site-forwarded_iff :
      cached cel cache codec d.pl t.at_get (key_of cel cache codec d.pl ctx tok) s ≡ (none, s')
      → ((serve_site jwt unicode cel cache codec parse_duration d now t schedule r uri capture s).0
          ≡ forwarded)
        ↔ ((d.forwards ≡ true) × LetsThrough)
  unfolding serve_site decide_request decide_fresh
  serve_site-forwarded_iff miss =
      let missed = decide_miss cel cache codec d.pl t schedule ctx tok s s' miss in
      let fn = build_eval_fn cel cache codec d.pl.evaluator in
      let info = build_request_info ctx in
      let verdict = (combine t.at_combine signals d.pl.policy info tok fn).verdict in
      let answered = answer_to-forwarded_iff d.forwards uri verdict in
      let allowed = combine-allow_iff t.at_combine signals d.pl.policy info tok fn in
      let same : (serve_site jwt unicode cel cache codec parse_duration d now t schedule r uri
            capture s).0
          ≡ answer_to d.forwards uri verdict =
        ap (λ p. answer_to d.forwards uri p.0.verdict) missed in
      (
        λ h. let (on, v) = answered.0 (sym same ∙ h) in (on, allowed.0 v),
        λ h. same ∙ answered.1 (h.0, allowed.1 h.1),
      )

answer_to-challenged_iff :
    (forwards : Bool) (uri : Bytes) (v : Verdict)
    → All (λ c. c < 256) uri
    → (v ≡ challenge) ↔ (
        (origin : Bytes) × (answer_to forwards uri v
          ≡ to_challenge (codes "/__as/challenge?origin=" ++ origin))
        × (query_unescape origin ≡ some uri))
unfolding answer_to
answer_to-challenged_iff true uri allow h = (λ e. cc, λ (origin, e, u). cc)
answer_to-challenged_iff false uri allow h = (λ e. cc, λ (origin, e, u). cc)
answer_to-challenged_iff f uri deny h = (λ e. cc, λ (origin, e, u). cc)
answer_to-challenged_iff f uri challenge h =
    (λ e. (query_escape uri, refl, query_unescape-query_escape uri h), λ q. refl)

answer_to-forbidden_iff :
    (forwards : Bool) (uri : Bytes) (v : Verdict)
    → (v ≡ deny) ↔ (answer_to forwards uri v ≡ forbidden)
unfolding answer_to
answer_to-forbidden_iff true uri allow = (λ e. cc, λ e. cc)
answer_to-forbidden_iff false uri allow = (λ e. cc, λ e. cc)
answer_to-forbidden_iff f uri challenge = (λ e. cc, λ e. cc)
answer_to-forbidden_iff f uri deny = (λ e. refl, λ e. refl)

-- The site's handler sends a client to the challenge page exactly if the pipeline's verdict is to
-- challenge, and then with an origin in the query that unescapes to the URI of the request; it
-- forbids the request exactly if the verdict is to deny.
pub serve_site-refused_iff :
    (jwt : Jwt) (unicode : Bytes → Bytes → Bool) (cel : Cel) (cache : Cache) (codec : Codec)
    (parse_duration : Bytes → Option ℤ) (d : Deps cel cache codec parse_duration) (now : ℕ)
    (t : Times cel cache codec) (schedule : List ℕ) (r : HttpRequest) (uri : Bytes)
    (capture : Option Bytes) (s : cache.State)
    → All (λ c. c < 256) uri
    → let decision =
        (decide_request jwt unicode cel cache codec parse_duration d now t schedule r capture
          s).0 in
      let answer =
        (serve_site jwt unicode cel cache codec parse_duration d now t schedule r uri capture
          s).0 in
      ((decision.verdict ≡ challenge) ↔ (
        (origin : Bytes) × (answer ≡ to_challenge (codes "/__as/challenge?origin=" ++ origin))
        × (query_unescape origin ≡ some uri)))
      × ((decision.verdict ≡ deny) ↔ (answer ≡ forbidden))
unfolding serve_site
serve_site-refused_iff jwt unicode cel cache codec parse_duration d now t schedule r uri capture s
      h =
    let decision =
      (decide_request jwt unicode cel cache codec parse_duration d now t schedule r capture s).0 in
    (
      answer_to-challenged_iff d.forwards uri decision.verdict h,
      answer_to-forbidden_iff d.forwards uri decision.verdict,
    )
