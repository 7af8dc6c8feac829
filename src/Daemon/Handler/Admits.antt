-- ===== src/Daemon/Handler/Admits.antt =====
-- A client that has solved the challenge gets through: HandleVerify's pass at the handler of "/".
use mathlib.Core.Path.{subst}
use anti_scrapling.Go.{
  all_token_bytes, is_token_byte, if◌then◌else◌, [], ℕ, ◌<◌, ◌≡◌, ◌≢◌, refl, ap, ◌∙◌, sym, inl,
  Bool, true, Option, none, some, List, [], ◌∷◌, All, Assoc, Bytes, Lacks, codes, lookup, text_eq,
  ℤ, pos, ◌<ℤ◌, arith, ok,
}
use anti_scrapling.Types.{Signal}
use anti_scrapling.Http.{HttpRequest, user_agent}
use anti_scrapling.Lru.{Lru}
use anti_scrapling.Decision.{deny_threshold}
use anti_scrapling.Decision.Score.{total_score}
use anti_scrapling.Policy.Evaluator.{Cel}
use anti_scrapling.Cache.{Cache}
use anti_scrapling.Pipeline.{Codec, Times, cached}
use anti_scrapling.Pipeline.Collect.{collect_parallel}
use anti_scrapling.Pipeline.Decide.{key_of}
use anti_scrapling.Token.Binding.{TokenClaims, VerifyContext, equal_fold}
use anti_scrapling.Token.Issuer.{Jwt}
use anti_scrapling.Token.Verifier.{Verifier, verify}
use anti_scrapling.Token.RoundTrip.{issued_claims, verifier_of}
use anti_scrapling.Token.Cookie.{default_cookie_name, value_part, is_token, get_cookie}
use anti_scrapling.Token.Cookie.Carried.{IsPlain, IsCookie, cookie_line, get_cookie-cookie_line}
use anti_scrapling.Challenge.Service.{
  VerifyRequest, Service, redirect, total_of, issue_context, client_ip, handle_verify,
}
use anti_scrapling.Challenge.Service.Pass.{default_bind_to, pass-accepted_iff}
use anti_scrapling.Daemon.{Deps}
use anti_scrapling.Daemon.Build.{IsWired}
use anti_scrapling.Daemon.Handler.{
  forwarded, build_request_context, verify_context, remote_host, token_verifies, has_valid_token,
  serve_site,
}
use anti_scrapling.Daemon.Handler.Forwards.{signals, serve_site-forwarded_iff}

-- How a request looks to the verifier.
looks :
    (r : HttpRequest) (capture : Option Bytes)
    → let current = verify_context r (build_request_context r capture) in
      (client_ip r ≡ current.ip) × (user_agent r ≡ current.ua) × (current.ja3 ≡ [])
unfolding verify_context build_request_context remote_host client_ip user_agent
looks r capture = (refl, refl, refl)

-- What JSON has to carry for a pass.
abbrev pub pass_claims_at : Jwt → Service → ℕ → HttpRequest → Bytes → List Signal → TokenClaims
pass_claims_at jwt s now r id signals =
    issued_claims jwt s.token_issuer now (issue_context r id (total_of (pos 0) signals))

pass-IsPlain : All IsPlain default_cookie_name
pass-IsPlain = omega arith

pass_has_no_equals : Lacks b'=' default_cookie_name
pass_has_no_equals = omega arith

first :
    (token : Bytes) (cookies : Assoc Bytes)
    → (if is_token default_cookie_name
        then value_part (lookup default_cookie_name ((default_cookie_name, token) ∷ cookies))
        else [])
      ≡ token
unfolding lookup text_eq is_token all_token_bytes is_token_byte
first token cookies = refl

module _ (jwt : Jwt) (unicode : Bytes → Bytes → Bool) where
  token_verifies_ok :
      (v : Verifier) (now : ℕ) (current : VerifyContext) (token : Bytes) {claims : TokenClaims}
      → token ≢ []
      → verify jwt unicode v now token current ≡ ok claims
      → token_verifies jwt unicode v now current token ≡ true
  unfolding token_verifies
  token_verifies_ok v now current [] full h = absurd (full refl)
  token_verifies_ok v now current (c ∷ token) full h = rw h

module _ {R : Type 0} (lru : Lru ℕ) (jwt : Jwt) (sha256 : Bytes → Bytes)
    (score : R → Option (List Signal)) (unicode : Bytes → Bytes → Bool) (cel : Cel) (cache : Cache)
    (codec : Codec) (parse_duration : Bytes → Option ℤ) where
  open lru use {State}

  -- The pass cookie verifies at the handler.
  has_pass :
      (d : Deps cel cache codec parse_duration) (now later : ℕ) (solver r : HttpRequest)
      (req : VerifyRequest R) (ids : State) (target token : Bytes) (found : List Signal)
      (cookies : Assoc Bytes) (capture : Option Bytes)
      → IsWired cel cache codec parse_duration d
      → d.challenge_svc.token_issuer.bind_to ≡ default_bind_to
      → score req.fingerprint_report ≡ some found
      → (handle_verify lru jwt sha256 score d.challenge_svc now solver (some req) ids).0
        ≡ redirect target token
      → jwt.Carries (pass_claims_at jwt d.challenge_svc now solver req.challenge_id found)
      → later < (pass_claims_at jwt d.challenge_svc now solver req.challenge_id found).expires_at
      → token ≢ []
      → All IsPlain token
      → All IsCookie cookies
      → lookup (codes "Cookie") r.headers
        ≡ some (cookie_line ((default_cookie_name, token) ∷ cookies) ∷ [])
      → client_ip solver ≡ client_ip r
      → equal_fold unicode (user_agent solver) (user_agent r) ≡ true
      → has_valid_token jwt unicode d.token_verifier later r (build_request_context r capture)
        ≡ true
  unfolding has_valid_token
  has_pass d now later solver r req ids target token found cookies capture wired bind e granted
        carries young full plain others sent ip ua =
      let current = verify_context r (build_request_context r capture) in
      let issuer = d.challenge_svc.token_issuer in
      let claims = pass_claims_at jwt d.challenge_svc now solver req.challenge_id found in
      let accepted =
        pass-accepted_iff lru jwt sha256 score unicode d.challenge_svc now later solver req ids
          target token found current bind e granted carries young in
      let (same_ip, same_ua, no_ja3) = looks r capture in
      let by_issuer = accepted.1 (
        ip ∙ same_ip,
        subst (λ t. equal_fold unicode (user_agent solver) t ≡ true) same_ua ua,
        no_ja3,
      ) in
      let by_verifier : verify jwt unicode d.token_verifier later token current ≡ ok claims =
        subst (λ v. verify jwt unicode v later token current ≡ ok claims)
          (ap verifier_of wired.same_issuer ∙ sym wired.verifies) by_issuer in
      let held : get_cookie r default_cookie_name ≡ token =
        get_cookie-cookie_line r default_cookie_name (default_cookie_name, token) cookies
          ((pass-IsPlain, pass_has_no_equals, plain), others) sent
        ∙ first token cookies in
      ap (token_verifies jwt unicode d.token_verifier later current) held
      ∙ token_verifies_ok jwt unicode d.token_verifier later current token full by_verifier

  -- A client that HandleVerify has granted a pass reaches the site, if tokens are bound to address,
  -- User-Agent and JA3: its later request, which carries the pass cookie before it expires and
  -- comes from the same address with the same User-Agent up to case, is forwarded, if the daemon
  -- has a site, the cache does not answer, and the request scores below the deny threshold. The
  -- rules of the policy are not asked. JSON carries the pass's claims, and the cookies are visible
  -- ASCII.
  pub pass-forwarded :
      (d : Deps cel cache codec parse_duration) (now later : ℕ) (solver r : HttpRequest)
      (req : VerifyRequest R) (ids : State) (target token : Bytes) (found : List Signal)
      (cookies : Assoc Bytes) (t : Times cel cache codec) (schedule : List ℕ) (uri : Bytes)
      (capture : Option Bytes) (s s' : cache.State)
      → IsWired cel cache codec parse_duration d
      → d.forwards ≡ true
      → d.challenge_svc.token_issuer.bind_to ≡ default_bind_to
      → score req.fingerprint_report ≡ some found
      → (handle_verify lru jwt sha256 score d.challenge_svc now solver (some req) ids).0
        ≡ redirect target token
      → jwt.Carries (pass_claims_at jwt d.challenge_svc now solver req.challenge_id found)
      → later < (pass_claims_at jwt d.challenge_svc now solver req.challenge_id found).expires_at
      → token ≢ []
      → All IsPlain token
      → All IsCookie cookies
      → lookup (codes "Cookie") r.headers
        ≡ some (cookie_line ((default_cookie_name, token) ∷ cookies) ∷ [])
      → client_ip solver ≡ client_ip r
      → equal_fold unicode (user_agent solver) (user_agent r) ≡ true
      → cached cel cache codec d.pl t.at_get
          (key_of cel cache codec d.pl (build_request_context r capture) true)
          s
        ≡ (none, s')
      → total_score d.pl.policy
          (collect_parallel d.pl.collectors schedule (build_request_context r capture))
        <ℤ deny_threshold d.pl.policy
      → (serve_site jwt unicode cel cache codec parse_duration d later t schedule r uri capture s).0
        ≡ forwarded
  pass-forwarded d now later solver r req ids target token found cookies t schedule uri capture s s'
        wired on bind e granted carries young full plain others sent ip ua miss below =
      let pass =
        has_pass d now later solver r req ids target token found cookies capture wired bind e
          granted carries young full plain others sent ip ua in
      (serve_site-forwarded_iff jwt unicode cel cache codec parse_duration d later t schedule r uri
          capture s s'
          (subst
            (λ b.
              cached cel cache codec d.pl t.at_get
                (key_of cel cache codec d.pl (build_request_context r capture) b) s
              ≡ (none, s'))
            (sym pass) miss)).1
        (on, inl (pass, below))
