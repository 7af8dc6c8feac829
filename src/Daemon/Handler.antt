-- ===== src/Daemon/Handler.antt =====
-- `buildMainHandler` and `buildRequestContext` of cmd/antiscrapling/wire.go.
pub mod Forwards
pub mod Admits
use anti_scrapling.Go.{
  ℕ, ℤ, Bool, true, false, if◌then◌else◌, Option, none, some, List, [], ◌∷◌, ◌++◌, Bytes, codes,
  text_eq, split_host_port, query_escape, Result, ok, err,
}
use anti_scrapling.Types.{Verdict, allow, challenge, deny, Decision}
use anti_scrapling.Http.{HttpRequest, RequestContext, header_get}
use anti_scrapling.Policy.Evaluator.{Cel}
use anti_scrapling.Cache.{Cache}
use anti_scrapling.Pipeline.{Codec, PipelineConfig, Times, decide}
use anti_scrapling.Token.Binding.{VerifyContext, TokenClaims}
use anti_scrapling.Token.Issuer.{Jwt}
use anti_scrapling.Token.Verifier.{Verifier, TokenError, verify}
use anti_scrapling.Token.Cookie.{default_cookie_name, get_cookie}
use anti_scrapling.Daemon.{Deps}

-- The patterns of the mux.
pub data Route : Type 0 where
  challenge_page verify_solution bundle beacon service_worker site : Route

-- The handler of a path with no dot segments and no doubled slashes; others the mux redirects.
unfoldable pub route : Bytes → Route
unfolding text_eq
route path =
    if text_eq path (codes "/__as/challenge")
    then challenge_page
    else if text_eq path (codes "/__as/verify")
    then verify_solution
    else if text_eq path (codes "/__as/bundle.js")
    then bundle
    else if text_eq path (codes "/__as/beacon")
    then beacon
    else if text_eq path (codes "/__as/sw.js")
    then service_worker
    else site

unfoldable pub remote_host : HttpRequest → Bytes
unfolding split_host_port
remote_host r = elim (split_host_port r.remote_addr) [
  | none ↦ r.remote_addr
  | some (host, port) ↦ host
]

abbrev pub raw_of : Option Bytes → Bytes
raw_of none = []
raw_of (some raw) = raw

-- `capture` is the raw ClientHello that the server has captured on the connection.
unfoldable pub build_request_context : HttpRequest → Option Bytes → RequestContext
unfolding remote_host
build_request_context r capture = record {
  request = some r;
  remote_ip = remote_host r;
  client_hello = raw_of capture;
  ja3 = [];
  ja4 = [];
  headers = r.headers;
  header_order = [];
  frame_bytes = r.frame_bytes;
}

unfoldable pub verify_context : HttpRequest → RequestContext → VerifyContext
unfolding header_get
verify_context r ctx = record {
  ip = ctx.remote_ip;
  ua = header_get (codes "User-Agent") r.headers;
  ja3 = ctx.ja3;
  ja4 = ctx.ja4;
}

abbrev pub is_verified : Result TokenError TokenClaims → Bool
is_verified (ok claims) = true
is_verified (err e) = false

-- What the handler writes.
pub data Answer : Type 0 where
  forwarded no_upstream forbidden : Answer
  to_challenge : Bytes → Answer

-- The switch at the end. `uri` is `r.URL.RequestURI()`.
unfoldable pub answer_to : Bool → Bytes → Verdict → Answer
unfolding query_escape
answer_to forwards uri allow = if forwards then forwarded else no_upstream
answer_to forwards uri challenge =
    to_challenge (codes "/__as/challenge?origin=" ++ query_escape uri)
answer_to forwards uri deny = forbidden

module _ (jwt : Jwt) (unicode : Bytes → Bytes → Bool) where
  -- Whether a cookie's value verifies; an absent cookie is the empty value.
  unfoldable pub token_verifies : Verifier → ℕ → VerifyContext → Bytes → Bool
  token_verifies v now vctx [] = false
  token_verifies v now vctx (c ∷ cookie) = is_verified (verify jwt unicode v now (c ∷ cookie) vctx)

  unfoldable pub has_valid_token : Verifier → ℕ → HttpRequest → RequestContext → Bool
  unfolding token_verifies
  has_valid_token v now r ctx =
      token_verifies v now (verify_context r ctx) (get_cookie r default_cookie_name)

  module _ (cel : Cel) (cache : Cache) (codec : Codec) (parse_duration : Bytes → Option ℤ) where
    -- The decision on a request, with the cache's new state. The clock is read by the verifier
    -- first.
    unfoldable pub decide_request :
        Deps cel cache codec parse_duration
        → ℕ
        → Times cel cache codec
        → List ℕ
        → HttpRequest
        → Option Bytes
        → cache.State
        → Decision × cache.State
    decide_request d now t schedule r capture s =
        let ctx = build_request_context r capture in
        decide cel cache codec d.pl t schedule ctx (has_valid_token d.token_verifier now r ctx) s

    -- The handler of "/".
    unfoldable pub serve_site :
        Deps cel cache codec parse_duration
        → ℕ
        → Times cel cache codec
        → List ℕ
        → HttpRequest
        → Bytes
        → Option Bytes
        → cache.State
        → Answer × cache.State
    unfolding decide_request answer_to
    serve_site d now t schedule r uri capture s =
        let (decision, s') = decide_request d now t schedule r capture s in
        (answer_to d.forwards uri decision.verdict, s')
