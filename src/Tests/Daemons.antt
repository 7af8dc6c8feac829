-- ===== src/Tests/Daemons.antt =====
-- The daemon's handlers and the decide API on concrete requests.
use anti_scrapling.Go.{
  ◌≡◌, ◌↔◌, refl, Bool, true, none, some, [], ◌∷◌, ◌++◌, Bytes, codes, join, text_eq, lookup, ◌<ℤ◌,
  add64, wrap64, ◌+ℤ◌, arith, is_ascii, split_host_port, last_colon, before_bracket, has_byte,
  query_unescape, query_escape,
}
use anti_scrapling.Types.{challenge, deny}
use anti_scrapling.Http.{HttpRequest, user_agent, header_get}
use anti_scrapling.Decision.{weigh, reweight, sum_scores, clamp, deny_threshold}
use anti_scrapling.Decision.Score.{total_score}
use anti_scrapling.Pipeline.{cached}
use anti_scrapling.Pipeline.Collect.{
  collect_parallel, write_slots, write_slot, empty_slots, concat_slots,
}
use anti_scrapling.Pipeline.Decide.{key_of}
use anti_scrapling.Cache.Memory.{memory_get}
use anti_scrapling.Challenge.Service.{client_ip}
use anti_scrapling.Token.Binding.{equal_fold}
use anti_scrapling.Token.RoundTrip.{verifier_of}
use anti_scrapling.Token.Cookie.{default_cookie_name}
use anti_scrapling.Token.Cookie.Carried.{cookie_line}
use anti_scrapling.Daemon.{AppConfig, Deps}
use anti_scrapling.Daemon.Build.{IsWired}
use anti_scrapling.Daemon.Handler.{
  forwarded, forbidden, to_challenge, answer_to, build_request_context, decide_request, serve_site,
}
use anti_scrapling.Daemon.Handler.Admits.{pass-forwarded}
use anti_scrapling.Daemon.Handler.Forwards.{
  LetsThrough, serve_site-forwarded_iff, serve_site-refused_iff,
}
use anti_scrapling.Tests.Data.{cel, config}
use anti_scrapling.Tests.Policies.{parse_duration}
use anti_scrapling.Tests.Pipelines.{memory, codec, pipeline, times}
use anti_scrapling.Tests.Challenges.{lru, ids, digest, no_unicode, jwt, issuer}
use anti_scrapling.Tests.Passes.{
  post, solved, scored, service, granted, signals, pass_carried, pass_young,
}

abbrev pub app : AppConfig
app = record {
  policy = config;
  policy_path = codes "policy.yaml";
  bind = codes ":8080";
  target = codes "http://up";
  key_file = codes "key";
}

abbrev site : Deps cel memory codec parse_duration
site = record {
  cfg = app;
  token_issuer = issuer;
  token_verifier = verifier_of issuer;
  pl = pipeline [];
  challenge_svc = service;
  forwards = true;
}

site-IsWired : IsWired cel memory codec parse_duration site
unfolding deny_threshold
site-IsWired = record {
  verifies = refl;
  same_issuer = refl;
  one_threshold = refl;
  has_policy = refl;
  has_cache = refl;
  keeps = omega arith;
}

abbrev visit : HttpRequest
visit = record {
  method = codes "GET";
  host = codes "h";
  remote_addr = codes "10.0.0.1:81";
  headers =
      (codes "User-Agent", codes "FF" ∷ []) ∷ (codes "Cookie", codes "__as_pass=k; b=1" ∷ []) ∷ [];
  path = some (codes "/");
  proto_major = 1;
  proto_minor = 1;
  frame_bytes = none;
}

sent :
    lookup (codes "Cookie") visit.headers
    ≡ some (cookie_line ((default_cookie_name, codes "k") ∷ (codes "b", codes "1") ∷ []) ∷ [])
unfolding lookup text_eq join
sent = refl

missed :
    (t : Bool)
    → cached cel memory codec site.pl 30
        (key_of cel memory codec site.pl (build_request_context visit none) t)
        []
      ≡ (none, [])
unfolding cached memory_get lookup
missed t = refl

below :
    total_score
      (some config)
      (collect_parallel site.pl.collectors (1 ∷ 0 ∷ []) (build_request_context visit none))
    <ℤ deny_threshold (some config)
unfolding collect_parallel write_slots write_slot empty_slots concat_slots weigh reweight sum_scores
    add64 wrap64 ◌+ℤ◌ clamp deny_threshold lookup text_eq
below = omega arith

same_ip : client_ip post ≡ client_ip visit
unfolding client_ip split_host_port last_colon before_bracket has_byte
same_ip = refl

same_ua : equal_fold no_unicode (user_agent post) (user_agent visit) ≡ true
unfolding equal_fold user_agent header_get lookup text_eq is_ascii
same_ua = refl

pass-forwarded_example :
    (serve_site jwt no_unicode cel memory codec parse_duration site 30
      (times 30)
      (1 ∷ 0 ∷ [])
      visit
      (codes "/")
      none
      []).0
    ≡ forwarded
pass-forwarded_example =
    pass-forwarded lru jwt digest scored no_unicode cel memory codec parse_duration site 20 30 post
      visit solved ids (codes "/") (codes "k") signals ((codes "b", codes "1") ∷ []) (times 30)
      (1 ∷ 0 ∷ []) (codes "/") none [] [] site-IsWired refl refl refl granted pass_carried
      pass_young (λ e. cc) (omega arith) (omega arith) sent same_ip same_ua (missed true) below

serve_site-forwarded_iff_example :
    ((serve_site jwt no_unicode cel memory codec parse_duration site 30
        (times 30)
        (1 ∷ 0 ∷ [])
        visit
        (codes "/")
        none
        []).0
      ≡ forwarded)
    ↔ ((true ≡ true)
        × LetsThrough jwt no_unicode cel memory codec parse_duration site 30
            (times 30)
            (1 ∷ 0 ∷ [])
            visit
            (codes "/")
            none
            []
            [])
serve_site-forwarded_iff_example =
    serve_site-forwarded_iff jwt no_unicode cel memory codec parse_duration site 30 (times 30)
      (1 ∷ 0 ∷ []) visit (codes "/") none [] [] (missed _)

sent_to :
    answer_to true (codes "/a?b=c&d") challenge
    ≡ to_challenge (codes "/__as/challenge?origin=%2Fa%3Fb%3Dc%26d")
unfolding answer_to query_escape
sent_to = refl

serve_site-refused_iff_example :
    let decision =
      (decide_request jwt no_unicode cel memory codec parse_duration site 30
        (times 30)
        (1 ∷ 0 ∷ [])
        visit
        none
        []).0 in
    let answer =
      (serve_site jwt no_unicode cel memory codec parse_duration site 30
        (times 30)
        (1 ∷ 0 ∷ [])
        visit
        (codes "/a?b=c&d")
        none
        []).0 in
    ((decision.verdict ≡ challenge) ↔ (
      (origin : Bytes) × (answer ≡ to_challenge (codes "/__as/challenge?origin=" ++ origin))
      × (query_unescape origin ≡ some (codes "/a?b=c&d"))))
    × ((decision.verdict ≡ deny) ↔ (answer ≡ forbidden))
serve_site-refused_iff_example =
    serve_site-refused_iff jwt no_unicode cel memory codec parse_duration site 30 (times 30)
      (1 ∷ 0 ∷ []) visit (codes "/a?b=c&d") none [] (omega arith)
