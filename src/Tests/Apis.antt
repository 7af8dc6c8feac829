-- ===== src/Tests/Apis.antt =====
-- The daemon's construction and the decide API on concrete inputs.
use anti_scrapling.Go.{
  ◌≡◌, refl, true, false, none, some, [], ◌∷◌, codes, text_eq, lookup, store, is_ascii, ok,
  header_set, all_token_bytes, canonical_key, pos,
}
use anti_scrapling.Types.{Decision}
use anti_scrapling.Http.{HttpRequest}
use anti_scrapling.Pipeline.{decide}
use anti_scrapling.Token.Binding.{field_of}
use anti_scrapling.Token.Issuer.{IssueContext, bind_field, bind_fields, new_claims}
use anti_scrapling.Token.Issuer
use anti_scrapling.Token.RoundTrip.{issued_claims, verifier_of}
use anti_scrapling.Daemon.{World, Deps, build_deps}
use anti_scrapling.Daemon.Build.{IsWired, build_deps-loaded}
use anti_scrapling.Api.{
  DecisionRequest, synthetic_request, set_headers, request_context, has_valid_token, DecideHandler,
  with_id,
}
use anti_scrapling.Api.Tokens.{has_valid_token-other_spelling}
use anti_scrapling.Tests.Data.{cel}
use anti_scrapling.Tests.Policies.{parse_duration, unmarshal, loaded}
use anti_scrapling.Tests.Pipelines.{memory, codec, pipeline, times, quiet, tor}
use anti_scrapling.Tests.Challenges.{no_unicode, jwt, issuer, claims}
use anti_scrapling.Tests.Daemons.{app}

abbrev world : World
world = record {
  load_key = some;
  opens_cache = true;
  opens_challenges = true;
  is_target = λ target. true;
  tls = quiet;
  headers = quiet;
  ip = some tor;
  http2 = quiet;
  behavior = quiet;
}

build_deps-loaded_example :
    (d : Deps cel memory codec parse_duration) × (build_deps cel memory codec parse_duration world
        app
      ≡ ok d)
    × IsWired cel memory codec parse_duration d
build_deps-loaded_example =
    build_deps-loaded cel memory codec parse_duration unmarshal (some (codes "yaml")) world app
      (codes "key") tor true loaded refl refl refl refl refl

abbrev asked : DecisionRequest
asked = record {
  method = [];
  path = codes "/a";
  host = codes "h";
  remote_ip = codes "10.0.0.1";
  headers = (codes "user-agent", codes "ff") ∷ [];
  header_order = [];
  ja3 = [];
  ja4 = [];
  token = codes "k";
}

abbrev handler : DecideHandler jwt no_unicode cel memory codec some
handler = record { pipeline = pipeline []; verifier = some (verifier_of issuer) }

abbrev made : HttpRequest
made = record {
  method = codes "GET";
  host = codes "h";
  remote_addr = [];
  headers = (codes "User-Agent", codes "ff" ∷ []) ∷ [];
  path = some (codes "/a");
  proto_major = 1;
  proto_minor = 1;
  frame_bytes = none;
}

made_of : synthetic_request some asked ≡ ok made
unfolding synthetic_request set_headers header_set canonical_key store text_eq all_token_bytes
made_of = refl

abbrev found : Decision
found =
    (decide cel memory codec handler.pipeline (times 30) (1 ∷ 0 ∷ []) (request_context asked made)
      (has_valid_token jwt no_unicode handler.verifier 30 asked) []).0

abbrev answered : Decision
answered = with_id (codes "id") 9 found

abbrev earned : IssueContext
earned = record {
  fingerprint_hash = codes "a";
  ip = codes "10.0.0.1";
  ua = codes "ff";
  ja3 = [];
  ja4 = [];
  score = pos 5;
}

carried : issued_claims jwt issuer 20 earned ≡ claims
unfolding new_claims bind_fields bind_field field_of text_eq
carried = refl

signed : Issuer.issue jwt issuer 20 earned ≡ some asked.token
unfolding Issuer.issue
signed = refl

ascii : is_ascii earned.ua ≡ true
unfolding is_ascii
ascii = refl

unnamed : lookup (codes "User-Agent") asked.headers ≡ none
unfolding lookup text_eq
unnamed = refl

has_valid_token-other_spelling_example :
    has_valid_token jwt no_unicode (some (verifier_of issuer)) 30 asked ≡ false
has_valid_token-other_spelling_example =
    has_valid_token-other_spelling jwt no_unicode issuer 20 30 earned asked refl signed carried
      (λ e. cc) ascii unnamed
