-- ===== src/Tests/Passes.antt =====
-- `HandleVerify` and the pass that it grants on concrete requests.
use anti_scrapling.Go.{
  ℕ, ◌+◌, ◌≤◌, ◌<◌, ◌≡◌, ◌↔◌, refl, true, Option, none, some, List, [], ◌∷◌, codes, text_eq, ok,
  pos, arith, add64, wrap64, ◌+ℤ◌, ◌<ℤ◌, lookup, delete, split_host_port, last_colon,
  before_bracket, has_byte,
}
use anti_scrapling.Types.{Signal}
use anti_scrapling.Http.{HttpRequest, user_agent, header_get}
use anti_scrapling.Challenge.Issuer.{validate_challenge_id, challenge_ttl}
use anti_scrapling.Challenge.Pow.{leading_zeros8, leading_zero_bits, verify_pow}
use anti_scrapling.Challenge.Service.{
  VerifyRequest, Service, redirect, total_of, issue_context, client_ip, target_of, grant,
  check_solution, handle_verify,
}
use anti_scrapling.Challenge.Service.Granted.{handle_verify-redirect}
use anti_scrapling.Challenge.Service.Pass.{pass-accepted_iff}
use anti_scrapling.Token.Binding.{equal_fold, field_of}
use anti_scrapling.Token.Issuer.{Jwt, Issuer, IssueContext, bind_field, bind_fields, new_claims}
use anti_scrapling.Token.Issuer
use anti_scrapling.Token.Verifier.{verify}
use anti_scrapling.Token.RoundTrip.{issued_claims, verifier_of}
use anti_scrapling.Tests.Challenges.{lru, ids, digest, no_unicode, claims, jwt, issuer, current}

abbrev pub post : HttpRequest
post = record {
  method = codes "POST";
  host = codes "h";
  remote_addr = codes "10.0.0.1:80";
  headers = (codes "User-Agent", codes "ff" ∷ []) ∷ [];
  path = some (codes "/v");
  proto_major = 1;
  proto_minor = 1;
  frame_bytes = none;
}

abbrev pub solved : VerifyRequest ℕ
solved = record {
  pow_solution = codes "s";
  fingerprint_report = 0;
  challenge_id = codes "a";
  origin_url = [];
}

abbrev pub scored : ℕ → Option (List Signal)
scored n =
    some (record { name = codes "webdriver"; score = pos 5; reason = codes "w"; detail = [] } ∷ [])

abbrev pub service : Service
service = record { pow_difficulty = pos 12; token_issuer = issuer; deny_threshold = pos 80 }

pub granted :
    (handle_verify lru jwt digest scored service 20 post (some solved) ids).0
    ≡ redirect (codes "/") (codes "k")
unfolding handle_verify validate_challenge_id check_solution grant verify_pow leading_zero_bits
    leading_zeros8 total_of add64 wrap64 ◌+ℤ◌ target_of lookup delete text_eq Issuer.issue
granted = refl

handle_verify-redirect_example :
    (text_eq (codes "POST") (codes "POST") ≡ true)
    × ((issued : ℕ) × (lru.find (codes "a") ids ≡ some issued) × (20 ≤ issued + challenge_ttl))
    × (verify_pow digest (codes "a") (codes "s") (pos 12) ≡ true)
    × ((signals : List Signal) × (scored 0 ≡ some signals)
        × (total_of (pos 0) signals <ℤ pos 80)
        × (Issuer.issue jwt issuer 20 (issue_context post (codes "a") (total_of (pos 0) signals))
            ≡ some (codes "k")))
    × (codes "/" ≡ target_of [])
handle_verify-redirect_example =
    handle_verify-redirect lru jwt digest scored service 20 post solved ids (codes "/") (codes "k")
      granted

is_post : text_eq (codes "POST") (codes "POST") ≡ true
unfolding text_eq
is_post = refl

abbrev pub signals : List Signal
signals = record { name = codes "webdriver"; score = pos 5; reason = codes "w"; detail = [] } ∷ []

abbrev pub pass_context : IssueContext
pass_context = issue_context post (codes "a") (total_of (pos 0) signals)

pub pass_carried : issued_claims jwt issuer 20 pass_context ≡ claims
unfolding new_claims bind_fields bind_field field_of text_eq issue_context client_ip user_agent
    header_get lookup total_of add64 wrap64 ◌+ℤ◌ split_host_port last_colon before_bracket has_byte
pass_carried = refl

pub pass_young : 30 < (issued_claims jwt issuer 20 pass_context).expires_at
unfolding new_claims bind_fields bind_field field_of text_eq issue_context client_ip user_agent
    header_get lookup total_of add64 wrap64 ◌+ℤ◌ split_host_port last_colon before_bracket has_byte
pass_young = omega arith

pass-accepted_iff_example :
    (verify jwt no_unicode (verifier_of issuer) 30 (codes "k") current
      ≡ ok (issued_claims jwt issuer 20 pass_context))
    ↔ ((client_ip post ≡ codes "10.0.0.1")
        × (equal_fold no_unicode (user_agent post) (codes "FF") ≡ true)
        × (codes "771,,,," ≡ []))
pass-accepted_iff_example =
    pass-accepted_iff lru jwt digest scored no_unicode service 20 30 post solved ids (codes "/")
      (codes "k") signals current refl refl granted pass_carried pass_young
