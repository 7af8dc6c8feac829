-- ===== src/Challenge/Service.antt =====
-- `HandleVerify` of internal/challenge/service.go: from a solved challenge to a pass token.
pub mod Granted
pub mod Pass
use anti_scrapling.Go.{
  ℕ, Bool, true, false, not, if◌then◌else◌, Option, none, some, List, [], ◌∷◌, Bytes, codes,
  text_eq, ℤ, pos, leb_ℤ, ltb_ℤ, add64, split_host_port,
}
use anti_scrapling.Types.{Signal}
use anti_scrapling.Http.{HttpRequest, user_agent}
use anti_scrapling.Lru.{Lru}
use anti_scrapling.Challenge.Issuer.{validate_challenge_id}
use anti_scrapling.Challenge.Pow.{verify_pow}
use anti_scrapling.Token.Issuer.{Jwt, Issuer, IssueContext, issue}

-- `R` is `types.FingerprintReport`, which the fingerprint score reads.
pub record VerifyRequest (R : Type 0) : Type 0 where
  pub pow_solution : Bytes
  pub fingerprint_report : R
  pub challenge_id : Bytes
  pub origin_url : Bytes

-- The life of the cookie, which the handler only hands on, is left out.
pub record Service : Type 0 where
  pub pow_difficulty : ℤ
  pub token_issuer : Issuer
  pub deny_threshold : ℤ

-- What the handler writes. A redirect carries the pass cookie's value.
pub data Response : Type 0 where
  method_not_allowed bad_request invalid_challenge_id invalid_pow scoring_error : Response
  score_too_high : ℤ → List Bytes → Response
  issuance_failed : Response
  redirect : Bytes → Bytes → Response

unfoldable pub total_of : ℤ → List Signal → ℤ
unfolding add64
total_of total [] = total
total_of total (s ∷ ss) = total_of (add64 total s.score) ss

unfoldable pub reasons_of : List Signal → List Bytes
reasons_of [] = []
reasons_of (s ∷ ss) =
    let rest = reasons_of ss in if ltb_ℤ (pos 0) s.score then s.reason ∷ rest else rest

unfoldable pub client_ip : HttpRequest → Bytes
unfolding split_host_port
client_ip r = elim (split_host_port r.remote_addr) [
  | none ↦ r.remote_addr
  | some (host, port) ↦ host
]

-- JA3 and JA4 stay empty.
unfoldable pub issue_context : HttpRequest → Bytes → ℤ → IssueContext
unfolding client_ip user_agent
issue_context r challenge_id total = record {
  fingerprint_hash = challenge_id;
  ip = client_ip r;
  ua = user_agent r;
  ja3 = [];
  ja4 = [];
  score = total;
}

unfoldable pub target_of : Bytes → Bytes
target_of [] = codes "/"
target_of (c ∷ url) = c ∷ url

module _ {R : Type 0} (lru : Lru ℕ) (jwt : Jwt) (sha256 : Bytes → Bytes)
    -- `fingerprint.Score`; `none` is its error.
    (score : R → Option (List Signal)) where
  open lru use {State}

  -- From the score on.
  unfoldable pub grant : Service → ℕ → HttpRequest → VerifyRequest R → List Signal → Response
  unfolding total_of reasons_of issue_context issue target_of
  grant s now r req signals =
      let total = total_of (pos 0) signals in
      if leb_ℤ s.deny_threshold total
      then score_too_high total (reasons_of signals)
      else elim (issue jwt s.token_issuer now (issue_context r req.challenge_id total)) [
        | none ↦ issuance_failed
        | some token ↦ redirect (target_of req.origin_url) token
      ]

  -- From the proof of work on.
  unfoldable pub check_solution : Service → ℕ → HttpRequest → VerifyRequest R → Response
  unfolding verify_pow grant
  check_solution s now r req =
      if not (verify_pow sha256 req.challenge_id req.pow_solution s.pow_difficulty)
      then invalid_pow
      else elim (score req.fingerprint_report) [
        | none ↦ scoring_error
        | some signals ↦ grant s now r req signals
      ]

  -- `body` is the decoded request, `none` where the decoder fails; the state is the issuer's.
  unfoldable pub handle_verify :
      Service → ℕ → HttpRequest → Option (VerifyRequest R) → State → Response × State
  unfolding validate_challenge_id check_solution text_eq
  handle_verify s now r body ids =
      if not (text_eq r.method (codes "POST")) then (method_not_allowed, ids) else elim body [
        | none ↦ (bad_request, ids)
        | some req ↦
            let (valid, ids') = validate_challenge_id lru now req.challenge_id ids in
            (if valid then check_solution s now r req else invalid_challenge_id, ids')
      ]
