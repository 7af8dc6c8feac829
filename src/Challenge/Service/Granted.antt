-- ===== src/Challenge/Service/Granted.antt =====
-- When `HandleVerify` grants a pass, and what the pass is good for.
use anti_scrapling.Go.{
  ℕ, ◌+◌, ◌≤◌, ◌≡◌, ◌∙◌, ap, true, false, Option, some, List, Bytes, codes, text_eq, pos, leb_ℤ,
  ◌<ℤ◌, arith, Bool-cases, Option-cases, inl, inr,
}
use anti_scrapling.Types.{Signal}
use anti_scrapling.Http.{HttpRequest}
use anti_scrapling.Lru.{Lru}
use anti_scrapling.Challenge.Issuer.{
  validate_challenge_id, validate_challenge_id-true, validate_challenge_id-none,
  find-validate_challenge_id, challenge_ttl,
}
use anti_scrapling.Challenge.Pow.{verify_pow}
use anti_scrapling.Challenge.Service.{
  VerifyRequest, Service, redirect, total_of, issue_context, target_of, grant, check_solution,
  handle_verify,
}
use anti_scrapling.Token.Issuer.{Jwt, issue}

module _ {R : Type 0} (lru : Lru ℕ) (jwt : Jwt) (sha256 : Bytes → Bytes)
    (score : R → Option (List Signal)) where
  open lru use {State, find}

  grant-redirect :
      (s : Service) (now : ℕ) (r : HttpRequest) (req : VerifyRequest R) (signals : List Signal)
      {target token : Bytes}
      → grant lru jwt sha256 score s now r req signals ≡ redirect target token
      → (total_of (pos 0) signals <ℤ s.deny_threshold)
        × (issue jwt s.token_issuer now
              (issue_context r req.challenge_id (total_of (pos 0) signals))
            ≡ some token)
        × (target ≡ target_of req.origin_url)
  unfolding grant
  grant-redirect s now r req signals h =
      let total = total_of (pos 0) signals in
      let ctx = issue_context r req.challenge_id total in
      elim (Bool-cases (leb_ℤ s.deny_threshold total)) [
        | inl e ↦ absurd (ground (arith, e))
        | inr e ↦ (ground (arith, e), ground (arith, e), ground (arith, e))
      ]

  check_solution-redirect :
      (s : Service) (now : ℕ) (r : HttpRequest) (req : VerifyRequest R) {target token : Bytes}
      → check_solution lru jwt sha256 score s now r req ≡ redirect target token
      → (verify_pow sha256 req.challenge_id req.pow_solution s.pow_difficulty ≡ true)
        × (signals : List Signal) × (score req.fingerprint_report ≡ some signals)
        × (grant lru jwt sha256 score s now r req signals ≡ redirect target token)
  unfolding check_solution
  check_solution-redirect s now r req h =
      elim (Bool-cases (verify_pow sha256 req.challenge_id req.pow_solution s.pow_difficulty)) [
        | inr e ↦ absurd (ground (arith, e))
        | inl e ↦ elim (Option-cases (score req.fingerprint_report)) [
          | inl m ↦ absurd (ground (arith, e, m))
          | inr (signals, m) ↦ (e, signals, m, ground (arith, e, m))
        ]
      ]

  -- A pass is granted only to a POST whose challenge id the issuer holds as issued at most ten
  -- minutes ago, whose solution has the proof of work, and whose fingerprint scores below the deny
  -- threshold; the token is the issuer's for the client's address and User-Agent, and the redirect
  -- goes to the request's origin URL.
  pub handle_verify-redirect :
      (s : Service) (now : ℕ) (r : HttpRequest) (req : VerifyRequest R) (ids : State)
      (target token : Bytes)
      → (handle_verify lru jwt sha256 score s now r (some req) ids).0 ≡ redirect target token
      → (text_eq r.method (codes "POST") ≡ true)
        × ((issued : ℕ) × (find req.challenge_id ids ≡ some issued)
            × (now ≤ issued + challenge_ttl))
        × (verify_pow sha256 req.challenge_id req.pow_solution s.pow_difficulty ≡ true)
        × ((signals : List Signal) × (score req.fingerprint_report ≡ some signals)
            × (total_of (pos 0) signals <ℤ s.deny_threshold)
            × (issue jwt s.token_issuer now
                  (issue_context r req.challenge_id (total_of (pos 0) signals))
                ≡ some token))
        × (target ≡ target_of req.origin_url)
  unfolding handle_verify
  handle_verify-redirect s now r req ids target token h =
      elim (Bool-cases (text_eq r.method (codes "POST"))) [
        | inr e ↦ absurd (ground (arith, e))
        | inl e ↦ elim (Bool-cases (validate_challenge_id lru now req.challenge_id ids).0) [
          | inr v ↦ absurd (ground (arith, e, v))
          | inl v ↦
              let (pow, signals, scored, g) =
                check_solution-redirect s now r req (ground (arith, e, v, h)) in
              let (below, signed, to) = grant-redirect s now r req signals g in
              (
                e,
                validate_challenge_id-true lru now req.challenge_id ids v,
                pow,
                (signals, scored, below, signed),
                to,
              )
        ]
      ]

  handle_verify-state :
      (s : Service) (now : ℕ) (r : HttpRequest) (req : VerifyRequest R) (ids : State)
      → text_eq r.method (codes "POST") ≡ true
      → (handle_verify lru jwt sha256 score s now r (some req) ids).1
        ≡ (validate_challenge_id lru now req.challenge_id ids).1
  unfolding handle_verify
  handle_verify-state s now r req ids h = ground (arith, h)

  -- Whatever the answer to a POST that decodes, the challenge id in it is spent: no request with
  -- that id gets past the check of the id afterwards.
  pub handle_verify-spent :
      (s : Service) (now later : ℕ) (r : HttpRequest) (req : VerifyRequest R) (ids : State)
      → text_eq r.method (codes "POST") ≡ true
      → (validate_challenge_id lru later req.challenge_id
          (handle_verify lru jwt sha256 score s now r (some req) ids).1).0
        ≡ false
  handle_verify-spent s now later r req ids h =
      validate_challenge_id-none lru later req.challenge_id _ (
        ap (find req.challenge_id) (handle_verify-state s now r req ids h)
        ∙ find-validate_challenge_id lru now req.challenge_id ids)
