-- ===== src/Challenge/Service/Pass.antt =====
-- A pass from `HandleVerify`, at the verifier of the proxy.
use mathlib.Core.Path.{subst}
use anti_scrapling.Go.{
  ℕ, ◌<◌, ◌≡◌, ◌↔◌, Bool, true, Option, some, List, [], ◌∷◌, Bytes, codes, text_eq, text_eq_iff,
  pos, arith, ok,
}
use anti_scrapling.Types.{Signal}
use anti_scrapling.Http.{HttpRequest, user_agent}
use anti_scrapling.Lru.{Lru}
use anti_scrapling.Challenge.Service.{
  VerifyRequest, Service, redirect, total_of, issue_context, client_ip, handle_verify,
}
use anti_scrapling.Challenge.Service.Granted.{handle_verify-redirect}
use anti_scrapling.Token.Binding.{VerifyContext, equal_fold, field_of}
use anti_scrapling.Token.Issuer.{Jwt, issue}
use anti_scrapling.Token.Verifier.{verify}
use anti_scrapling.Token.RoundTrip.{issued_claims, verifier_of, same_fields, verify-issue_iff}

-- The fields that the policy reference gives as the default of `bind_to`.
abbrev pub default_bind_to : List Bytes
default_bind_to = codes "ip" ∷ codes "ua" ∷ codes "ja3" ∷ []

module _ {R : Type 0} (lru : Lru ℕ) (jwt : Jwt) (sha256 : Bytes → Bytes)
    (score : R → Option (List Signal)) (unicode : Bytes → Bytes → Bool) where
  open lru use {State}

  same_default :
      (bind_to : List Bytes) (r : HttpRequest) (id : Bytes) (signals : List Signal)
      (current : VerifyContext)
      → bind_to ≡ default_bind_to
      → (same_fields unicode bind_to (issue_context r id (total_of (pos 0) signals)) current ≡ true)
        ↔ ((client_ip r ≡ current.ip)
            × (equal_fold unicode (user_agent r) current.ua ≡ true)
            × (current.ja3 ≡ []))
  unfolding issue_context field_of text_eq
  same_default bind_to r id signals current e =
      rw e (ground (arith, text_eq_iff (client_ip r) current.ip, text_eq_iff [] current.ja3))

  -- Where tokens are bound to address, User-Agent and JA3, a pass that `HandleVerify` grants is
  -- accepted before its expiry, if JSON carries its claims, exactly from the same address, with
  -- the same User-Agent up to case, and by a request whose JA3 is empty.
  pub pass-accepted_iff :
      (s : Service) (now later : ℕ) (r : HttpRequest) (req : VerifyRequest R) (ids : State)
      (target token : Bytes) (signals : List Signal) (current : VerifyContext)
      → s.token_issuer.bind_to ≡ default_bind_to
      → score req.fingerprint_report ≡ some signals
      → (handle_verify lru jwt sha256 score s now r (some req) ids).0 ≡ redirect target token
      → jwt.Carries (
          issued_claims jwt s.token_issuer now
            (issue_context r req.challenge_id (total_of (pos 0) signals)))
      → later
        < (issued_claims jwt s.token_issuer now
            (issue_context r req.challenge_id (total_of (pos 0) signals))).expires_at
      → (verify jwt unicode (verifier_of s.token_issuer) later token current
          ≡ ok (
              issued_claims jwt s.token_issuer now
                (issue_context r req.challenge_id (total_of (pos 0) signals))))
        ↔ ((client_ip r ≡ current.ip)
            × (equal_fold unicode (user_agent r) current.ua ≡ true)
            × (current.ja3 ≡ []))
  pass-accepted_iff s now later r req ids target token signals current b e h carries young =
      let (post, young_id, pow, (signals', e', below, signed), to) =
        handle_verify-redirect lru jwt sha256 score s now r req ids target token h in
      let same : signals' ≡ signals = ground (arith, e, e') in
      let ctx = issue_context r req.challenge_id (total_of (pos 0) signals) in
      let signed' : issue jwt s.token_issuer now ctx ≡ some token =
        subst
          (λ ss.
            issue jwt s.token_issuer now (issue_context r req.challenge_id (total_of (pos 0) ss))
            ≡ some token)
          same signed in
      let accepted =
        verify-issue_iff unicode jwt s.token_issuer now later ctx current token signed' carries
          young in
      let fields = same_default s.token_issuer.bind_to r req.challenge_id signals current b in
      (λ v. fields.0 (accepted.0 v), λ f. accepted.1 (fields.1 f))
