-- ===== src/Api/Tokens.antt =====
-- Pass tokens at the decide handler. The Node and Python adapters send header names in lower case.
use anti_scrapling.Go.{
  ℕ, ◌≡◌, ◌≢◌, refl, ap, ◌∙◌, inl, inr, Bool, true, false, none, some, List, [], ◌∷◌, Bytes, codes,
  text_eq, is_ascii, lookup, ok, le_or_lt, Result-cases, arith,
}
use anti_scrapling.Token.Binding.{TokenClaims, VerifyContext, equal_fold, field_of}
use anti_scrapling.Token.Issuer.{Jwt, Issuer, IssueContext, issue}
use anti_scrapling.Token.Verifier.{Verifier, verify}
use anti_scrapling.Token.RoundTrip.{
  issued_claims, verifier_of, same_fields, verify-issue_iff, verify-issue-ok, not_both,
  verify-issue_expired,
}
use anti_scrapling.Challenge.Service.Pass.{default_bind_to}
use anti_scrapling.Daemon.Handler.{token_verifies}
use anti_scrapling.Api.{DecisionRequest, verify_context, has_valid_token}

no_fold :
    (unicode : Bytes → Bytes → Bool) (ua : Bytes)
    → ua ≢ []
    → is_ascii ua ≡ true
    → equal_fold unicode ua [] ≡ false
unfolding equal_fold is_ascii text_eq
no_fold unicode [] full a = absurd (full refl)
no_fold unicode (c ∷ ua) full a = rw a

unnamed :
    (unicode : Bytes → Bytes → Bool) (ua : Bytes) (req : DecisionRequest)
    → ua ≢ []
    → is_ascii ua ≡ true
    → lookup (codes "User-Agent") req.headers ≡ none
    → equal_fold unicode ua (verify_context req).ua ≡ false
unfolding verify_context
unnamed unicode ua req full a missing = rw missing (no_fold unicode ua full a)

ua_differs :
    (unicode : Bytes → Bytes → Bool) (bind_to : List Bytes) (ctx : IssueContext)
    (current : VerifyContext)
    → bind_to ≡ default_bind_to
    → equal_fold unicode ctx.ua current.ua ≡ false
    → same_fields unicode bind_to ctx current ≡ false
unfolding field_of text_eq
ua_differs unicode bind_to ctx current b h = rw b (ground arith)

module _ (jwt : Jwt) (unicode : Bytes → Bytes → Bool) where
  refused :
      (v : Verifier) (now : ℕ) (current : VerifyContext) (token : Bytes)
      → ((claims : TokenClaims) → verify jwt unicode v now token current ≢ ok claims)
      → token_verifies jwt unicode v now current token ≡ false
  unfolding token_verifies
  refused v now current [] h = refl
  refused v now current (c ∷ token) h =
      elim (Result-cases (verify jwt unicode v now (c ∷ token) current)) [
        | inl (claims, e) ↦ absurd (h claims e)
        | inr (why, e) ↦ rw e
      ]

  -- A request that an adapter describes with its User-Agent under any other spelling than
  -- "User-Agent", such as "user-agent", never has a valid token: under the default bindings every
  -- issued token for a client with an ASCII User-Agent, if JSON carries its claims, is refused at
  -- all times, whatever the request's address, JA3 and real User-Agent are.
  pub has_valid_token-other_spelling :
      (i : Issuer) (issued now : ℕ) (ctx : IssueContext) (req : DecisionRequest)
      → i.bind_to ≡ default_bind_to
      → issue jwt i issued ctx ≡ some req.token
      → jwt.Carries (issued_claims jwt i issued ctx)
      → ctx.ua ≢ []
      → is_ascii ctx.ua ≡ true
      → lookup (codes "User-Agent") req.headers ≡ none
      → has_valid_token jwt unicode (some (verifier_of i)) now req ≡ false
  unfolding has_valid_token
  has_valid_token-other_spelling i issued now ctx req b signed carries full a missing =
      refused (verifier_of i) now (verify_context req) req.token (λ claims e.
        elim (le_or_lt (issued_claims jwt i issued ctx).expires_at now) [
          | inl old ↦
              not_both
                (verify-issue_expired unicode jwt i issued now ctx (verify_context req) req.token
                  signed carries old)
                e
          | inr young ↦
              let same =
                verify-issue-ok unicode jwt i issued now ctx (verify_context req) req.token signed
                  carries e in
              let fields =
                (verify-issue_iff unicode jwt i issued now ctx (verify_context req) req.token signed
                    carries young).0
                  (e ∙ ap ok same) in
              absurd (
                ground (
                  arith,
                  fields,
                  ua_differs unicode i.bind_to ctx (verify_context req) b
                      (unnamed unicode ctx.ua req full a missing),
                ))
        ])
