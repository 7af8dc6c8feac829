-- ===== src/Token/RoundTrip.antt =====
-- A token that the issuer made, at the verifier.
use anti_scrapling.Go.{
  ℕ, ◌<◌, ◌≤◌, ◌≡◌, ◌↔◌, refl, sym, ap, inl, inr, Bool, true, ◌&&◌, some, List, [], ◌∷◌, Bytes,
  Result, ok, ok_injective, err, text_eq, le_or_lt, arith, All,
}
use anti_scrapling.Token.Binding.{
  TokenClaims, VerifyContext, Field, ip_field, ua_field, ja3_field, ja4_field, other_field,
  field_of, equal_fold, agrees, bound_fields,
}
use anti_scrapling.Token.Issuer.{
  Jwt, IssueContext, Issuer, bind_field, bind_fields, new_claims, issue,
}
use anti_scrapling.Token.Verifier.{Verifier, TokenError, not_parsed, key_of, bound, verify}

-- The claim has what the context of the issue had.
abbrev Kept : IssueContext → TokenClaims → Field → Type 0
Kept ctx claims ip_field = claims.ip ≡ ctx.ip
Kept ctx claims ua_field = claims.ua ≡ ctx.ua
Kept ctx claims ja3_field = claims.ja3 ≡ ctx.ja3
Kept ctx claims ja4_field = claims.ja4 ≡ ctx.ja4
Kept ctx claims other_field = Unit

bind_field-Kept_self :
    (f : Field) (ctx : IssueContext) (claims : TokenClaims) → Kept ctx (bind_field f ctx claims) f
unfolding bind_field
bind_field-Kept_self ip_field ctx claims = refl
bind_field-Kept_self ua_field ctx claims = refl
bind_field-Kept_self ja3_field ctx claims = refl
bind_field-Kept_self ja4_field ctx claims = refl
bind_field-Kept_self other_field ctx claims = tt

bind_field-Kept :
    (f g : Field) (ctx : IssueContext) (claims : TokenClaims)
    → Kept ctx claims g
    → Kept ctx (bind_field f ctx claims) g
unfolding bind_field
bind_field-Kept f g ctx claims h = ground arith

bind_fields-Kept :
    (fields : List Bytes) (g : Field) (ctx : IssueContext) (claims : TokenClaims)
    → Kept ctx claims g
    → Kept ctx (bind_fields fields ctx claims) g
unfolding bind_fields
bind_fields-Kept [] g ctx claims h = h
bind_fields-Kept (f ∷ fields) g ctx claims h =
    bind_fields-Kept fields g ctx (bind_field (field_of f) ctx claims)
      (bind_field-Kept (field_of f) g ctx claims h)

bind_fields-All :
    (fields : List Bytes) (ctx : IssueContext) (claims : TokenClaims)
    → All (λ f. Kept ctx (bind_fields fields ctx claims) (field_of f)) fields
unfolding bind_fields
bind_fields-All [] ctx claims = tt
bind_fields-All (f ∷ fields) ctx claims = (
  bind_fields-Kept fields (field_of f) ctx (bind_field (field_of f) ctx claims)
      (bind_field-Kept_self (field_of f) ctx claims),
  bind_fields-All fields ctx (bind_field (field_of f) ctx claims),
)

-- The claims of the token that `Issue` makes.
abbrev pub issued_claims : Jwt → Issuer → ℕ → IssueContext → TokenClaims
issued_claims jwt i issued ctx = bind_fields i.bind_to ctx (new_claims jwt i issued ctx)

-- The verifier that the daemon sets up beside the issuer.
abbrev pub verifier_of : Issuer → Verifier
verifier_of i = record { key = i.key; bind_to = i.bind_to }

-- The new request looks in a field as the context of the issue did.
abbrev pub same_field : (Bytes → Bytes → Bool) → Field → IssueContext → VerifyContext → Bool
same_field unicode ip_field ctx current = text_eq ctx.ip current.ip
same_field unicode ua_field ctx current = equal_fold unicode ctx.ua current.ua
same_field unicode ja3_field ctx current = text_eq ctx.ja3 current.ja3
same_field unicode ja4_field ctx current = text_eq ctx.ja4 current.ja4
same_field unicode other_field ctx current = true

abbrev pub same_fields : (Bytes → Bytes → Bool) → List Bytes → IssueContext → VerifyContext → Bool
same_fields unicode [] ctx current = true
same_fields unicode (f ∷ fields) ctx current =
    same_field unicode (field_of f) ctx current && same_fields unicode fields ctx current

pub not_both :
    {r : Result TokenError TokenClaims} {c : TokenClaims} → r ≡ err not_parsed → r ≡ ok c → ⊥
not_both h k = cc

module _ (unicode : Bytes → Bytes → Bool) where
  agrees-Kept :
      (f : Field) (ctx : IssueContext) (claims : TokenClaims) (current : VerifyContext)
      → Kept ctx claims f
      → agrees unicode f claims current ≡ same_field unicode f ctx current
  unfolding agrees
  agrees-Kept ip_field ctx claims current h = ap (λ t. text_eq t current.ip) h
  agrees-Kept ua_field ctx claims current h = ap (λ t. equal_fold unicode t current.ua) h
  agrees-Kept ja3_field ctx claims current h = ap (λ t. text_eq t current.ja3) h
  agrees-Kept ja4_field ctx claims current h = ap (λ t. text_eq t current.ja4) h
  agrees-Kept other_field ctx claims current h = refl

  bound-Kept :
      (fields : List Bytes) (ctx : IssueContext) (claims : TokenClaims) (current : VerifyContext)
      → All (λ f. Kept ctx claims (field_of f)) fields
      → (bound_fields unicode claims current fields ≡ [])
        ↔ (same_fields unicode fields ctx current ≡ true)
  unfolding bound_fields
  bound-Kept [] ctx claims current h = (λ e. refl, λ e. refl)
  bound-Kept (f ∷ fields) ctx claims current (k, h) =
      ground (
        arith,
        agrees-Kept (field_of f) ctx claims current k,
        bound-Kept fields ctx claims current h,
      )

  bound-ok_iff :
      (claims : TokenClaims) (mismatches : List Bytes)
      → (bound claims mismatches ≡ ok claims) ↔ (mismatches ≡ [])
  bound-ok_iff claims [] = (λ e. refl, λ e. refl)
  bound-ok_iff claims (m ∷ ms) = (λ e. absurd (ground arith), λ e. absurd (ground arith))

  bound-ok :
      (claims : TokenClaims) (mismatches : List Bytes) {c : TokenClaims}
      → bound claims mismatches ≡ ok c
      → c ≡ claims
  bound-ok claims [] e = sym (ok_injective e)
  bound-ok claims (m ∷ ms) e = cc

  module _ (jwt : Jwt) (i : Issuer) (issued now : ℕ) (ctx : IssueContext)
      (current : VerifyContext) where
    -- A token that `Issue` signed, if JSON carries its claims, is accepted before its expiry by the
    -- verifier with the same key and bindings exactly if the request looks in every bound field as
    -- the one that earned the token; the User-Agent may differ in case.
    pub verify-issue_iff :
        (token : Bytes)
        → issue jwt i issued ctx ≡ some token
        → jwt.Carries (issued_claims jwt i issued ctx)
        → now < (issued_claims jwt i issued ctx).expires_at
        → (verify jwt unicode (verifier_of i) now token current
            ≡ ok (issued_claims jwt i issued ctx))
          ↔ (same_fields unicode i.bind_to ctx current ≡ true)
    unfolding verify issue key_of
    verify-issue_iff token h carries young =
        let claims = issued_claims jwt i issued ctx in
        let parsed =
          jwt.parse-sign now claims i.key token (key_of (verifier_of i)) carries h refl young in
        let bound_iff =
          bound-Kept i.bind_to ctx claims current
            (bind_fields-All i.bind_to ctx (new_claims jwt i issued ctx)) in
        let ok_iff = bound-ok_iff claims (bound_fields unicode claims current i.bind_to) in
        rw (parsed, verify) (λ e. bound_iff.0 (ok_iff.0 e), λ e. ok_iff.1 (bound_iff.1 e))

    -- From its expiry on, a token that `Issue` signed, if JSON carries its claims, is refused,
    -- whatever the request looks like.
    pub verify-issue_expired :
        (token : Bytes)
        → issue jwt i issued ctx ≡ some token
        → jwt.Carries (issued_claims jwt i issued ctx)
        → (issued_claims jwt i issued ctx).expires_at ≤ now
        → verify jwt unicode (verifier_of i) now token current ≡ err not_parsed
    unfolding verify issue key_of
    verify-issue_expired token h carries old =
        let claims = issued_claims jwt i issued ctx in
        rw
          (
            jwt.parse_expired now claims i.key token (key_of (verifier_of i)) carries h refl old,
            verify,
          )
          refl

    -- What is accepted are the claims that were issued.
    pub verify-issue-ok :
        (token : Bytes) {claims : TokenClaims}
        → issue jwt i issued ctx ≡ some token
        → jwt.Carries (issued_claims jwt i issued ctx)
        → verify jwt unicode (verifier_of i) now token current ≡ ok claims
        → claims ≡ issued_claims jwt i issued ctx
    unfolding verify issue key_of
    verify-issue-ok token {claims} h carries e =
        let given = issued_claims jwt i issued ctx in
        elim (le_or_lt given.expires_at now) [
          | inl old ↦ absurd (not_both (verify-issue_expired token h carries old) e)
          | inr young ↦
              let parsed =
                jwt.parse-sign now given i.key token (key_of (verifier_of i)) carries h refl
                  young in
              bound-ok given (bound_fields unicode given current i.bind_to)
                (rw (parsed, verify) at e)
        ]
