-- ===== src/Token/Verifier.antt =====
-- internal/token/verifier.go.
use anti_scrapling.Go.{
  ℕ, Bool, true, false, Option, none, some, List, [], ◌∷◌, Bytes, Result, ok, err,
}
use anti_scrapling.Token.Binding.{TokenClaims, VerifyContext, bound_fields}
use anti_scrapling.Token.Issuer.{Jwt}

pub record Verifier : Type 0 where
  pub key : Bytes
  pub bind_to : List Bytes

pub data TokenError : Type 0 where
  not_parsed : TokenError
  binding_mismatch : List Bytes → TokenError

-- The key function refuses a method that is no HMAC.
unfoldable pub key_of : Verifier → Bool → Option Bytes
key_of v true = some v.key
key_of v false = none

-- `BoundFields` is an error where there is a mismatch.
abbrev pub bound : TokenClaims → List Bytes → Result TokenError TokenClaims
bound claims [] = ok claims
bound claims (field ∷ fields) = err (binding_mismatch (field ∷ fields))

module _ (jwt : Jwt) (unicode : Bytes → Bytes → Bool) where
  unfoldable pub verify : Verifier → ℕ → Bytes → VerifyContext → Result TokenError TokenClaims
  unfolding key_of bound_fields
  verify v now token current = elim (jwt.parse now (key_of v) token) [
    | none ↦ err not_parsed
    | some claims ↦ bound claims (bound_fields unicode claims current v.bind_to)
  ]
