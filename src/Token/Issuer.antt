-- ===== src/Token/Issuer.antt =====
-- internal/token/issuer.go, over github.com/golang-jwt/jwt/v5.
use anti_scrapling.Go.{
  ℕ, ◌+◌, ◌<◌, ◌≤◌, ◌≡◌, ℤ, Bool, true, Option, none, some, List, [], ◌∷◌, Bytes,
}
use anti_scrapling.Token.Binding.{
  TokenClaims, Field, ip_field, ua_field, ja3_field, ja4_field, other_field, field_of,
}

-- The library. `numeric_date` is the claim that stands for a time; `sign` is `SignedString` under
-- HS256, `none` for its error. `parse` is `ParseWithClaims` at a time, with the key function, which
-- is told whether the token's method is an HMAC; its `none` is an error or a token that is not valid.
pub record Jwt : Type 1 where
  pub numeric_date : ℕ → ℕ
  pub sign : TokenClaims → Bytes → Option Bytes
  pub parse : ℕ → (Bool → Option Bytes) → Bytes → Option TokenClaims
  -- The claims that the JSON form carries: their strings are UTF-8.
  pub Carries : TokenClaims → Type 0
  -- A token under the key that the key function gives is valid before it expires.
  pub parse-sign :
      (now : ℕ) (claims : TokenClaims) (key token : Bytes) (key_of : Bool → Option Bytes)
      → Carries claims
      → sign claims key ≡ some token
      → key_of true ≡ some key
      → now < claims.expires_at
      → parse now key_of token ≡ some claims
  -- An expired token is not valid.
  pub parse_expired :
      (now : ℕ) (claims : TokenClaims) (key token : Bytes) (key_of : Bool → Option Bytes)
      → Carries claims
      → sign claims key ≡ some token
      → key_of true ≡ some key
      → claims.expires_at ≤ now
      → parse now key_of token ≡ none

pub record IssueContext : Type 0 where
  pub fingerprint_hash : Bytes
  pub ip : Bytes
  pub ua : Bytes
  pub ja3 : Bytes
  pub ja4 : Bytes
  pub score : ℤ

-- `ttl` is not negative: the configuration's durations are parsed and defaulted by the daemon.
pub record Issuer : Type 0 where
  pub key : Bytes
  pub ttl : ℕ
  pub bind_to : List Bytes

unfoldable pub bind_field : Field → IssueContext → TokenClaims → TokenClaims
bind_field ip_field ctx claims = record claims { ip = ctx.ip }
bind_field ua_field ctx claims = record claims { ua = ctx.ua }
bind_field ja3_field ctx claims = record claims { ja3 = ctx.ja3 }
bind_field ja4_field ctx claims = record claims { ja4 = ctx.ja4 }
bind_field other_field ctx claims = claims

unfoldable pub bind_fields : List Bytes → IssueContext → TokenClaims → TokenClaims
unfolding field_of bind_field
bind_fields [] ctx claims = claims
bind_fields (field ∷ fields) ctx claims =
    bind_fields fields ctx (bind_field (field_of field) ctx claims)

module _ (jwt : Jwt) where
  unfoldable pub new_claims : Issuer → ℕ → IssueContext → TokenClaims
  new_claims i now ctx = record {
    sub = ctx.fingerprint_hash;
    ip = [];
    ua = [];
    ja3 = [];
    ja4 = [];
    score = ctx.score;
    ver = 1;
    issued_at = jwt.numeric_date now;
    expires_at = jwt.numeric_date (now + i.ttl);
  }

  unfoldable pub issue : Issuer → ℕ → IssueContext → Option Bytes
  unfolding new_claims bind_fields
  issue i now ctx = jwt.sign (bind_fields i.bind_to ctx (new_claims i now ctx)) i.key
