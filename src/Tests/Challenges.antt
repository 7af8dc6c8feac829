-- ===== src/Tests/Challenges.antt =====
-- Challenge ids, proofs of work, tokens and passes on concrete inputs.
use anti_scrapling.Go.{
  ℕ, ◌*◌, ◌^◌, ◌≤◌, ◌<◌, ◌≡◌, ◌↔◌, refl, Bool, true, false, ◌&&◌, ltb, if◌then◌else◌, Option, none,
  some, List, [], ◌∷◌, Bytes, codes, text_eq, text_eq_refl, ok, pos, arith, lookup, delete,
}
use anti_scrapling.Lru.{Lru}
use anti_scrapling.Lru.Bounded.{bounded}
use anti_scrapling.Challenge.Issuer.{new_challenge_id, validate_challenge_id, verdict}
use anti_scrapling.Challenge.Issuer.History.{Op, run_op, run}
use anti_scrapling.Challenge.Issuer.History
use anti_scrapling.Challenge.Issuer.Interleaved.{
  World, look, finish, issue, run_step, run_steps, answer, validate-single_use,
}
use anti_scrapling.Challenge.Pow.{leading_zeros8, leading_zero_bits, verify_pow}
use anti_scrapling.Challenge.Pow.Bound.{big_endian, verify_pow_iff}
use anti_scrapling.Challenge.Service.Pass.{default_bind_to}
use anti_scrapling.Token.Binding.{TokenClaims, VerifyContext, field_of}
use anti_scrapling.Token.Issuer.{Jwt, Issuer, IssueContext, bind_field, bind_fields, new_claims}
use anti_scrapling.Token.Issuer
use anti_scrapling.Token.Verifier.{verify}
use anti_scrapling.Token.RoundTrip.{issued_claims, verifier_of, same_fields, verify-issue_iff}

abbrev pub lru : Lru ℕ
lru = bounded ℕ 2

abbrev ops : List Op
ops = History.issue 10 (codes "a") ∷ History.issue 11 (codes "b") ∷ []

abbrev pub ids : lru.State
ids = (codes "a", 10) ∷ []

accepted : (validate_challenge_id lru 20 (codes "a") (run lru ops [])).0 ≡ true
unfolding validate_challenge_id run run_op new_challenge_id lookup delete text_eq
accepted = refl

-- Handlers 1 and 2 validate the id of one client while another client's id is issued.
abbrev world : World lru
world = record { ids = ids; seen = λ k. none }

validate-single_use_example :
    let ended =
      run_steps lru (look 1 (codes "a") ∷ issue 15 (codes "b") ∷ finish 1 (codes "a") ∷ []) world in
    let both = run_steps lru (look 1 (codes "a") ∷ look 2 (codes "a") ∷ []) world in
    (answer lru 2 21 (run_step lru (look 2 (codes "a")) ended) ≡ false)
    × (answer lru 1 20 both ≡ verdict 20 (some 10))
    × (answer lru 2 21 both ≡ verdict 21 (some 10))
unfolding lookup text_eq
validate-single_use_example =
    validate-single_use lru world (issue 15 (codes "b") ∷ []) [] 1 2 20 21 10 (codes "a") refl
      (tt, tt) tt

-- A digest with twelve leading zero bits.
abbrev pub digest : Bytes → Bytes
digest s = 0 ∷ 9 ∷ 200 ∷ []

verify_pow_iff_example :
    (verify_pow digest (codes "a") (codes "s") (pos 12) ≡ true)
    ↔ (big_endian (0 ∷ 9 ∷ 200 ∷ []) * 2 ^ 12 < 256 ^ 3)
verify_pow_iff_example =
    verify_pow_iff digest (codes "a") (codes "s") 12 (omega arith) (omega arith)

twelve : leading_zero_bits (0 ∷ 9 ∷ 200 ∷ []) ≡ 12
unfolding leading_zero_bits leading_zeros8
twelve = refl

abbrev pub no_unicode : Bytes → Bytes → Bool
no_unicode = text_eq

-- The claims of the one token that this library can carry.
abbrev pub claims : TokenClaims
claims = record {
  sub = codes "a";
  ip = codes "10.0.0.1";
  ua = codes "ff";
  ja3 = [];
  ja4 = [];
  score = pos 5;
  ver = 1;
  issued_at = 20;
  expires_at = 120;
}

abbrev pub parse_fixed : ℕ → Option Bytes → Bytes → Option TokenClaims
parse_fixed now none token = none
parse_fixed now (some key) token = if text_eq key token && ltb now 120 then some claims else none

pub jwt-parse-sign :
    (now : ℕ) (c : TokenClaims) (key token : Bytes) (key_of : Bool → Option Bytes)
    → c ≡ claims
    → some key ≡ some token
    → key_of true ≡ some key
    → now < c.expires_at
    → parse_fixed now (key_of true) token ≡ some c
jwt-parse-sign now c key token key_of e s k h =
    rw (k, e) (ground (arith, s, h, e, text_eq_refl key))

pub jwt-parse_expired :
    (now : ℕ) (c : TokenClaims) (key token : Bytes) (key_of : Bool → Option Bytes)
    → c ≡ claims
    → some key ≡ some token
    → key_of true ≡ some key
    → c.expires_at ≤ now
    → parse_fixed now (key_of true) token ≡ none
jwt-parse_expired now c key token key_of e s k h = rw k (ground (arith, s, h, e))

-- A library whose signature is the key itself.
abbrev pub jwt : Jwt
jwt = record {
  numeric_date = λ t. t;
  sign = λ c key. some key;
  parse = λ now key_of token. parse_fixed now (key_of true) token;
  Carries = λ c. c ≡ claims;
  parse-sign = jwt-parse-sign;
  parse_expired = jwt-parse_expired;
}

abbrev pub issuer : Issuer
issuer = record { key = codes "k"; ttl = 100; bind_to = default_bind_to }

abbrev ctx : IssueContext
ctx = record {
  fingerprint_hash = codes "a";
  ip = codes "10.0.0.1";
  ua = codes "ff";
  ja3 = [];
  ja4 = [];
  score = pos 5;
}

abbrev pub current : VerifyContext
current = record { ip = codes "10.0.0.1"; ua = codes "FF"; ja3 = codes "771,,,,"; ja4 = [] }

carried : issued_claims jwt issuer 20 ctx ≡ claims
unfolding new_claims bind_fields bind_field field_of text_eq
carried = refl

young : 30 < (issued_claims jwt issuer 20 ctx).expires_at
unfolding new_claims bind_fields bind_field field_of text_eq
young = omega arith

old : (issued_claims jwt issuer 20 ctx).expires_at ≤ 130
unfolding new_claims bind_fields bind_field field_of text_eq
old = omega arith

signed : Issuer.issue jwt issuer 20 ctx ≡ some (codes "k")
unfolding Issuer.issue
signed = refl

verify-issue_iff_example :
    (verify jwt no_unicode (verifier_of issuer) 30 (codes "k") current
      ≡ ok (issued_claims jwt issuer 20 ctx))
    ↔ (same_fields no_unicode default_bind_to ctx current ≡ true)
verify-issue_iff_example =
    verify-issue_iff no_unicode jwt issuer 20 30 ctx current (codes "k") signed carried young
