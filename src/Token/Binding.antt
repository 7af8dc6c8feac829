-- ===== src/Token/Binding.antt =====
-- The claims of a pass token (internal/types/token.go), and internal/token/binding.go.
use anti_scrapling.Go.{
  ℕ, ℤ, Bool, true, ◌&&◌, if◌then◌else◌, List, [], ◌∷◌, map, Bytes, codes, text_eq, is_ascii,
  lower_byte,
}

-- `issued_at` and `expires_at` are the registered claims iat and exp.
pub record TokenClaims : Type 0 where
  pub sub : Bytes
  pub ip : Bytes
  pub ua : Bytes
  pub ja3 : Bytes
  pub ja4 : Bytes
  pub score : ℤ
  pub ver : ℕ
  pub issued_at : ℕ
  pub expires_at : ℕ

pub record VerifyContext : Type 0 where
  pub ip : Bytes
  pub ua : Bytes
  pub ja3 : Bytes
  pub ja4 : Bytes

-- The cases of the switches on a field's name.
pub data Field : Type 0 where
  ip_field ua_field ja3_field ja4_field other_field : Field

unfoldable pub field_of : Bytes → Field
unfolding text_eq
field_of name =
    if text_eq name (codes "ip")
    then ip_field
    else if text_eq name (codes "ua")
    then ua_field
    else if text_eq name (codes "ja3")
    then ja3_field
    else if text_eq name (codes "ja4")
    then ja4_field
    else other_field

-- `strings.EqualFold`: `unicode` is what it answers where a text is not ASCII.
unfoldable pub equal_fold : (Bytes → Bytes → Bool) → Bytes → Bytes → Bool
unfolding is_ascii text_eq
equal_fold unicode s t =
    if is_ascii s && is_ascii t then text_eq (map lower_byte s) (map lower_byte t) else unicode s t

module _ (unicode : Bytes → Bytes → Bool) where
  -- The condition under which a field is no mismatch.
  unfoldable pub agrees : Field → TokenClaims → VerifyContext → Bool
  unfolding equal_fold text_eq
  agrees ip_field claims current = text_eq claims.ip current.ip
  agrees ua_field claims current = equal_fold unicode claims.ua current.ua
  agrees ja3_field claims current = text_eq claims.ja3 current.ja3
  agrees ja4_field claims current = text_eq claims.ja4 current.ja4
  agrees other_field claims current = true

  -- The fields that the error lists.
  unfoldable pub bound_fields : TokenClaims → VerifyContext → List Bytes → List Bytes
  unfolding field_of agrees
  bound_fields claims current [] = []
  bound_fields claims current (field ∷ bind_to) =
      let mismatches = bound_fields claims current bind_to in
      if agrees (field_of field) claims current then mismatches else field ∷ mismatches
