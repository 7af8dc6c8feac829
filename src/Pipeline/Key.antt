-- ===== src/Pipeline/Key.antt =====
-- `computeCacheKey`: what of a request the cache tells apart.
pub mod Injective
use anti_scrapling.Go.{
  ℕ, ◌+◌, ◌-◌, ◌/◌, ◌%◌, ltb, Bool, true, false, Option, none, some, List, [], ◌∷◌, ◌++◌, take,
  if◌then◌else◌, Bytes, codes, hex,
}
use anti_scrapling.Http.{RequestContext, HttpRequest, user_agent}

unfoldable pub request_user_agent : RequestContext → Bytes
request_user_agent req = elim req.request [ none ↦ [] | some r ↦ user_agent r ]

unfoldable pub request_path : RequestContext → Bytes
request_path req = elim req.request [ none ↦ [] | some r ↦ elim r.path [ none ↦ [] | some p ↦ p ] ]

-- The verb %v on a Boolean.
abbrev pub bool_text : Bool → Bytes
bool_text true = codes "true"
bool_text false = codes "false"

-- The five fields between NUL bytes.
unfoldable pub raw_key : Bytes → Bytes → Bytes → Bytes → Bool → Bytes
raw_key ip ja3 ua_hex path tok =
    ip ++ (0 ∷ (ja3 ++ (0 ∷ (ua_hex ++ (0 ∷ (path ++ (0 ∷ bool_text tok)))))))

module _ (sha256 : Bytes → Bytes) where
  unfoldable pub raw_key_of : RequestContext → Bool → Bytes
  raw_key_of req has_valid_token =
      raw_key req.remote_ip req.ja3 (hex (take 8 (sha256 (request_user_agent req))))
        (request_path req) has_valid_token

  unfoldable pub compute_cache_key : RequestContext → Bool → Bytes
  compute_cache_key req has_valid_token = hex (sha256 (raw_key_of req has_valid_token))
