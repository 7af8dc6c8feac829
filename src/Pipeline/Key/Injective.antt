-- ===== src/Pipeline/Key/Injective.antt =====
-- Requests that the cache key does not tell apart agree in address, JA3, path, token and, up to
-- the digest, User-Agent.
use anti_scrapling.Go.{
  ℕ, ◌/◌, ◌%◌, ◌<◌, ◌≡◌, ◌≢◌, refl, Bool, true, false, [], ◌∷◌, ◌++◌, take, All, All-take, Bytes,
  Lacks, split_first, Lacks-append_separator, hex, hex_digit, arith,
}
use mathlib.Core.Path.{subst}
use anti_scrapling.Http.{RequestContext}
use anti_scrapling.Pipeline.Key.{
  bool_text, raw_key, raw_key_of, compute_cache_key, request_user_agent, request_path,
}

abbrev pub NoNul : Bytes → Type 0
NoNul = Lacks 0

abbrev pub AreBytes : Bytes → Type 0
AreBytes = All (λ c. c < 256)

-- The last NUL splits a text in one way.
split_last : (a b c d : Bytes) → NoNul c → NoNul d → a ++ (0 ∷ c) ≡ b ++ (0 ∷ d) → (a ≡ b) × (c ≡ d)
split_last [] [] c d h k e = (refl, ground arith)
split_last [] (y ∷ b) c d h k e =
    absurd (Lacks-append_separator 0 b d (subst NoNul (ground arith) h))
split_last (x ∷ a) [] c d h k e =
    absurd (Lacks-append_separator 0 a c (subst NoNul (ground arith) k))
split_last (x ∷ a) (y ∷ b) c d h k e =
    let (p, q) = split_last a b c d h k (ground arith) in (ground arith, q)

hex_digit-ne-nul : (n : ℕ) → hex_digit n ≢ 0
hex_digit-ne-nul n = ground arith

hex_digit-injective : (m n : ℕ) → m < 16 → n < 16 → hex_digit m ≡ hex_digit n → m ≡ n
hex_digit-injective m n h k e = ground arith

hex-NoNul : (a : Bytes) → NoNul (hex a)
unfolding hex
hex-NoNul [] = tt
hex-NoNul (x ∷ a) = (hex_digit-ne-nul (x / 16), (hex_digit-ne-nul (x % 16), hex-NoNul a))

hex-injective : (a b : Bytes) → AreBytes a → AreBytes b → hex a ≡ hex b → a ≡ b
unfolding hex
hex-injective [] [] h k e = refl
hex-injective [] (y ∷ b) h k e = cc
hex-injective (x ∷ a) [] h k e = cc
hex-injective (x ∷ a) (y ∷ b) (p, h) (q, k) e = ground (
  arith,
  hex_digit-injective (x / 16) (y / 16),
  hex_digit-injective (x % 16) (y % 16),
  hex-injective a b h k,
)

bool_text-NoNul : (b : Bool) → NoNul (bool_text b)
bool_text-NoNul true = omega arith
bool_text-NoNul false = omega arith

bool_text-injective : (a b : Bool) → bool_text a ≡ bool_text b → a ≡ b
bool_text-injective true true e = refl
bool_text-injective false false e = refl
bool_text-injective true false e = absurd (ground arith)
bool_text-injective false true e = absurd (ground arith)

raw_key-injective :
    (ip ja3 ua path ip' ja3' ua' path' : Bytes) (tok tok' : Bool)
    → NoNul ip × NoNul ip'
    → NoNul ja3 × NoNul ja3'
    → NoNul ua × NoNul ua'
    → raw_key ip ja3 ua path tok ≡ raw_key ip' ja3' ua' path' tok'
    → (ip ≡ ip') × (ja3 ≡ ja3') × (ua ≡ ua') × (path ≡ path') × (tok ≡ tok')
unfolding raw_key
raw_key-injective ip ja3 ua path ip' ja3' ua' path' tok tok' (h, h') (k, k') (l, l') e =
    let (i, e1) = split_first 0 ip ip' _ _ h h' e in
    let (j, e2) = split_first 0 ja3 ja3' _ _ k k' e1 in
    let (u, e3) = split_first 0 ua ua' _ _ l l' e2 in
    let (p, e4) = split_last path path' _ _ (bool_text-NoNul tok) (bool_text-NoNul tok') e3 in
    (i, j, u, p, bool_text-injective tok tok' e4)

module _ (sha256 : Bytes → Bytes) (digest_bytes : (a : Bytes) → AreBytes (sha256 a)) where
  -- Two requests with one cache key, between whose raw keys SHA-256 does not collide, have the same
  -- address, JA3, path and token state, and User-Agents with the same eight first digest bytes.
  -- Addresses and JA3s hold no NUL byte.
  pub compute_cache_key-injective :
      (req req' : RequestContext) (tok tok' : Bool)
      → NoNul req.remote_ip × NoNul req'.remote_ip
      → NoNul req.ja3 × NoNul req'.ja3
      → (sha256 (raw_key_of sha256 req tok) ≡ sha256 (raw_key_of sha256 req' tok')
          → raw_key_of sha256 req tok ≡ raw_key_of sha256 req' tok')
      → compute_cache_key sha256 req tok ≡ compute_cache_key sha256 req' tok'
      → (req.remote_ip ≡ req'.remote_ip)
        × (req.ja3 ≡ req'.ja3)
        × (take 8 (sha256 (request_user_agent req)) ≡ take 8 (sha256 (request_user_agent req')))
        × (request_path req ≡ request_path req')
        × (tok ≡ tok')
  unfolding compute_cache_key raw_key_of
  compute_cache_key-injective req req' tok tok' ips ja3s no_collision e =
      let ua = take 8 (sha256 (request_user_agent req)) in
      let ua' = take 8 (sha256 (request_user_agent req')) in
      let raw = no_collision (hex-injective _ _ (digest_bytes _) (digest_bytes _) e) in
      let (i, j, u, p, t) =
        raw_key-injective req.remote_ip req.ja3 (hex ua) (request_path req) req'.remote_ip req'.ja3
          (hex ua') (request_path req') tok tok' ips ja3s (hex-NoNul ua, hex-NoNul ua') raw in
      (
        i,
        j,
        hex-injective ua ua' (All-take _ 8 _ (digest_bytes _)) (All-take _ 8 _ (digest_bytes _)) u,
        p,
        t,
      )
