-- ===== src/Daemon.antt =====
-- cmd/antiscrapling/wire.go: the daemon is put together from its configuration.
pub mod Handler
pub mod Build
use anti_scrapling.Go.{
  ℕ, zero, suc, ◌+◌, sub_ℕ, ◌*◌, ◌^◌, Bool, true, false, if◌then◌else◌, Option, none, some, List,
  [], ◌∷◌, Bytes, codes, text_eq, Result, ok, err, ◌>>=◌, ℤ, pos, negsuc, leb_ℤ, wrap64,
}
use anti_scrapling.Types.{PolicyConfig, TlsConfig}
use anti_scrapling.Policy.Evaluator.{Cel, Evaluator, CompileError, new_evaluator}
use anti_scrapling.Policy.Loader.{LoadError, load}
use anti_scrapling.Cache.{Cache}
use anti_scrapling.Pipeline.{Codec, PipelineConfig, new}
use anti_scrapling.Pipeline.Collect.{Collector}
use anti_scrapling.Token.Issuer.{Issuer}
use anti_scrapling.Token.Verifier.{Verifier}
use anti_scrapling.Challenge.Service.{Service}

pub record AppConfig : Type 0 where
  pub policy : PolicyConfig
  pub policy_path : Bytes
  pub bind : Bytes
  pub target : Bytes
  pub key_file : Bytes

-- A value of the environment takes the place of the policy's, unless it is empty.
abbrev pub override : Bytes → Bytes → Bytes
override [] given = given
override (c ∷ value) given = c ∷ value

-- `getenv` is `os.Getenv`; an error is that of the policy loader.
unfoldable pub load_config :
    (Bytes → Bytes) → Bytes → Result LoadError PolicyConfig → Result LoadError AppConfig
load_config getenv path loaded = loaded >>= λ pol. ok (record {
  policy = pol;
  policy_path = path;
  bind = override (getenv (codes "AS_BIND")) pol.listener.bind;
  target = override (getenv (codes "AS_TARGET")) pol.listener.target;
  key_file =
      override (override (getenv (codes "AS_TOKEN_SECRET_FILE")) pol.token.secret_file)
        (codes "/tmp/anti-scrapling-token.key");
})

pub data BuildError : Type 0 where
  bad_key bad_cache no_ip_collector no_challenge_issuer bad_target : BuildError
  bad_policy : ℕ × CompileError → BuildError

-- 24 hours, in nanoseconds.
abbrev pub default_ttl : ℤ
default_ttl = pos (24 * 3600 * 10 ^ 9)

abbrev duration_or : Option ℤ → ℤ → ℤ
duration_or none given = given
duration_or (some d) given = d

-- `parse_duration` is `time.ParseDuration`; a text that it refuses leaves the default.
unfoldable pub token_ttl : (Bytes → Option ℤ) → Bytes → ℤ
token_ttl parse_duration ttl =
    if text_eq ttl [] then default_ttl else duration_or (parse_duration ttl) default_ttl

-- `time.Duration(seconds) * time.Second`, at 64 bits.
unfoldable pub cache_ttl : ℤ → ℤ
unfolding wrap64
cache_ttl (pos seconds) = wrap64 (pos (seconds * 10 ^ 9))
cache_ttl (negsuc n) = wrap64 (sub_ℕ 0 ((n + 1) * 10 ^ 9))

unfoldable pub pow_difficulty_of : PolicyConfig → ℤ
pow_difficulty_of cfg =
    if leb_ℤ cfg.challenge.pow_difficulty (pos 0) then pos 4 else cfg.challenge.pow_difficulty

unfoldable pub deny_threshold_of : PolicyConfig → ℤ
deny_threshold_of cfg =
    if leb_ℤ cfg.scoring.deny_threshold (pos 0) then pos 80 else cfg.scoring.deny_threshold

-- A token's life. An issuer's is a natural number: a negative duration and none at all both make
-- tokens that have expired when they are issued.
abbrev at_least_none : ℤ → ℕ
at_least_none (pos n) = n
at_least_none (negsuc n) = 0

-- `what : Option A` in place of a call that may fail.
abbrev pub or_fail {ℓ} : {A : Type ℓ} → Option A → BuildError → Result BuildError A
or_fail none e = err e
or_fail (some a) e = ok a

abbrev pub compiled {ℓ} : {A : Type ℓ} → Result (ℕ × CompileError) A → Result BuildError A
compiled (ok a) = ok a
compiled (err e) = err (bad_policy e)

-- What `buildDeps` calls of the system and of packages: the key file, the cache's backend, the
-- store of challenge ids, the parser of the target's URL, and the constructors of the collectors.
pub record World : Type 0 where
  pub load_key : Bytes → Option Bytes
  pub opens_cache : Bool
  pub opens_challenges : Bool
  pub is_target : Bytes → Bool
  pub tls : Collector
  pub headers : Collector
  pub ip : Option Collector
  pub http2 : Collector
  pub behavior : Collector

abbrev pub check : Bool → BuildError → Result BuildError (Unit {0})
check true e = ok tt
check false e = err e

-- A proxy is made for a target that is not empty.
abbrev pub forwards_to : World → Bytes → Result BuildError Bool
forwards_to w [] = ok false
forwards_to w (c ∷ target) = check (w.is_target (c ∷ target)) bad_target >>= λ _. ok true

module _ (cel : Cel) (cache : Cache) (codec : Codec) (parse_duration : Bytes → Option ℤ) where
  -- `forwards` says whether there is a proxy.
  pub record Deps : Type 0 where
    pub cfg : AppConfig
    pub token_issuer : Issuer
    pub token_verifier : Verifier
    pub pl : PipelineConfig cel cache codec
    pub challenge_svc : Service
    pub forwards : Bool

  abbrev issuer_of : AppConfig → Bytes → Issuer
  issuer_of cfg key = record {
    key = key;
    ttl = at_least_none (token_ttl parse_duration cfg.policy.token.ttl);
    bind_to = cfg.policy.token.bind_to;
  }

  abbrev pipeline_of :
      World → AppConfig → Collector → Evaluator cel → PipelineConfig cel cache codec
  pipeline_of w cfg ip eval = new cel cache codec (record {
    collectors = w.tls ∷ w.headers ∷ ip ∷ w.http2 ∷ w.behavior ∷ [];
    evaluator = some eval;
    has_cache = true;
    cache_ttl = cache_ttl cfg.policy.cache.ttl_seconds;
    policy = some cfg.policy;
  })

  -- What the values that may fail are put together to.
  unfoldable pub deps_of : World → AppConfig → Bytes → Collector → Evaluator cel → Bool → Deps
  unfolding new token_ttl cache_ttl pow_difficulty_of deny_threshold_of
  deps_of w cfg key ip eval forwards = record {
    cfg = cfg;
    token_issuer = issuer_of cfg key;
    token_verifier = record { key = key; bind_to = cfg.policy.token.bind_to };
    pl = pipeline_of w cfg ip eval;
    challenge_svc = record {
      pow_difficulty = pow_difficulty_of cfg.policy;
      token_issuer = issuer_of cfg key;
      deny_threshold = deny_threshold_of cfg.policy;
    };
    forwards = forwards;
  }

  unfoldable pub build_deps : World → AppConfig → Result BuildError Deps
  unfolding deps_of
  build_deps w cfg = do
    key ← or_fail (w.load_key cfg.key_file) bad_key
    _ ← check w.opens_cache bad_cache
    ip ← or_fail w.ip no_ip_collector
    eval ← compiled (new_evaluator cel cfg.policy)
    _ ← check w.opens_challenges no_challenge_issuer
    forwards ← forwards_to w cfg.target
    ok (deps_of w cfg key ip eval forwards)
