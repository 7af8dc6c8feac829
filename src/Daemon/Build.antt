-- ===== src/Daemon/Build.antt =====
-- What `buildDeps` makes of a policy that has been loaded.
use anti_scrapling.Go.{
  ◌≡◌, refl, true, Option, some, Bytes, ok, after_ok, ok_injective, Bool, ℤ, pos, ◌<ℤ◌, arith,
}
use mathlib.Core.Path.{subst}
use anti_scrapling.Types.{PolicyConfig}
use anti_scrapling.Decision
use anti_scrapling.Policy.Evaluator.{Cel, Evaluator, new_evaluator}
use anti_scrapling.Policy.Loader.{load}
use anti_scrapling.Policy.Loader.Valid.{load-new_evaluator}
use anti_scrapling.Cache.{Cache}
use anti_scrapling.Pipeline.{Codec, new}
use anti_scrapling.Pipeline.Collect.{Collector}
use anti_scrapling.Token.RoundTrip.{verifier_of}
use anti_scrapling.Daemon.{
  bad_key, bad_cache, no_ip_collector, no_challenge_issuer, AppConfig, World, Deps,
  deny_threshold_of, or_fail, check, compiled, forwards_to, deps_of, build_deps,
}

deny_threshold-agree :
    (cfg : PolicyConfig) → deny_threshold_of cfg ≡ Decision.deny_threshold (some cfg)
unfolding deny_threshold_of Decision.deny_threshold
deny_threshold-agree cfg = ground arith

module _ (cel : Cel) (cache : Cache) (codec : Codec) (parse_duration : Bytes → Option ℤ) where
  -- How the parts fit: the verifier reads the tokens that both issuers make, the challenge page and
  -- the decision deny at one score, and the pipeline has a cache with a time to live and the rules
  -- of the policy.
  pub record IsWired (d : Deps cel cache codec parse_duration) : Type 0 where
    pub verifies : d.token_verifier ≡ verifier_of d.token_issuer
    pub same_issuer : d.challenge_svc.token_issuer ≡ d.token_issuer
    pub one_threshold : d.challenge_svc.deny_threshold ≡ Decision.deny_threshold d.pl.policy
    pub has_policy : d.pl.policy ≡ some d.cfg.policy
    pub has_cache : d.pl.has_cache ≡ true
    pub keeps : pos 0 <ℤ d.pl.cache_ttl

  deps_of-IsWired :
      (w : World) (cfg : AppConfig) (key : Bytes) (ip : Collector) (eval : Evaluator cel)
      (forwards : Bool)
      → IsWired (deps_of cel cache codec parse_duration w cfg key ip eval forwards)
  unfolding deps_of new
  deps_of-IsWired w cfg key ip eval forwards = record {
    verifies = refl;
    same_issuer = refl;
    one_threshold = deny_threshold-agree cfg.policy;
    has_policy = refl;
    has_cache = refl;
    keeps = ground arith;
  }

  pub build_deps-IsWired :
      (w : World) (cfg : AppConfig) {d : Deps cel cache codec parse_duration}
      → build_deps cel cache codec parse_duration w cfg ≡ ok d
      → IsWired d
  unfolding build_deps
  build_deps-IsWired w cfg {d} h =
      after_ok (or_fail (w.load_key cfg.key_file) bad_key) h λ key _ h1.
        after_ok (check w.opens_cache bad_cache) h1 λ _ _ h2.
          after_ok (or_fail w.ip no_ip_collector) h2 λ ip _ h3.
            after_ok (compiled (new_evaluator cel cfg.policy)) h3 λ eval _ h4.
              after_ok (check w.opens_challenges no_challenge_issuer) h4 λ _ _ h5.
                after_ok (forwards_to w cfg.target) h5 λ forwards _ h6.
                  subst IsWired (ok_injective h6) (deps_of-IsWired w cfg key ip eval forwards)

  -- A daemon starts under every policy that the loader accepts, if the key file, the cache, the
  -- tables of addresses, the store of challenge ids and the target's URL are in order, and its
  -- parts fit: every rule is compiled, the verifier reads what the issuers sign, and the challenge
  -- page denies at the score at which requests are denied.
  pub build_deps-loaded :
      (unmarshal : Bytes → Option PolicyConfig) (file : Option Bytes) (w : World) (cfg : AppConfig)
      (key : Bytes) (ip : Collector) (forwards : Bool)
      → load cel parse_duration unmarshal file ≡ ok cfg.policy
      → w.load_key cfg.key_file ≡ some key
      → w.opens_cache ≡ true
      → w.ip ≡ some ip
      → w.opens_challenges ≡ true
      → forwards_to w cfg.target ≡ ok forwards
      → (d : Deps cel cache codec parse_duration) × (build_deps cel cache codec parse_duration w cfg
          ≡ ok d)
        × IsWired d
  unfolding build_deps
  build_deps-loaded unmarshal file w cfg key ip forwards l k c i s f =
      let (eval, compiles, order, same) = load-new_evaluator cel parse_duration unmarshal file l in
      (
        deps_of cel cache codec parse_duration w cfg key ip eval forwards,
        rw (k, c, i, compiles, s, f),
        deps_of-IsWired w cfg key ip eval forwards,
      )
