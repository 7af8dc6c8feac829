-- ===== src/Types.antt =====
-- internal/types: the data that the parts of the program hand one another.
use anti_scrapling.Go.{ℕ, ℤ, Bool, Option, List, Bytes, Assoc}

-- verdict.go
pub data Verdict : Type 0 where
  allow challenge deny : Verdict

-- A value of `map[string]any` in a signal's detail.
pub data DetailValue : Type 0 where
  text : Bytes → DetailValue
  int : ℤ → DetailValue
  ints : List ℤ → DetailValue
  texts : List Bytes → DetailValue
  flag : Bool → DetailValue

-- signal.go
pub record Signal : Type 0 where
  pub name : Bytes
  pub score : ℤ
  pub reason : Bytes
  pub detail : Assoc DetailValue

pub record Decision : Type 0 where
  pub verdict : Verdict
  pub score : ℤ
  pub signals : List Signal
  pub reasons : List Bytes
  pub policy_name : Bytes
  pub timestamp : ℕ
  pub request_id : Bytes

-- An element of a YAML list: a string, or anything else.
pub data MatchItem : Type 0 where
  text : Bytes → MatchItem
  other : MatchItem

-- policy.go: a YAML value that stands in a rule's match map.
pub data MatchValue : Type 0 where
  text : Bytes → MatchValue
  flag : Bool → MatchValue
  items : List MatchItem → MatchValue
  other : MatchValue

pub record PolicyRule : Type 0 where
  pub name : Bytes
  pub match : Assoc MatchValue
  pub action : Bytes
  pub reason : Bytes

pub record TlsConfig : Type 0 where
  pub cert : Bytes
  pub key : Bytes

pub record ListenerConfig : Type 0 where
  pub bind : Bytes
  pub target : Bytes
  pub tls : Option TlsConfig

pub record TokenConfig : Type 0 where
  pub secret_file : Bytes
  pub ttl : Bytes
  pub bind_to : List Bytes

pub record PolicySection : Type 0 where
  pub default : Bytes
  pub rules : List PolicyRule

pub record ScoringConfig : Type 0 where
  pub weights : Assoc ℤ
  pub challenge_threshold : ℤ
  pub deny_threshold : ℤ

pub record ChallengeConfig : Type 0 where
  pub pow_difficulty : ℤ
  pub collect_fingerprint : Bool

pub record RedisConfig : Type 0 where
  pub addr : Bytes
  pub db : ℤ

pub record CacheConfig : Type 0 where
  pub backend : Bytes
  pub redis : Option RedisConfig
  pub ttl_seconds : ℤ

pub record PolicyConfig : Type 0 where
  pub version : ℤ
  pub listener : ListenerConfig
  pub token : TokenConfig
  pub policy : PolicySection
  pub scoring : ScoringConfig
  pub challenge : ChallengeConfig
  pub cache : CacheConfig
