-- ===== src/Tests/Data.antt =====
-- The inputs that several tests share.
use anti_scrapling.Go.{
  true, false, none, some, List, [], ◌∷◌, Bytes, codes, text_eq, Assoc, ℤ, pos, if◌then◌else◌,
}
use anti_scrapling.Types.{Signal, PolicyConfig, PolicyRule, MatchValue}
use anti_scrapling.Http.{RequestContext}
use anti_scrapling.Decision.{RequestInfo}
use anti_scrapling.Policy.Evaluator.{Cel, CelValue, CelOutcome, failed, bool}

abbrev pub signal : Bytes → ℤ → Signal
signal name score = record { name = name; score = score; reason = []; detail = [] }

abbrev pub info : RequestInfo
info = record {
  method = codes "GET";
  path = codes "/";
  host = codes "a.test";
  user_agent = codes "curl/8";
  remote_ip = codes "10.0.0.1";
  ja3 = [];
  ja4 = [];
  ip_category = [];
}

abbrev pub rule : Bytes → Assoc MatchValue → Bytes → PolicyRule
rule name match action = record { name = name; match = match; action = action; reason = [] }

abbrev pub rules : List PolicyRule
rules =
    rule (codes "broken") ((codes "expr", MatchValue.text (codes "false")) ∷ []) (codes "challenge")
    ∷ rule (codes "all") [] (codes "deny")
    ∷ []

abbrev pub config_with : List PolicyRule → Assoc ℤ → PolicyConfig
config_with rs weights = record {
  version = pos 1;
  listener = record { bind = codes ":8080"; target = codes "http://up"; tls = none };
  token = record { secret_file = codes "key"; ttl = codes "1h"; bind_to = codes "ip" ∷ [] };
  policy = record { default = codes "allow"; rules = rs };
  scoring = record { weights = weights; challenge_threshold = pos 40; deny_threshold = pos 80 };
  challenge = record { pow_difficulty = pos 4; collect_fingerprint = true };
  cache = record { backend = codes "memory"; redis = none; ttl_seconds = pos 60 };
}

abbrev pub config : PolicyConfig
config = config_with rules ((codes "tor_exit", pos 50) ∷ [])

-- A CEL of two programs, `true` and `false`; any other text compiles to one that fails.
abbrev pub eval_text : Bytes → Assoc CelValue → CelOutcome
unfolding text_eq
eval_text prog activation =
    if text_eq prog (codes "true")
    then bool true
    else if text_eq prog (codes "false")
    then bool false
    else failed

abbrev pub cel : Cel
cel = record { Program = Bytes; has_env = true; compile = some; eval = eval_text; quote = λ s. s }

abbrev pub request : Bytes → RequestContext
request method = record {
  request = some (record {
    method = method;
    host = codes "a.test";
    remote_addr = codes "10.0.0.1:443";
    headers = [];
    path = some (codes "/");
    proto_major = 1;
    proto_minor = 1;
    frame_bytes = none;
  });
  remote_ip = codes "10.0.0.1";
  client_hello = [];
  ja3 = [];
  ja4 = [];
  headers = [];
  header_order = [];
  frame_bytes = none;
}
