-- ===== src/Decision.antt =====
-- internal/decision/combine.go: signals, weights, thresholds, token and policy make one decision.
pub mod Score
pub mod Order
pub mod Answer
use anti_scrapling.Go.{
  ℕ, ◌+◌, ◌≡◌, Bool, true, false, ◌&&◌, not, Option, none, some, List, [], ◌∷◌, map, ltb, leb,
  if◌then◌else◌, length, Bytes, codes, text_eq, Assoc, lookup, store, ℤ, pos, negsuc, ltb_ℤ, leb_ℤ,
  add64,
}
use anti_scrapling.Types.{Verdict, allow, challenge, deny, Signal, Decision, PolicyConfig}

abbrev pub default_deny_threshold : ℤ
default_deny_threshold = pos 80

abbrev pub default_challenge_threshold : ℤ
default_challenge_threshold = pos 50

-- `Action` is a string type: a rule may hold any string.
abbrev pub Action : Type 0
Action = Bytes

abbrev pub action_allow : Action
action_allow = codes "allow"

abbrev pub action_challenge : Action
action_challenge = codes "challenge"

abbrev pub action_deny : Action
action_deny = codes "deny"

abbrev pub action_none : Action
action_none = []

pub record EvalResult : Type 0 where
  pub action : Action
  pub rule_name : Bytes

pub record RequestInfo : Type 0 where
  pub method : Bytes
  pub path : Bytes
  pub host : Bytes
  pub user_agent : Bytes
  pub remote_ip : Bytes
  pub ja3 : Bytes
  pub ja4 : Bytes
  pub ip_category : Bytes

pub record EvalCtx : Type 0 where
  pub score : ℤ
  pub signals : Assoc Signal
  pub request_info : RequestInfo
  pub has_valid_token : Bool

-- `if w, ok := policy.Scoring.Weights[sig.Name]; ok { weighted[i].Score = w }`
unfoldable pub reweight : Assoc ℤ → Signal → Signal
reweight weights s = elim (lookup s.name weights) [ none ↦ s | some w ↦ record s { score = w } ]

unfoldable pub weigh : Option PolicyConfig → List Signal → List Signal
weigh none signals = signals
weigh (some p) signals =
    if ltb 0 (length p.scoring.weights) then map (reweight p.scoring.weights) signals else signals

-- `total += sig.Score`
unfoldable pub sum_scores : ℤ → List Signal → ℤ
sum_scores total [] = total
sum_scores total (s ∷ ss) = sum_scores (add64 total s.score) ss

unfoldable pub clamp : ℤ → ℤ
clamp total =
    let floored = if ltb_ℤ total (pos 0) then pos 0 else total in
    if ltb_ℤ (pos 100) floored then pos 100 else floored

unfoldable pub deny_threshold : Option PolicyConfig → ℤ
deny_threshold none = default_deny_threshold
deny_threshold (some p) =
    if ltb_ℤ (pos 0) p.scoring.deny_threshold
    then p.scoring.deny_threshold
    else default_deny_threshold

unfoldable pub challenge_threshold : Option PolicyConfig → ℤ
challenge_threshold none = default_challenge_threshold
challenge_threshold (some p) =
    if ltb_ℤ (pos 0) p.scoring.challenge_threshold
    then p.scoring.challenge_threshold
    else default_challenge_threshold

unfoldable pub eval_decision : ℕ → Action → Bytes → ℤ → List Signal → Decision
eval_decision now action rule_name score signals = record {
  verdict =
      if text_eq action action_allow
      then allow
      else if text_eq action action_deny
      then deny
      else challenge;
  score = score;
  signals = signals;
  reasons = rule_name ∷ [];
  policy_name = rule_name;
  timestamp = now;
  request_id = [];
}

unfoldable pub token_bypass : ℕ → ℤ → List Signal → Decision
token_bypass now score signals = record {
  verdict = allow;
  score = score;
  signals = signals;
  reasons = codes "token_bypass" ∷ [];
  policy_name = codes "token_bypass";
  timestamp = now;
  request_id = [];
}

-- A decision by threshold, with no reason given.
abbrev by_threshold : Verdict → Bytes → ℕ → ℤ → List Signal → Decision
by_threshold verdict policy_name now score signals = record {
  verdict = verdict;
  score = score;
  signals = signals;
  reasons = [];
  policy_name = policy_name;
  timestamp = now;
  request_id = [];
}

-- The switch at the end.
unfoldable pub threshold_decision : ℕ → ℤ → ℤ → ℤ → List Signal → Decision
threshold_decision now deny_at challenge_at score signals =
    if leb_ℤ deny_at score
    then by_threshold deny (codes "threshold_deny") now score signals
    else if leb_ℤ challenge_at score
    then by_threshold challenge (codes "threshold_challenge") now score signals
    else by_threshold allow (codes "threshold_allow") now score signals

-- `sigMap[s.Name] = s`, in order: the last signal of a name stays.
unfoldable pub signal_map : Assoc Signal → List Signal → Assoc Signal
signal_map m [] = m
signal_map m (s ∷ ss) = signal_map (store s.name s m) ss

-- The policy's answer, where there is an evaluator and it has one.
unfoldable pub policy_answer : Option (EvalCtx → EvalResult) → EvalCtx → Option EvalResult
policy_answer none ctx = none
policy_answer (some eval) ctx =
    if text_eq (eval ctx).action action_none then none else some (eval ctx)

-- `if result := evalFn(ctx); result.Action != ActionNone { … }`, and the switch behind it.
unfoldable pub settle : ℕ → ℤ → ℤ → ℤ → List Signal → Option EvalResult → Decision
settle now deny_at challenge_at total weighted (some result) =
    eval_decision now result.action result.rule_name total weighted
settle now deny_at challenge_at total weighted none =
    threshold_decision now deny_at challenge_at total weighted

-- `now` is what the call of `time.Now().UnixNano()` on the path taken returns.
unfoldable pub combine :
    ℕ
    → List Signal
    → Option PolicyConfig
    → RequestInfo
    → Bool
    → Option (EvalCtx → EvalResult)
    → Decision
combine now signals policy request_info has_valid_token eval_fn =
    let weighted = weigh policy signals in
    let total = clamp (sum_scores (pos 0) weighted) in
    let deny_at = deny_threshold policy in
    let challenge_at = challenge_threshold policy in
    let ctx : EvalCtx = record {
      score = total;
      signals = signal_map [] weighted;
      request_info = request_info;
      has_valid_token = has_valid_token;
    } in
    if has_valid_token && ltb_ℤ total deny_at
    then token_bypass now total weighted
    else settle now deny_at challenge_at total weighted (policy_answer eval_fn ctx)
