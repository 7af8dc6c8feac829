-- ===== src/Api.antt =====
-- internal/api/decide.go: the decision for a request that an SDK adapter describes.
pub mod Decided
pub mod Tokens
use anti_scrapling.Go.{
  ℕ, ◌==◌, ◌^◌, ltb, Bool, true, false, ◌&&◌, not, if◌then◌else◌, Option, none, some, List, [], ◌∷◌,
  Bytes, codes, text_eq, Assoc, lookup, header_set, all_token_bytes, Result, ok, err, ◌>>=◌, ◌>>◌,
  guard,
}
use anti_scrapling.Types.{Decision}
use anti_scrapling.Http.{HttpRequest, RequestContext}
use anti_scrapling.Policy.Evaluator.{Cel}
use anti_scrapling.Cache.{Cache}
use anti_scrapling.Pipeline.{Codec, PipelineConfig, Times, decide}
use anti_scrapling.Token.Binding.{VerifyContext}
use anti_scrapling.Token.Issuer.{Jwt}
use anti_scrapling.Token.Verifier.{Verifier}
use anti_scrapling.Daemon.Handler.{is_verified, token_verifies}

-- internal/types/decision_request.go. `headers` are in the order in which the loop ranges over the
-- map.
pub record DecisionRequest : Type 0 where
  pub method : Bytes
  pub path : Bytes
  pub host : Bytes
  pub remote_ip : Bytes
  pub headers : Assoc Bytes
  pub header_order : List Bytes
  pub ja3 : Bytes
  pub ja4 : Bytes
  pub token : Bytes

-- The errors that the handler writes: 405, 400 for the next three, 500.
pub data ApiError : Type 0 where
  method_not_allowed empty_body bad_body remote_ip_required no_request : ApiError

abbrev pub or_default : Bytes → Bytes → Bytes
or_default [] given = given
or_default (c ∷ value) given = c ∷ value

-- The body: none at all, or what the decoder makes of it.
pub data Body : Type 0 where
  missing undecodable : Body
  decoded : DecisionRequest → Body

abbrev pub read_body : Body → Result ApiError DecisionRequest
read_body missing = err empty_body
read_body undecodable = err bad_body
read_body (decoded req) = ok req

unfoldable pub set_headers : Assoc Bytes → Assoc (List Bytes) → Assoc (List Bytes)
unfolding header_set
set_headers [] header = header
set_headers ((k, v) ∷ headers) header = set_headers headers (header_set k v header)

abbrev pub value_or_empty : Option Bytes → Bytes
value_or_empty none = []
value_or_empty (some v) = v

-- `http.NewRequestWithContext`: a method of token bytes, and a path that `parse_path` accepts,
-- which is `url.Parse` on the escaped path.
unfoldable pub synthetic_request :
    (Bytes → Option Bytes) → DecisionRequest → Result ApiError HttpRequest
unfolding all_token_bytes set_headers
synthetic_request parse_path req = do
  guard (all_token_bytes (or_default req.method (codes "GET"))) no_request
  elim (parse_path (or_default req.path (codes "/"))) [
    | none ↦ err no_request
    | some path ↦ ok (record {
      method = or_default req.method (codes "GET");
      host = req.host;
      remote_addr = [];
      headers = set_headers req.headers [];
      path = some path;
      proto_major = 1;
      proto_minor = 1;
      frame_bytes = none;
    })
  ]

unfoldable pub request_context : DecisionRequest → HttpRequest → RequestContext
request_context req r = record {
  request = some r;
  remote_ip = req.remote_ip;
  client_hello = [];
  ja3 = req.ja3;
  ja4 = req.ja4;
  headers = r.headers;
  header_order = req.header_order;
  frame_bytes = none;
}

-- The User-Agent under that very spelling.
unfoldable pub verify_context : DecisionRequest → VerifyContext
unfolding lookup
verify_context req = record {
  ip = req.remote_ip;
  ua = value_or_empty (lookup (codes "User-Agent") req.headers);
  ja3 = req.ja3;
  ja4 = req.ja4;
}

-- `id` and `now` are what the generator and the clock give, if they are asked.
unfoldable pub with_id : Bytes → ℕ → Decision → Decision
with_id id now d = record d {
  request_id = or_default d.request_id id;
  timestamp = if d.timestamp == 0 then now else d.timestamp;
}

-- The request that is decided on, or the error. `parse_path` is as in `synthetic_request`.
unfoldable pub accept :
    (Bytes → Option Bytes) → Bytes → Body → Result ApiError (DecisionRequest × HttpRequest)
unfolding text_eq synthetic_request
accept parse_path method body = do
  guard (text_eq method (codes "POST")) method_not_allowed
  req ← read_body body
  guard (not (text_eq req.remote_ip [])) remote_ip_required
  r ← synthetic_request parse_path req
  ok (req, r)

module _ (jwt : Jwt) (unicode : Bytes → Bytes → Bool) where
  unfoldable pub has_valid_token : Option Verifier → ℕ → DecisionRequest → Bool
  unfolding token_verifies verify_context
  has_valid_token none now req = false
  has_valid_token (some v) now req = token_verifies jwt unicode v now (verify_context req) req.token

  module _ (cel : Cel) (cache : Cache) (codec : Codec) (parse_path : Bytes → Option Bytes) where
    pub record DecideHandler : Type 0 where
      pub pipeline : PipelineConfig cel cache codec
      pub verifier : Option Verifier

    -- What is done with a request that is accepted: `now` is the verifier's reading of the clock,
    -- `id` and `stamp` are as in `with_id`.
    unfoldable pub respond :
        DecideHandler
        → ℕ
        → Times cel cache codec
        → List ℕ
        → Bytes
        → ℕ
        → cache.State
        → Result ApiError (DecisionRequest × HttpRequest)
        → Result ApiError Decision × cache.State
    unfolding request_context has_valid_token with_id
    respond h now t schedule id stamp s (err e) = (err e, s)
    respond h now t schedule id stamp s (ok (req, r)) =
        let (d, s') =
          decide cel cache codec h.pipeline t schedule (request_context req r)
            (has_valid_token h.verifier now req) s in
        (ok (with_id id stamp d), s')

    unfoldable pub serve_http :
        DecideHandler
        → ℕ
        → Times cel cache codec
        → List ℕ
        → Bytes
        → ℕ
        → Bytes
        → Body
        → cache.State
        → Result ApiError Decision × cache.State
    unfolding accept respond
    serve_http h now t schedule id stamp method body s =
        respond h now t schedule id stamp s (accept parse_path method body)
