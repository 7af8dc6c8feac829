-- ===== src/Http.antt =====
-- What the program reads of net/http's requests, and internal/types/request.go.
use anti_scrapling.Go.{ℕ, Option, none, some, List, [], ◌∷◌, Bytes, codes, Assoc, lookup}

-- `headers` maps canonical names to their values; `path` is `URL.Path`, `none` with no URL.
-- `frame_bytes` is what `WithFrameBytes` has put on the request's context.
pub record HttpRequest : Type 0 where
  pub method : Bytes
  pub host : Bytes
  pub remote_addr : Bytes
  pub headers : Assoc (List Bytes)
  pub path : Option Bytes
  pub proto_major : ℕ
  pub proto_minor : ℕ
  pub frame_bytes : Option Bytes

-- `Header.Get` at a canonical name.
unfoldable pub header_get : Bytes → Assoc (List Bytes) → Bytes
header_get name headers = elim (lookup name headers) [
  | none ↦ []
  | some [] ↦ []
  | some (v ∷ vs) ↦ v
]

-- `Request.UserAgent`
unfoldable pub user_agent : HttpRequest → Bytes
user_agent r = header_get (codes "User-Agent") r.headers

-- `frame_bytes` is what `WithFrameBytes` has put on the context `Ctx`.
pub record RequestContext : Type 0 where
  pub request : Option HttpRequest
  pub remote_ip : Bytes
  pub client_hello : Bytes
  pub ja3 : Bytes
  pub ja4 : Bytes
  pub headers : Assoc (List Bytes)
  pub header_order : List Bytes
  pub frame_bytes : Option Bytes
