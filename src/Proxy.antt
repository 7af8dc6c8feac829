-- ===== src/Proxy.antt =====
-- internal/proxy: headers.go, and what proxy.go does to a request before it is forwarded.
pub mod Stripped
pub mod Directed
use anti_scrapling.Go.{
  ℕ, ◌==◌, ◌*◌, ◌^◌, Bool, true, false, ◌&&◌, ◌||◌, not, if◌then◌else◌, Option, none, some, List,
  [], ◌∷◌, ◌++◌, Bytes, codes, text_eq, Assoc, lookup, trim_space, split_on, header_set, header_del,
}
use anti_scrapling.Token.Cookie.{CookieToSet, set_cookie, default_cookie_name}

abbrev pub hop_by_hop_headers : List Bytes
hop_by_hop_headers =
    codes "Connection"
    ∷ codes "Keep-Alive"
    ∷ codes "Proxy-Authenticate"
    ∷ codes "Proxy-Authorization"
    ∷ codes "TE"
    ∷ codes "Trailers"
    ∷ codes "Transfer-Encoding"
    ∷ codes "Upgrade"
    ∷ []

unfoldable pub del_all : List Bytes → Assoc (List Bytes) → Assoc (List Bytes)
unfolding header_del
del_all [] h = h
del_all (name ∷ names) h = del_all names (header_del name h)

-- The trimmed fields of a value that are not empty.
unfoldable pub fields_of : List Bytes → List Bytes
unfolding trim_space text_eq
fields_of [] = []
fields_of (field ∷ fields) =
    let f = trim_space field in
    let rest = fields_of fields in if text_eq f [] then rest else f ∷ rest

unfoldable pub listed_fields : List Bytes → List Bytes
unfolding fields_of split_on
listed_fields [] = []
listed_fields (v ∷ vs) = fields_of (split_on b',' v) ++ listed_fields vs

abbrev values_or_none : Option (List Bytes) → List Bytes
values_or_none none = []
values_or_none (some vs) = vs

-- The names that the Connection header lists.
unfoldable pub connection_fields : Assoc (List Bytes) → List Bytes
unfolding listed_fields lookup
connection_fields h = listed_fields (values_or_none (lookup (codes "Connection") h))

unfoldable pub strip_hop_by_hop : Assoc (List Bytes) → Assoc (List Bytes)
unfolding del_all connection_fields
strip_hop_by_hop h = del_all hop_by_hop_headers (del_all (connection_fields h) h)

-- `strings.HasSuffix(a, "/")` and `strings.HasPrefix(b, "/")`.
unfoldable pub ends_in_slash : Bytes → Bool
ends_in_slash [] = false
ends_in_slash (c ∷ []) = c == b'/'
ends_in_slash (c ∷ d ∷ s) = ends_in_slash (d ∷ s)

unfoldable pub starts_with_slash : Bytes → Bool
starts_with_slash [] = false
starts_with_slash (c ∷ s) = c == b'/'

abbrev pub tail : Bytes → Bytes
tail [] = []
tail (c ∷ s) = s

unfoldable pub join_path : Bytes → Bytes → Bytes
unfolding ends_in_slash starts_with_slash text_eq
join_path a b =
    if ends_in_slash a && starts_with_slash b
    then a ++ tail b
    else if not (ends_in_slash a) && not (starts_with_slash b)
    then if text_eq a [] then b else a ++ (codes "/" ++ b)
    else a ++ b

-- The fields of a URL that the director reads and sets.
pub record Url : Type 0 where
  pub scheme : Bytes
  pub host : Bytes
  pub path : Bytes
  pub raw_query : Bytes

-- `tls` says whether the request came over TLS.
pub record Outgoing : Type 0 where
  pub url : Url
  pub host : Bytes
  pub headers : Assoc (List Bytes)
  pub tls : Bool

unfoldable pub join_query : Bytes → Bytes → Bytes
join_query [] query = query
join_query (c ∷ target) [] = c ∷ target
join_query (c ∷ target) (d ∷ query) = (c ∷ target) ++ (codes "&" ++ (d ∷ query))

-- An empty User-Agent keeps net/http from adding its own.
abbrev pub set_absent : Option (List Bytes) → Assoc (List Bytes) → Assoc (List Bytes)
set_absent (some values) h = h
set_absent none h = header_set (codes "User-Agent") [] h

unfoldable pub with_user_agent : Assoc (List Bytes) → Assoc (List Bytes)
unfolding lookup header_set
with_user_agent h = set_absent (lookup (codes "User-Agent") h) h

unfoldable pub director : Url → Outgoing → Outgoing
unfolding join_path join_query with_user_agent strip_hop_by_hop header_set
director target req = record {
  url = record {
    scheme = target.scheme;
    host = target.host;
    path = join_path target.path req.url.path;
    raw_query = join_query target.raw_query req.url.raw_query;
  };
  host = target.host;
  headers = header_set (codes "X-Forwarded-Host") req.host (
      header_set (codes "X-Forwarded-Proto") (if req.tls then codes "https" else codes "http")
        (strip_hop_by_hop (with_user_agent req.headers)));
  tls = req.tls;
}

-- What `Forward` does: a cookie for a token that is not empty, and the request that goes out.
unfoldable pub forward : Url → Outgoing → Bytes → Option CookieToSet × Outgoing
unfolding director set_cookie
forward target req [] = (none, director target req)
forward target req (c ∷ pass_token) = (
  some (set_cookie default_cookie_name (c ∷ pass_token) (3600 * 10 ^ 9) req.tls),
  director target req,
)
