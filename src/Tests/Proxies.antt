-- ===== src/Tests/Proxies.antt =====
-- The reverse proxy on concrete requests.
use anti_scrapling.Go.{
  ◌≡◌, refl, true, ◌||◌, if◌then◌else◌, none, some, [], ◌∷◌, codes, text_eq, lookup, delete, store,
  trim_space, split_on, header_set, header_del, canonical_key, all_token_bytes,
}
use anti_scrapling.Proxy.{
  Url, Outgoing, hop_by_hop_headers, connection_fields, strip_hop_by_hop, del_all, fields_of,
  listed_fields, with_user_agent, director,
}
use anti_scrapling.Proxy.Stripped.{names}
use anti_scrapling.Proxy.Directed.{user_agent_or_empty, director_headers}

abbrev target : Url
target = record { scheme = codes "http"; host = codes "up"; path = codes "/api/"; raw_query = [] }

abbrev sent : Outgoing
sent = record {
  url = record { scheme = []; host = []; path = codes "/a"; raw_query = codes "q=1" };
  host = codes "shop.test";
  headers =
      (codes "Connection", codes "close, X-Secret" ∷ [])
      ∷ (codes "X-Secret", codes "1" ∷ [])
      ∷ (codes "Te", codes "trailers" ∷ [])
      ∷ (codes "X-Forwarded-Host", codes "evil" ∷ [])
      ∷ (codes "Accept", codes "*/*" ∷ [])
      ∷ [];
  tls = true;
}

stripped :
    (director target sent).headers
    ≡ (codes "X-Forwarded-Host", codes "shop.test" ∷ [])
      ∷ (codes "Accept", codes "*/*" ∷ [])
      ∷ (codes "User-Agent", [] ∷ [])
      ∷ (codes "X-Forwarded-Proto", codes "https" ∷ [])
      ∷ []
unfolding director with_user_agent strip_hop_by_hop del_all connection_fields listed_fields
    fields_of split_on trim_space header_set header_del canonical_key all_token_bytes lookup store
    delete text_eq
stripped = refl

director_headers_example : lookup (codes "Accept") (director target sent).headers ≡ (
    if text_eq (codes "X-Forwarded-Host") (codes "Accept")
    then some (codes "shop.test" ∷ [])
    else if text_eq (codes "X-Forwarded-Proto") (codes "Accept")
    then some (codes "https" ∷ [])
    else if names (codes "Accept") hop_by_hop_headers
        || names (codes "Accept") (connection_fields (with_user_agent sent.headers))
    then none
    else if text_eq (codes "User-Agent") (codes "Accept")
    then some (user_agent_or_empty (lookup (codes "User-Agent") sent.headers))
    else lookup (codes "Accept") sent.headers)
director_headers_example = director_headers target sent (codes "Accept")
