-- ===== src/Tests/HeaderChecks.antt =====
-- The checks of headers on concrete requests.
use anti_scrapling.Go.{
  ◌≡◌, ◌↔◌, ◌⊎◌, refl, true, false, Option, none, some, List, [], ◌∷◌, Bytes, codes, Assoc, map,
  to_lower, take, drop, arith, text_eq, has_prefix, is_ascii, store,
}
use anti_scrapling.Http.{header_get}
use anti_scrapling.Headers.Order.{
  matches_any_canonical, matches_one, subsequence_score, chrome_order, firefox_order, safari_order,
}
use anti_scrapling.Headers.Order.Matches.{Subsequence, matches_any_canonical_iff}
use anti_scrapling.Headers.ClientHints.{
  chrome_version, leading_digits, parse_sec_ch_ua, brands_in, brand_at, until_quote, store_all,
}
use anti_scrapling.Headers.Referer.{observe, observe_referer, new_ip_window}
use anti_scrapling.Headers.Referer.Last.{observe_all, observe-last_n, last_n}
use anti_scrapling.Headers.Referer.Sliding.{flagged}
use anti_scrapling.Headers.Collector.{new_collector, collect, other_signals}
use anti_scrapling.Headers.Proxied.{order_anomaly, collect-build_request_context}
use anti_scrapling.Daemon.Handler.{build_request_context, remote_host}
use anti_scrapling.Tests.Passes.{post}

abbrev same : Bytes → Bytes
same s = s

abbrev as_stored : Assoc Bytes → Assoc Bytes
as_stored brands = brands

abbrev no_host : Bytes → Option Bytes
no_host url = none

version : chrome_version (codes "Mozilla Chrome/ Chrome/131.0") ≡ some (codes "131")
unfolding chrome_version leading_digits has_prefix
version = refl

brands :
    parse_sec_ch_ua (codes "\"Chromium\";v=\"131\", \"Not A\";v=\"24\"")
    ≡ (codes "Chromium", codes "131") ∷ (codes "Not A", codes "24") ∷ []
unfolding parse_sec_ch_ua brands_in brand_at until_quote leading_digits has_prefix store_all store
    text_eq
brands = refl

-- Safari's own order with two more names.
abbrev sent : List Bytes
sent = codes "Host" ∷ codes "Cookie" ∷ codes "Connection" ∷ codes "Referer" ∷ codes "Accept" ∷ []

known : matches_any_canonical same sent ≡ true
unfolding matches_any_canonical matches_one subsequence_score to_lower is_ascii text_eq
known = refl

-- Chrome's order over HTTP/2, where there is neither Host nor Connection.
unknown : matches_any_canonical same (drop 2 chrome_order) ≡ false
unfolding matches_any_canonical matches_one subsequence_score to_lower is_ascii text_eq
unknown = refl

matches_any_canonical_iff_example : (matches_any_canonical same sent ≡ true) ↔ (
    Subsequence (take 8 chrome_order) (map (to_lower same) sent)
    ⊎ (Subsequence (take 6 firefox_order) (map (to_lower same) sent)
        ⊎ Subsequence (take 3 safari_order) (map (to_lower same) sent)))
matches_any_canonical_iff_example = matches_any_canonical_iff same sent

observe-last_n_example :
    (observe true
      (observe_all (false ∷ true ∷ true ∷ true ∷ true ∷ true ∷ []) (new_ip_window 6 80))).0
    ≡ flagged 80 (last_n 6 (false ∷ true ∷ true ∷ true ∷ true ∷ true ∷ true ∷ []))
observe-last_n_example =
    observe-last_n 6 80 (false ∷ true ∷ true ∷ true ∷ true ∷ true ∷ []) true (omega arith)

collect-build_request_context_example :
    let (google, t') =
      observe_referer same no_host
        (remote_host post)
        (header_get (codes "Referer") post.headers)
        new_collector in
    collect same as_stored no_host (build_request_context post none) new_collector
    ≡ some (order_anomaly ∷ other_signals same as_stored post google, t')
collect-build_request_context_example =
    collect-build_request_context same as_stored no_host post none new_collector
