-- ===== src/Headers/Proxied.antt =====
-- What the header collector says of the requests that come through the proxy.
use anti_scrapling.Go.{◌≡◌, refl, ap, Option, some, List, [], ◌∷◌, ◌++◌, Bytes, codes, Assoc, pos}
use anti_scrapling.Types.{Signal}
use anti_scrapling.Http.{HttpRequest, header_get}
use anti_scrapling.Headers.Order.{
  is_order_anomaly, matches_any_canonical, matches_one, subsequence_score,
}
use anti_scrapling.Headers.Referer.{RefererTracker, observe_referer}
use anti_scrapling.Headers.Collector.{when_found, other_signals, collect_from, collect}
use anti_scrapling.Daemon.Handler.{build_request_context, remote_host}

abbrev pub order_anomaly : Signal
order_anomaly = record {
  name = codes "header_order_anomaly";
  score = pos 20;
  reason = codes "fewer than 8 headers and no browser canonical pattern matched";
  detail = [];
}

no_order : (lower : Bytes → Bytes) → is_order_anomaly lower [] ≡ some order_anomaly.reason
unfolding is_order_anomaly matches_any_canonical matches_one subsequence_score
no_order lower = refl

in_front :
    (found : Option Bytes) (others : List Signal)
    → found ≡ some order_anomaly.reason
    → when_found found (codes "header_order_anomaly") 20 ++ others ≡ order_anomaly ∷ others
unfolding when_found
in_front found others h = rw h refl

-- Every request that comes through the proxy raises header_order_anomaly, whatever headers it has
-- and in whatever order the client sent them; the other signals follow.
pub collect-build_request_context :
    (lower : Bytes → Bytes) (in_range : Assoc Bytes → Assoc Bytes) (url_host : Bytes → Option Bytes)
    (r : HttpRequest) (capture : Option Bytes) (t : RefererTracker)
    → let (google, t') =
        observe_referer lower url_host (remote_host r) (header_get (codes "Referer") r.headers) t in
      collect lower in_range url_host (build_request_context r capture) t
      ≡ some (order_anomaly ∷ other_signals lower in_range r google, t')
unfolding collect collect_from build_request_context
collect-build_request_context lower in_range url_host r capture t =
    let (google, t') =
      observe_referer lower url_host (remote_host r) (header_get (codes "Referer") r.headers) t in
    ap (λ signals. some (signals, t'))
      (in_front (is_order_anomaly lower []) (other_signals lower in_range r google)
        (no_order lower))
