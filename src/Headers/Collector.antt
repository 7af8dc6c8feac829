-- ===== src/Headers/Collector.antt =====
-- internal/signal/headers/collector.go.
use anti_scrapling.Go.{
  Bool, if◌then◌else◌, Option, none, some, List, [], ◌∷◌, ◌++◌, Bytes, codes, Assoc, pos, ℕ,
}
use anti_scrapling.Types.{Signal}
use anti_scrapling.Http.{HttpRequest, RequestContext, header_get}
use anti_scrapling.Headers.Order.{is_order_anomaly}
use anti_scrapling.Headers.ClientHints.{check_uach_consistency}
use anti_scrapling.Headers.SecFetch.{validate_sec_fetch, detect_browser_forge_quirk}
use anti_scrapling.Headers.Referer.{RefererTracker, new_referer_tracker, observe_referer}

-- The state of the collector that `NewCollector` returns.
unfoldable pub new_collector : RefererTracker
unfolding new_referer_tracker
new_collector = new_referer_tracker 100 80

-- `if found, reason := ...; found { out = append(out, ...) }`
unfoldable pub when_found : Option Bytes → Bytes → ℕ → List Signal
when_found none name score = []
when_found (some reason) name score =
    record { name = name; score = pos score; reason = reason; detail = [] } ∷ []

abbrev pub found_if : Bool → Option Bytes
found_if raised =
    if raised
    then some (codes "Google referer ratio exceeds 80% over the last 100 requests from this IP")
    else none

module _ (lower : Bytes → Bytes) (in_range : Assoc Bytes → Assoc Bytes) where
  -- The signals that follow the one for the order, `google` being the answer of the tracker.
  unfoldable pub other_signals : HttpRequest → Bool → List Signal
  unfolding when_found check_uach_consistency validate_sec_fetch detect_browser_forge_quirk
  other_signals r google =
      when_found (check_uach_consistency lower in_range r.headers) (codes "ua_ch_mismatch") 25
      ++ (when_found (validate_sec_fetch r.headers) (codes "secfetch_invalid") 15
          ++ (when_found (detect_browser_forge_quirk r.headers) (codes "browserforge_quirk") 40
              ++ when_found (found_if google) (codes "google_referer_anomaly") 10))

module _ (lower : Bytes → Bytes) (in_range : Assoc Bytes → Assoc Bytes)
    (url_host : Bytes → Option Bytes) where
  unfoldable pub collect_from :
      RequestContext → HttpRequest → RefererTracker → List Signal × RefererTracker
  unfolding when_found is_order_anomaly other_signals observe_referer header_get
  collect_from ctx r t =
      let (google, t') =
        observe_referer lower url_host ctx.remote_ip (header_get (codes "Referer") r.headers) t in
      (
        when_found (is_order_anomaly lower ctx.header_order) (codes "header_order_anomaly") 20
            ++ other_signals lower in_range r google,
        t',
      )

  -- `none` is the panic of a context without a request.
  unfoldable pub collect : RequestContext → RefererTracker → Option (List Signal × RefererTracker)
  unfolding collect_from
  collect ctx t = elim ctx.request [ none ↦ none | some r ↦ some (collect_from ctx r t) ]
