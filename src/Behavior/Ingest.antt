-- ===== src/Behavior/Ingest.antt =====
-- internal/signal/behavior/ingest.go.
use anti_scrapling.Go.{
  Bool, if◌then◌else◌, Option, none, some, List, [], ◌∷◌, map, Bytes, text_eq, ℤ, pos, ltb_ℤ,
  Result, ok, err,
}
use anti_scrapling.Fingerprint.Probes.{sub64}
use anti_scrapling.Behavior.{BehaviorBeacon, ScrollMetrics}

-- What Ingest reads of the wire format.
pub record RawClick : Type 0 where
  pub x : ℤ
  pub y : ℤ
  pub timestamp_ms : ℤ
  pub target_tag : Bytes
  pub delay_since_prev : ℤ

pub record RawBeacon (F : Type 0) : Type 0 where
  pub session_id : Bytes
  pub page_url : Bytes
  pub page_visible : Bool
  pub visit_duration_ms : ℤ
  pub scroll : ScrollMetrics
  pub move_events : ℤ
  pub click_events : ℤ
  pub jitter_mean_px : F
  pub clicks : List RawClick
  pub key_events : ℤ
  pub css : ℤ
  pub fonts : ℤ
  pub images : ℤ
  pub scripts : ℤ
  pub hidden_duration_ms : ℤ

pub data IngestError : Type 0 where
  empty_payload bad_json missing_session_id read_failed : IngestError

-- `float_zero` is the float 0 and `now` the clock in milliseconds.
module _ {F : Type 0} (float_zero : F) where
  unfoldable pub beacon_of : ℤ → RawBeacon F → BehaviorBeacon F
  unfolding sub64
  beacon_of now raw =
      let left = sub64 raw.visit_duration_ms raw.hidden_duration_ms in
      record {
        session_id = raw.session_id;
        timestamp = now;
        mouse = record {
          move_count = raw.move_events;
          path_length = float_zero;
          avg_velocity = float_zero;
          jitter_index = raw.jitter_mean_px;
          clicks = raw.click_events;
          click_intervals_ms = map (λ c. c.delay_since_prev) raw.clicks;
        };
        scroll = raw.scroll;
        visibility = record {
          hidden_ms = raw.hidden_duration_ms;
          visible_ms = if ltb_ℤ left (pos 0) then pos 0 else left;
        };
        resource_fetches = record {
          css = raw.css;
          image = raw.images;
          font = raw.fonts;
          script = raw.scripts;
          xhr = pos 0;
        };
      }

  -- `unmarshal` is json.Unmarshal into a rawBeacon.
  unfoldable pub ingest :
      (Bytes → Option (RawBeacon F)) → ℤ → Bytes → Result IngestError (BehaviorBeacon F)
  unfolding beacon_of text_eq
  ingest unmarshal now [] = err empty_payload
  ingest unmarshal now (c ∷ body) = elim (unmarshal (c ∷ body)) [
    | none ↦ err bad_json
    | some raw ↦
        if text_eq raw.session_id [] then err missing_session_id else ok (beacon_of now raw)
  ]
