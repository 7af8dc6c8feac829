-- ===== src/Tests/Beacons.antt =====
-- The beacon store on concrete beacons, which are numbers in place of telemetry.
use anti_scrapling.Types.{DetailValue}
use anti_scrapling.Behavior.{
  BehaviorBeacon, run_checkers, check_resource_block, check_mouse_jitter, check_click_timing,
  check_intervals, all_in_band, check_visibility, five_times,
}
use anti_scrapling.Behavior
use anti_scrapling.Behavior.Quiet.{Outside, score-quiet_iff}
use anti_scrapling.Go.{
  Bool, Bytes, List, [], arith, codes, false, length, none, pos, refl, some, text_eq, wrap64, ℕ,
  ◌+ℤ◌, ◌↔◌, ◌∷◌, ◌≡◌, ◌≢◌, ◌≤ℤ◌, ◌≤◌, ◌⊎◌,
}
use anti_scrapling.Http.{HttpRequest}
use anti_scrapling.Challenge.Beacons.{beacon_max_per_key, new_beacon_store, ingest_from_request}
use anti_scrapling.Challenge.Beacons.Window.{BeaconCall, IsYoung, run, ingest_from_request-window}

abbrev session : ℕ → Bytes
session b = b ∷ []

abbrev post : HttpRequest
post = record {
  method = codes "POST";
  host = codes "h";
  remote_addr = codes "10.0.0.1:80";
  headers = [];
  path = some (codes "/b");
  proto_major = 1;
  proto_minor = 1;
  frame_bytes = none;
}

abbrev calls : List (BeaconCall ℕ session)
calls =
    record { at = 20; request = post; body = some 7 }
    ∷ record { at = 21; request = post; body = none }
    ∷ []

ingest_from_request-window_example :
    let s =
      ingest_from_request ℕ session 30 post 5 (run ℕ session calls (new_beacon_store ℕ session)) in
    (length (s.by_session (session 5)) ≤ beacon_max_per_key)
    × (length (s.by_ip (session 5)) ≤ beacon_max_per_key)
    × IsYoung ℕ session 30 (s.by_session (session 5))
    × IsYoung ℕ session 30 (s.by_ip (session 5))
ingest_from_request-window_example =
    ingest_from_request-window ℕ session calls 30 post 5 (session 5)

seven : (b : ℕ) → some 7 ≡ some b → text_eq (session b) (session 5) ≡ false
unfolding text_eq
seven b e = ground (arith, e)

nothing : (b : ℕ) → none ≡ some b → text_eq (session b) (session 5) ≡ false
nothing b e = absurd (ground (arith, e))

abbrev smooth : ℕ → Bool
smooth jitter = false

abbrev no_value : ℕ → DetailValue
no_value jitter = DetailValue.text []

-- Clicks at 150 and 900 milliseconds on a page that has fetched a style sheet.
abbrev human : BehaviorBeacon ℕ
human = record {
  session_id = codes "s";
  timestamp = pos 0;
  mouse = record {
    move_count = pos 40;
    path_length = 0;
    avg_velocity = 0;
    jitter_index = 0;
    clicks = pos 2;
    click_intervals_ms = pos 150 ∷ pos 900 ∷ [];
  };
  scroll = record { events = pos 0; max_y = pos 0 };
  visibility = record { hidden_ms = pos 10; visible_ms = pos 20 };
  resource_fetches = record {
    css = pos 1;
    image = pos 0;
    font = pos 0;
    script = pos 0;
    xhr = pos 0;
  };
}

nothing_raised : Behavior.score smooth no_value human ≡ []
unfolding Behavior.score run_checkers check_resource_block check_mouse_jitter check_click_timing
    check_intervals all_in_band check_visibility five_times wrap64 ◌+ℤ◌
nothing_raised = refl

score-quiet_iff_example : (Behavior.score smooth no_value human ≡ []) ↔ (
    ((pos 1 ≢ pos 0) ⊎ ((pos 0 ≢ pos 0) ⊎ (pos 0 ≢ pos 0)))
    × ((smooth 0 ≡ false) ⊎ (pos 40 ≤ℤ pos 10))
    × ((human.mouse.click_intervals_ms ≡ []) ⊎ Outside human.mouse.click_intervals_ms)
    × ((pos 10 ≡ pos 0) ⊎ (pos 10 ≤ℤ pos 20 +ℤ pos 20 +ℤ pos 20 +ℤ pos 20 +ℤ pos 20)))
score-quiet_iff_example = score-quiet_iff smooth no_value human (omega arith) (omega arith)
