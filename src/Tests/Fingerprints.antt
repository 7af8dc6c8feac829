-- ===== src/Tests/Fingerprints.antt =====
-- Scoring and refusing fingerprint reports.
use anti_scrapling.Go.{
  ℕ, ◌≤◌, ◌≡◌, ◌≢◌, refl, Bool, true, false, Option, none, some, List, [], ◌∷◌, Bytes, codes, pos,
  map, inl, arith, contains, to_lower, is_ascii, has_prefix,
}
use anti_scrapling.Types.{Signal}
use anti_scrapling.Fingerprint.Report.{FingerprintReport}
use anti_scrapling.Fingerprint.Agents.{
  is_chrome_ua, is_firefox_ua, os_from_ua, os_from_platform, contains_fold,
}
use anti_scrapling.Fingerprint.Navigator.{
  new_signal, when, navigator, platform_mismatch, hardware_trap, webdriver_set, plugins_anomaly,
  vendor_mismatch, oscpu_firefox_only,
}
use anti_scrapling.Fingerprint.Probes.{web_gl, canvas, audio, codecs, fonts, window}
use anti_scrapling.Fingerprint.Page.{
  chrome_runtime, permissions, web_rtc, dom, runtime, speech, service_worker, hairline,
}
use anti_scrapling.Fingerprint.Scorer.{score, run_families, probe_families}
use anti_scrapling.Fingerprint.Catalogue.{Selected, catalogue}
use anti_scrapling.Fingerprint.Total.{points, score-Selected}
use anti_scrapling.Fingerprint.Refused.{handle_verify-automated, handle_verify-iphone}
use anti_scrapling.Challenge.Service.{VerifyRequest, redirect, total_of, handle_verify}
use anti_scrapling.Tests.Challenges.{lru, ids, digest, jwt}
use anti_scrapling.Tests.Passes.{post, service}

abbrev same : Bytes → Bytes
same s = s

abbrev never : Bytes → Bytes → Bool
never s t = false

-- The report of a body that leaves every field out.
abbrev empty : FingerprintReport ℕ
empty = record {
  version = pos 0;
  navigator = record {
    user_agent = [];
    platform = [];
    vendor = [];
    languages = [];
    language = [];
    hardware_concurrency = pos 0;
    device_memory = 0;
    webdriver = false;
    plugins = [];
    mime_types = [];
    oscpu = [];
    product = [];
    product_sub = [];
  };
  webgl = record {
    vendor = [];
    renderer = [];
    unmasked_vendor = [];
    unmasked_renderer = [];
    version = [];
    shading_language_ver = [];
    extensions = [];
    max_texture_size = pos 0;
    max_anisotropy = 0;
  };
  canvas = record { hashes = []; variance = pos 0 };
  audio = record { hashes = []; variance = pos 0 };
  codecs = record { common = []; rare = [] };
  fonts = record { detected_count = pos 0; detected = []; missing_os_bundled = [] };
  window = record {
    inner_width = pos 0;
    inner_height = pos 0;
    outer_width = pos 0;
    outer_height = pos 0;
    screen_width = pos 0;
    screen_height = pos 0;
    device_pixel_ratio = 0;
    color_depth = pos 0;
    pixel_depth = pos 0;
  };
  chrome = record {
    present = false;
    runtime_present = false;
    app_present = false;
    load_times_present = false;
    csi_present = false;
    runtime_connect_error = [];
  };
  permissions = record { notifications_state = []; midi_state = []; camera_state = [] };
  webrtc = record { local_ips = []; public_ip = [] };
  dom = record {
    iframe_content_window_identity = false;
    closed_shadow_root_accessible = false;
    document_element_keys = [];
  };
  runtime = record {
    function_to_string_native = false;
    console_debug_arity = pos 0;
    console_debug_to_string = [];
    eval_length = pos 0;
    error_stack_contains_pw_sig = false;
  };
  speech = record { voices_count = pos 0; voices = [] };
  service_worker = record { registered = false; controller = false; error = [] };
  hairline = record { non_modernizr_result = pos 0 };
  timing = record {
    collection_duration_ms = pos 0;
    navigation_start = pos 0;
    dom_content_loaded = pos 0;
  };
}

abbrev driven : FingerprintReport ℕ
driven = record empty { navigator = record empty.navigator { webdriver = true } }

abbrev phone : FingerprintReport ℕ
phone = record empty {
  navigator = record empty.navigator {
    user_agent = codes "Mozilla/5.0 (iPhone; CPU iPhone OS 17_0 like Mac OS X)";
    platform = codes "iPhone";
    hardware_concurrency = pos 4;
  };
}

abbrev asked : FingerprintReport ℕ → VerifyRequest (FingerprintReport ℕ)
asked report = record {
  pow_solution = codes "s";
  fingerprint_report = report;
  challenge_id = codes "a";
  origin_url = [];
}

abbrev names_of : Option (List Signal) → List Bytes
names_of none = []
names_of (some signals) = map (λ s. s.name) signals

empty_names :
    names_of (score same never empty)
    ≡ codes "webgl_unmasked_missing"
      ∷ codes "webgl_extensions_anomaly"
      ∷ codes "webrtc_no_local_ips"
      ∷ codes "runtime_console_debug_disabled"
      ∷ codes "runtime_to_string_proxy"
      ∷ []
unfolding score run_families probe_families navigator web_gl canvas audio codecs fonts window
    chrome_runtime permissions web_rtc dom runtime speech service_worker hairline when new_signal
    platform_mismatch hardware_trap webdriver_set plugins_anomaly vendor_mismatch oscpu_firefox_only
    os_from_ua os_from_platform is_chrome_ua is_firefox_ua contains_fold
empty_names = refl

score-Selected_example :
    (signals : List Signal) × (score same never driven ≡ some signals)
    × Selected signals catalogue
    × (total_of (pos 0) signals ≡ pos (points signals))
    × (points signals ≤ 945)
score-Selected_example = score-Selected same never driven

handle_verify-automated_example :
    (handle_verify lru jwt digest (score same never) service 20 post (some (asked driven)) ids).0
    ≢ redirect (codes "/") (codes "k")
handle_verify-automated_example =
    handle_verify-automated same never lru jwt digest service 20 post (asked driven) ids (codes "/")
      (codes "k") (omega arith) refl (inl refl)

mac : contains (to_lower same phone.navigator.user_agent) (codes "mac os x") ≡ true
unfolding contains to_lower is_ascii has_prefix
mac = refl

windows : contains (to_lower same phone.navigator.user_agent) (codes "windows nt") ≡ false
unfolding contains to_lower is_ascii has_prefix
windows = refl

linux : contains (to_lower same phone.navigator.user_agent) (codes "linux") ≡ false
unfolding contains to_lower is_ascii has_prefix
linux = refl

x11 : contains (to_lower same phone.navigator.user_agent) (codes "x11") ≡ false
unfolding contains to_lower is_ascii has_prefix
x11 = refl

handle_verify-iphone_example :
    (handle_verify lru jwt digest (score same never) service 20 post (some (asked phone)) ids).0
    ≢ redirect (codes "/") (codes "k")
handle_verify-iphone_example =
    handle_verify-iphone same never lru jwt digest service 20 post (asked phone) ids (codes "/")
      (codes "k") (omega arith) mac windows linux x11 refl refl
