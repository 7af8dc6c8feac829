-- ===== src/Fingerprint/Report.antt =====
-- internal/types/fingerprint.go: the report that the challenge page posts. `F` stands for float64:
-- the probes do no arithmetic on floating point.
use anti_scrapling.Go.{ℤ, Bool, List, Bytes, Assoc}

pub record NavigatorProbe (F : Type 0) : Type 0 where
  pub user_agent : Bytes
  pub platform : Bytes
  pub vendor : Bytes
  pub languages : List Bytes
  pub language : Bytes
  pub hardware_concurrency : ℤ
  pub device_memory : F
  pub webdriver : Bool
  pub plugins : List Bytes
  pub mime_types : List Bytes
  pub oscpu : Bytes
  pub product : Bytes
  pub product_sub : Bytes

pub record WebGlProbe (F : Type 0) : Type 0 where
  pub vendor : Bytes
  pub renderer : Bytes
  pub unmasked_vendor : Bytes
  pub unmasked_renderer : Bytes
  pub version : Bytes
  pub shading_language_ver : Bytes
  pub extensions : List Bytes
  pub max_texture_size : ℤ
  pub max_anisotropy : F

-- CanvasProbe and AudioProbe.
pub record RenderProbe : Type 0 where
  pub hashes : List Bytes
  pub variance : ℤ

pub record CodecsProbe : Type 0 where
  pub common : Assoc Bytes
  pub rare : Assoc Bytes

pub record FontsProbe : Type 0 where
  pub detected_count : ℤ
  pub detected : List Bytes
  pub missing_os_bundled : List Bytes

pub record WindowProbe (F : Type 0) : Type 0 where
  pub inner_width : ℤ
  pub inner_height : ℤ
  pub outer_width : ℤ
  pub outer_height : ℤ
  pub screen_width : ℤ
  pub screen_height : ℤ
  pub device_pixel_ratio : F
  pub color_depth : ℤ
  pub pixel_depth : ℤ

pub record ChromeProbe : Type 0 where
  pub present : Bool
  pub runtime_present : Bool
  pub app_present : Bool
  pub load_times_present : Bool
  pub csi_present : Bool
  pub runtime_connect_error : Bytes

pub record PermissionsProbe : Type 0 where
  pub notifications_state : Bytes
  pub midi_state : Bytes
  pub camera_state : Bytes

pub record WebRtcProbe : Type 0 where
  pub local_ips : List Bytes
  pub public_ip : Bytes

pub record DomProbe : Type 0 where
  pub iframe_content_window_identity : Bool
  pub closed_shadow_root_accessible : Bool
  pub document_element_keys : List Bytes

pub record RuntimeProbe : Type 0 where
  pub function_to_string_native : Bool
  pub console_debug_arity : ℤ
  pub console_debug_to_string : Bytes
  pub eval_length : ℤ
  pub error_stack_contains_pw_sig : Bool

pub record SpeechProbe : Type 0 where
  pub voices_count : ℤ
  pub voices : List Bytes

pub record ServiceWorkerProbe : Type 0 where
  pub registered : Bool
  pub controller : Bool
  pub error : Bytes

pub record HairlineProbe : Type 0 where
  pub non_modernizr_result : ℤ

pub record TimingProbe : Type 0 where
  pub collection_duration_ms : ℤ
  pub navigation_start : ℤ
  pub dom_content_loaded : ℤ

pub record FingerprintReport (F : Type 0) : Type 0 where
  pub version : ℤ
  pub navigator : NavigatorProbe F
  pub webgl : WebGlProbe F
  pub canvas : RenderProbe
  pub audio : RenderProbe
  pub codecs : CodecsProbe
  pub fonts : FontsProbe
  pub window : WindowProbe F
  pub chrome : ChromeProbe
  pub permissions : PermissionsProbe
  pub webrtc : WebRtcProbe
  pub dom : DomProbe
  pub runtime : RuntimeProbe
  pub speech : SpeechProbe
  pub service_worker : ServiceWorkerProbe
  pub hairline : HairlineProbe
  pub timing : TimingProbe
