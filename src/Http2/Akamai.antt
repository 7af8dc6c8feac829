-- ===== src/Http2/Akamai.antt =====
-- internal/signal/http2/akamai.go.
pub mod Stable
use anti_scrapling.Go.{
  ℕ, ◌==◌, ◌&&◌, not, Bool, true, false, if◌then◌else◌, Option, none, some, List, [], ◌∷◌, ◌++◌,
  map, Bytes, codes, text_eq, has_prefix, drop, length, to_lower, join, decimal_digits, Result, ok,
  err, ◌>>=◌,
}
use anti_scrapling.Http2.Hpack.{FrameError}
use anti_scrapling.Http2.Frames.{Setting, PriorityParam, HeadersBlock, Frame, parse_frames}

pub record AkamaiFingerprint : Type 0 where
  pub settings : List Setting
  pub window_update_increment : ℕ
  pub priorities : List PriorityParam
  pub pseudo_header_order : List Bytes

-- Decimal digits of a number of 32 bits, which has ten at most.
unfoldable pub digits : ℕ → Bytes
unfolding decimal_digits
digits n = decimal_digits 9 n

unfoldable pub setting_text : Setting → Bytes
unfolding digits
setting_text s = digits s.id ++ (codes ":" ++ digits s.value)

unfoldable pub priority_text : PriorityParam → Bytes
unfolding digits join
priority_text p =
    join
      (digits p.stream_id
        ∷ (if p.exclusive then codes "1" else codes "0")
        ∷ digits p.depends_on
        ∷ digits p.weight
        ∷ [])
      (codes ":")

-- "0" where there is no priority.
unfoldable pub priorities_text : List PriorityParam → Bytes
unfolding priority_text join
priorities_text [] = codes "0"
priorities_text (p ∷ ps) = join (map priority_text (p ∷ ps)) (codes ",")

-- `append` where the list is still empty.
abbrev pub first_of {ℓ} : {A : Type ℓ} → List A → List A → List A
first_of [] new = new
first_of (x ∷ xs) new = x ∷ xs

abbrev pub priority_of : Option PriorityParam → List PriorityParam
priority_of none = []
priority_of (some p) = p ∷ []

abbrev pub add_headers : Option HeadersBlock → AkamaiFingerprint → AkamaiFingerprint
add_headers none f = f
add_headers (some h) f = record f {
  priorities = f.priorities ++ priority_of h.priority;
  pseudo_header_order = first_of f.pseudo_header_order h.pseudo_header_order;
}

-- The switch of the loop.
unfoldable pub add_frame : Frame → AkamaiFingerprint → AkamaiFingerprint
add_frame frame f =
    if frame.type == 4
    then record f { settings = first_of f.settings frame.settings }
    else if frame.type == 8
    then if f.window_update_increment == 0 && frame.stream_id == 0
      then record f { window_update_increment = frame.window_update_increment }
      else f
    else if frame.type == 2
    then record f { priorities = f.priorities ++ priority_of frame.priority }
    else if frame.type == 1
    then add_headers frame.headers f
    else f

unfoldable pub add_frames : List Frame → AkamaiFingerprint → AkamaiFingerprint
unfolding add_frame
add_frames [] f = f
add_frames (frame ∷ frames) f = add_frames frames (add_frame frame f)

abbrev pub no_fingerprint : AkamaiFingerprint
no_fingerprint = record {
  settings = [];
  window_update_increment = 0;
  priorities = [];
  pseudo_header_order = [];
}

-- `unicode` is `strings.ToLower` on texts that are not ASCII.
module _ (unicode : Bytes → Bytes) where
  abbrev trimmed : Bytes → Bytes
  trimmed s = if has_prefix s (codes ":") then drop 1 s else s

  unfoldable pub pseudo_header_code : Bytes → Bytes
  unfolding to_lower has_prefix text_eq
  pseudo_header_code name =
      let s = trimmed (to_lower unicode name) in
      if text_eq s (codes "method")
      then codes "m"
      else if text_eq s (codes "authority")
      then codes "a"
      else if text_eq s (codes "scheme")
      then codes "s"
      else if text_eq s (codes "path")
      then codes "p"
      else []

  -- The codes that are not empty.
  unfoldable pub pseudo_codes : List Bytes → List Bytes
  unfolding pseudo_header_code text_eq
  pseudo_codes [] = []
  pseudo_codes (name ∷ names) =
      let code = pseudo_header_code name in
      let rest = pseudo_codes names in if text_eq code [] then rest else code ∷ rest

  abbrev is_empty {ℓ} : {A : Type ℓ} → List A → Bool
  is_empty [] = true
  is_empty (x ∷ xs) = false

  unfoldable pub fingerprint_text : AkamaiFingerprint → Bytes
  unfolding setting_text digits priorities_text pseudo_codes join
  fingerprint_text f =
      if is_empty f.settings
        && f.window_update_increment == 0
        && is_empty f.priorities
        && is_empty f.pseudo_header_order
      then []
      else join (map setting_text f.settings) (codes ",")
        ++ (codes "|"
            ++ (digits f.window_update_increment
                ++ (codes "|"
                    ++ (priorities_text f.priorities
                        ++ (codes "|" ++ join (pseudo_codes f.pseudo_header_order) (codes ","))))))

  unfoldable pub compute_akamai_fingerprint : List Frame → Bytes
  unfolding add_frames fingerprint_text
  compute_akamai_fingerprint frames = fingerprint_text (add_frames frames no_fingerprint)

  unfoldable pub compute_akamai_fingerprint_bytes : Bytes → Result FrameError Bytes
  unfolding parse_frames compute_akamai_fingerprint
  compute_akamai_fingerprint_bytes data' =
      parse_frames data' >>= λ frames. ok (compute_akamai_fingerprint frames)
