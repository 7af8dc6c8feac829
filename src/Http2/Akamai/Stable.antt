-- ===== src/Http2/Akamai/Stable.antt =====
-- What later frames add to an Akamai fingerprint that is complete.
use anti_scrapling.Go.{
  ◌==◌, ◌&&◌, ◌≡◌, ◌≢◌, refl, ap, ◌∙◌, true, false, Bool, Option, none, some, List, [], ◌∷◌, ◌++◌,
  Bytes, All, arith, if◌then◌else◌,
}
use mathlib.Core.List.{append-nil}
use anti_scrapling.Http2.Frames.{HeadersBlock, Frame}
use anti_scrapling.Http2.Akamai.{
  AkamaiFingerprint, first_of, add_headers, add_frame, add_frames, no_fingerprint, fingerprint_text,
  compute_akamai_fingerprint,
}

-- Settings, a connection window and a pseudo-header order have been seen.
abbrev pub IsComplete : AkamaiFingerprint → Type 0
IsComplete f = (f.settings ≢ []) × (f.window_update_increment ≢ 0) × (f.pseudo_header_order ≢ [])

-- The frame brings no priority.
abbrev pub HasNoPriority : Frame → Type 0
HasNoPriority frame =
    (frame.priority ≡ none) × ((h : HeadersBlock) → frame.headers ≡ some h → h.priority ≡ none)

first_of_nonempty {ℓ} : {A : Type ℓ} (xs ys : List A) → xs ≢ [] → first_of xs ys ≡ xs
first_of_nonempty [] ys h = absurd (h refl)
first_of_nonempty (x ∷ xs) ys h = refl

if_either {ℓ} : {A : Type ℓ} {x y z : A} (b : Bool) → x ≡ z → y ≡ z → (if b then x else y) ≡ z
if_either true h k = h
if_either false h k = k

add_frames-append :
    (fs gs : List Frame) (f : AkamaiFingerprint)
    → add_frames (fs ++ gs) f ≡ add_frames gs (add_frames fs f)
unfolding add_frames
add_frames-append [] gs f = refl
add_frames-append (x ∷ fs) gs f = add_frames-append fs gs (add_frame x f)

add_headers-IsComplete :
    (headers : Option HeadersBlock) (f : AkamaiFingerprint)
    → f.pseudo_header_order ≢ []
    → ((h : HeadersBlock) → headers ≡ some h → h.priority ≡ none)
    → add_headers headers f ≡ f
add_headers-IsComplete none f c p = refl
add_headers-IsComplete (some h) f c p =
    rw
      (
        p h refl,
        append-nil f.priorities,
        first_of_nonempty f.pseudo_header_order h.pseudo_header_order c,
      )
      refl

add_frame-IsComplete :
    (frame : Frame) (f : AkamaiFingerprint)
    → IsComplete f
    → HasNoPriority frame
    → add_frame frame f ≡ f
unfolding add_frame
add_frame-IsComplete frame f (s, w, o) (p, h) =
    if_either (frame.type == 4) (rw (first_of_nonempty f.settings frame.settings s) refl) (
      if_either (frame.type == 8) (rw window_seen refl) (
        if_either (frame.type == 2) (rw (p, append-nil f.priorities) refl)
          (if_either (frame.type == 1) (add_headers-IsComplete frame.headers f o h) refl)))
  where
    window_seen : (f.window_update_increment == 0 && frame.stream_id == 0) ≡ false
    window_seen = ground (arith, w)

add_frames-IsComplete :
    (frames : List Frame) (f : AkamaiFingerprint)
    → IsComplete f
    → All HasNoPriority frames
    → add_frames frames f ≡ f
unfolding add_frames
add_frames-IsComplete [] f c h = refl
add_frames-IsComplete (x ∷ frames) f c (p, h) =
    rw (add_frame-IsComplete x f c p) (add_frames-IsComplete frames f c h)

-- Once settings, a window update of the connection and a pseudo-header order have been seen, later
-- frames that bring no priority leave the fingerprint as it is.
pub compute_akamai_fingerprint-append :
    (unicode : Bytes → Bytes) (frames later : List Frame)
    → IsComplete (add_frames frames no_fingerprint)
    → All HasNoPriority later
    → compute_akamai_fingerprint unicode (frames ++ later)
      ≡ compute_akamai_fingerprint unicode frames
unfolding compute_akamai_fingerprint
compute_akamai_fingerprint-append unicode frames later c h = ap (fingerprint_text unicode) (
    add_frames-append frames later no_fingerprint
    ∙ add_frames-IsComplete later (add_frames frames no_fingerprint) c h)
