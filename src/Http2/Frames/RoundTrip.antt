-- ===== src/Http2/Frames/RoundTrip.antt =====
-- The frames with which a client opens a connection are read back.
use anti_scrapling.Go.{
  ℕ, zero, suc, ◌+◌, ◌*◌, ◌/◌, ◌%◌, ◌^◌, ◌<◌, ◌≤◌, ◌≡◌, refl, ◌∙◌, ltb, leb, true, false, Bool,
  some, List, [], ◌∷◌, ◌++◌, Bytes, has_prefix, length, take-length-append, drop-length-append,
  length-append, All, ok, ◌>>=◌, arith, map,
}
use anti_scrapling.Http2.Frames.{
  client_preface, Setting, Frame, be32, settings_of, parse_settings, parse_window_update,
  parse_priority, bare_frame, parse_payload, read_frame, frames_loop, skip_preface, parse_frames,
}

abbrev pub put32 : ℕ → Bytes
put32 v = v / 16777216 ∷ v / 65536 % 256 ∷ v / 256 % 256 ∷ v % 256 ∷ []

be32-put32 : (v : ℕ) → be32 (v / 16777216) (v / 65536 % 256) (v / 256 % 256) (v % 256) ≡ v
be32-put32 v = omega arith

be16 : (v : ℕ) → v / 256 * 256 + v % 256 ≡ v
be16 v = omega arith

abbrev pub put_settings : List Setting → Bytes
put_settings [] = []
put_settings (s ∷ ss) = s.id / 256 ∷ s.id % 256 ∷ (put32 s.value ++ put_settings ss)

settings_of-put : (ss : List Setting) → settings_of (put_settings ss) ≡ ss
unfolding settings_of
settings_of-put [] = refl
settings_of-put (s ∷ ss) = rw (be32-put32 s.value, be16 s.id, settings_of-put ss) refl

length-put_settings : (ss : List Setting) → length (put_settings ss) % 6 ≡ 0
length-put_settings [] = refl
length-put_settings (s ∷ ss) = omega (arith, length-put_settings ss)

-- A frame that a client sends before its first request.
pub data Opening : Type 0 where
  settings_frame : ℕ → List Setting → Opening
  window_update_frame : ℕ → ℕ → ℕ → Opening
  priority_frame : ℕ → ℕ → Bool → ℕ → ℕ → Opening

abbrev priority_word : Bool → ℕ → ℕ
priority_word true depends_on = 2 ^ 31 + depends_on
priority_word false depends_on = depends_on

abbrev pub payload_of : Opening → Bytes
payload_of (settings_frame flags ss) = put_settings ss
payload_of (window_update_frame flags stream n) = put32 n
payload_of (priority_frame flags stream exclusive depends_on weight) =
    put32 (priority_word exclusive depends_on) ++ (weight ∷ [])

-- The frame without its payload, and with it.
abbrev pub bare_of : Opening → Frame
bare_of (settings_frame flags ss) = bare_frame 4 flags 0
bare_of (window_update_frame flags stream n) = bare_frame 8 flags stream
bare_of (priority_frame flags stream exclusive depends_on weight) = bare_frame 2 flags stream

abbrev pub frame_of : Opening → Frame
frame_of (settings_frame flags ss) = record (bare_frame 4 flags 0) { settings = ss }
frame_of (window_update_frame flags stream n) = record (bare_frame 8 flags stream) {
  window_update_increment = n;
}
frame_of (priority_frame flags stream exclusive depends_on weight) =
    record (bare_frame 2 flags stream) {
      priority = some (record {
        stream_id = stream;
        exclusive = exclusive;
        depends_on = depends_on;
        weight = weight;
      });
    }

-- Streams, increments and dependencies are 31-bit numbers.
abbrev pub Fits : Opening → Type 0
Fits (settings_frame flags ss) = Unit
Fits (window_update_frame flags stream n) = (stream < 2 ^ 31) × (n < 2 ^ 31)
Fits (priority_frame flags stream exclusive depends_on weight) =
    (stream < 2 ^ 31) × (depends_on < 2 ^ 31)

abbrev pub put_header : ℕ → ℕ → ℕ → ℕ → Bytes
put_header n type flags stream = n / 65536 ∷ n / 256 % 256 ∷ n % 256 ∷ type ∷ flags ∷ put32 stream

abbrev pub put_frame : Opening → Bytes
put_frame o =
    put_header (length (payload_of o)) (bare_of o).type (bare_of o).flags (bare_of o).stream_id
    ++ payload_of o

abbrev pub put_frames : List Opening → Bytes
put_frames [] = []
put_frames (o ∷ os) = put_frame o ++ put_frames os

parse_payload-put :
    (o : Opening) (dynamic : List Bytes)
    → Fits o
    → parse_payload (bare_of o) (payload_of o) dynamic ≡ ok (frame_of o, dynamic)
unfolding parse_payload parse_settings parse_window_update parse_priority
parse_payload-put (settings_frame flags ss) dynamic h =
    ground (arith, length-put_settings ss, settings_of-put ss)
parse_payload-put (window_update_frame flags stream n) dynamic (h, k) =
    let same : n % 2 ^ 31 ≡ n = omega arith in rw (be32-put32 n, same) refl
parse_payload-put (priority_frame flags stream true d weight) dynamic (h, k) =
    let same : (2 ^ 31 + d) % 2 ^ 31 ≡ d = omega arith in
    let top : leb (2 ^ 31) (2 ^ 31 + d) ≡ true = ground arith in
    rw (be32-put32 (2 ^ 31 + d), same, top) refl
parse_payload-put (priority_frame flags stream false d weight) dynamic (h, k) =
    let same : d % 2 ^ 31 ≡ d = omega arith in
    let top : leb (2 ^ 31) d ≡ false = ground arith in rw (be32-put32 d, same, top) refl

stream-Fits : (o : Opening) → Fits o → (bare_of o).stream_id % 2 ^ 31 ≡ (bare_of o).stream_id
stream-Fits (settings_frame flags ss) h = refl
stream-Fits (window_update_frame flags stream n) (h, k) = omega arith
stream-Fits (priority_frame flags stream e d w) (h, k) = omega arith

be24 : (v : ℕ) → v / 65536 * 65536 + v / 256 % 256 * 256 + v % 256 ≡ v
be24 v = omega arith

read_header :
    (payload rest : Bytes) (type flags stream : ℕ) (dynamic : List Bytes)
    → stream % 2 ^ 31 ≡ stream
    → read_frame dynamic ((put_header (length payload) type flags stream ++ payload) ++ rest) ≡ (
        parse_payload (bare_frame type flags stream) payload dynamic >>= λ (f, dynamic').
        ok (f, dynamic', rest))
unfolding read_frame
read_header payload rest type flags stream dynamic h =
    let test : ltb (length (payload ++ rest)) (length payload) ≡ false =
      ground (arith, length-append payload rest) in
    rw
      (
        be24 (length payload),
        be32-put32 stream,
        h,
        test,
        take-length-append payload rest,
        drop-length-append payload rest,
      )
      refl

rebuilt :
    (o : Opening) → bare_frame (bare_of o).type (bare_of o).flags (bare_of o).stream_id ≡ bare_of o
rebuilt (settings_frame flags ss) = refl
rebuilt (window_update_frame flags stream n) = refl
rebuilt (priority_frame flags stream e d w) = refl

read_frame-put :
    (o : Opening) (rest : Bytes) (dynamic : List Bytes)
    → Fits o
    → read_frame dynamic (put_frame o ++ rest) ≡ ok (frame_of o, dynamic, rest)
read_frame-put o rest dynamic h =
    read_header (payload_of o) rest (bare_of o).type (bare_of o).flags (bare_of o).stream_id dynamic
      (stream-Fits o h)
    ∙ rw (rebuilt o, parse_payload-put o dynamic h) refl

frames_loop-put :
    (os : List Opening) (fuel : ℕ) (dynamic : List Bytes)
    → All Fits os
    → length (put_frames os) ≤ fuel
    → frames_loop fuel dynamic (put_frames os) ≡ ok (map frame_of os)
unfolding frames_loop
frames_loop-put [] fuel dynamic h l = refl
frames_loop-put (o ∷ os) zero dynamic h l = absurd (omega (arith, l))
frames_loop-put (o ∷ os) (suc fuel) dynamic (k, h) l =
    rw
      (
        read_frame-put o (put_frames os) dynamic k,
        frames_loop-put os fuel dynamic h
            (omega (arith, l, length-append (put_frame o) (put_frames os))),
      )
      refl

preface_skipped : (data' : Bytes) → skip_preface (client_preface ++ data') ≡ data'
unfolding skip_preface has_prefix
preface_skipped data' = refl

-- SETTINGS, WINDOW_UPDATE and PRIORITY frames behind the connection preface, in any number and
-- order and with any flags, are read back with all their values, if streams, increments and
-- dependencies are 31-bit numbers.
pub parse_frames-put_frames :
    (os : List Opening)
    → All Fits os
    → parse_frames (client_preface ++ put_frames os) ≡ ok (map frame_of os)
unfolding parse_frames
parse_frames-put_frames os h =
    rw (preface_skipped (put_frames os))
      (frames_loop-put os (length (put_frames os)) [] h (omega arith))
