-- ===== src/Http2/Frames/Total.antt =====
-- The loop of `ParseFrames` ends.
use anti_scrapling.Go.{
  ℕ, zero, suc, ◌+◌, ◌*◌, ◌%◌, ◌^◌, ◌==◌, ◌≤◌, ◌≡◌, ltb, true, false, Bool, Bool-cases, inl, inr,
  none, List, [], ◌∷◌, Bytes, length, length-drop, take, drop, ok, err, ◌>>=◌, arith, if◌then◌else◌,
}
use anti_scrapling.Http2.Hpack.{Parsed, decode}
use anti_scrapling.Http2.Hpack.Total.{IsReal, IsRealError, bind-IsReal, decode-IsReal}
use anti_scrapling.Http2.Frames.{
  Frame, be32, parse_settings, parse_window_update, parse_priority, is_padded, has_priority,
  strip_padding, take_priority, parse_headers, bare_frame, parse_payload, read_frame, frames_loop,
  skip_preface, parse_frames,
}

parse_priority-IsReal : (payload : Bytes) (stream : ℕ) → IsReal (parse_priority payload stream)
unfolding parse_priority IsReal IsRealError
parse_priority-IsReal (a ∷ b ∷ c ∷ d ∷ w ∷ []) stream = tt
parse_priority-IsReal _ stream = tt

parse_window_update-IsReal : (payload : Bytes) → IsReal (parse_window_update payload)
unfolding parse_window_update IsReal IsRealError
parse_window_update-IsReal (a ∷ b ∷ c ∷ d ∷ []) = tt
parse_window_update-IsReal _ = tt

parse_settings-IsReal : (payload : Bytes) → IsReal (parse_settings payload)
unfolding parse_settings IsReal IsRealError
parse_settings-IsReal payload = elim (Bool-cases (length payload % 6 == 0)) [
  | inl e ↦ rw e tt
  | inr e ↦ rw e tt
]

strip_padding-IsReal : (payload : Bytes) → IsReal (strip_padding payload)
unfolding strip_padding IsReal IsRealError
strip_padding-IsReal [] = tt
strip_padding-IsReal (pad ∷ payload) = elim (Bool-cases (ltb (length payload) pad)) [
  | inl e ↦ rw e tt
  | inr e ↦ rw e tt
]

take_priority-IsReal : (stream : ℕ) (payload : Bytes) → IsReal (take_priority stream payload)
unfolding take_priority IsReal IsRealError
take_priority-IsReal stream payload = elim (Bool-cases (ltb (length payload) 5)) [
  | inl e ↦ rw e tt
  | inr e ↦ rw e (
      bind-IsReal (parse_priority (take 5 payload) stream) _
        (parse_priority-IsReal (take 5 payload) stream) (λ p f. tt))
]

if-IsReal :
    {A : Type 0} (b : Bool) (r s : Parsed A) → IsReal r → IsReal s → IsReal (if b then r else s)
if-IsReal true r s h k = h
if-IsReal false r s h k = k

parse_headers-IsReal :
    (payload : Bytes) (flags stream : ℕ) (dynamic : List Bytes)
    → IsReal (parse_headers payload flags stream dynamic)
unfolding parse_headers IsReal
parse_headers-IsReal payload flags stream dynamic =
    bind-IsReal (if is_padded flags then strip_padding payload else ok payload) _
      (if-IsReal (is_padded flags) (strip_padding payload) (ok payload)
        (strip_padding-IsReal payload) tt)
      (λ block e.
        bind-IsReal (if has_priority flags then take_priority stream block else ok (none, block)) _
          (if-IsReal (has_priority flags) (take_priority stream block) (ok (none, block))
            (take_priority-IsReal stream block) tt)
          (λ p f.
            bind-IsReal (decode (length p.1) dynamic p.1) _
              (decode-IsReal (length p.1) dynamic p.1 (omega arith)) (λ q g. tt)))

parse_payload-IsReal :
    (f : Frame) (payload : Bytes) (dynamic : List Bytes) → IsReal (parse_payload f payload dynamic)
unfolding parse_payload IsReal
parse_payload-IsReal f payload dynamic =
    if-IsReal (f.type == 4) _ _
      (bind-IsReal (parse_settings payload) _ (parse_settings-IsReal payload) (λ ss e. tt))
      (if-IsReal (f.type == 8) _ _
        (bind-IsReal (parse_window_update payload) _ (parse_window_update-IsReal payload)
          (λ n e. tt))
        (if-IsReal (f.type == 2) _ _
          (bind-IsReal (parse_priority payload f.stream_id) _
            (parse_priority-IsReal payload f.stream_id) (λ p e. tt))
          (if-IsReal (f.type == 1) _ _
            (bind-IsReal (parse_headers payload f.flags f.stream_id dynamic) _
              (parse_headers-IsReal payload f.flags f.stream_id dynamic) (λ h e. tt))
            tt)))

-- What a round leaves is shorter than what it was given.
IsStep : Bytes → Parsed (Frame × List Bytes × Bytes) → Type 0
IsStep data' r =
    IsReal r × ((p : Frame × List Bytes × Bytes) → r ≡ ok p → length p.2 + 1 ≤ length data')

payload-IsStep :
    (data' rest : Bytes) (r : Parsed (Frame × List Bytes))
    → IsReal r
    → length rest + 1 ≤ length data'
    → IsStep data' (r >>= λ (f, dynamic). ok (f, dynamic, rest))
unfolding IsStep IsReal
payload-IsStep data' rest (ok (f, dynamic)) h k = (tt, λ p e. ground (arith, k))
payload-IsStep data' rest (err e) h k = (h, λ p q. absurd (ground arith))

read_frame-IsStep : (dynamic : List Bytes) (data' : Bytes) → IsStep data' (read_frame dynamic data')
unfolding read_frame IsStep IsReal IsRealError
read_frame-IsStep dynamic (l1 ∷ l2 ∷ l3 ∷ type ∷ flags ∷ a ∷ b ∷ c ∷ d ∷ rest) =
    let n = l1 * 65536 + l2 * 256 + l3 in
    let header = bare_frame type flags (be32 a b c d % 2 ^ 31) in
    elim (Bool-cases (ltb (length rest) n)) [
      | inl e ↦ rw e (tt, λ p q. absurd (ground arith))
      | inr e ↦ rw e (
          payload-IsStep (l1 ∷ l2 ∷ l3 ∷ type ∷ flags ∷ a ∷ b ∷ c ∷ d ∷ rest) (drop n rest)
            (parse_payload header (take n rest) dynamic)
            (parse_payload-IsReal header (take n rest) dynamic) (omega (arith, length-drop n rest)))
    ]
read_frame-IsStep dynamic _ = (tt, λ p e. absurd (ground arith))

frames_loop-IsReal :
    (fuel : ℕ) (dynamic : List Bytes) (data' : Bytes)
    → length data' ≤ fuel
    → IsReal (frames_loop fuel dynamic data')
unfolding frames_loop IsReal IsStep
frames_loop-IsReal fuel dynamic [] h = tt
frames_loop-IsReal zero dynamic (b ∷ data') h = absurd (omega (arith, h))
frames_loop-IsReal (suc fuel) dynamic (b ∷ data') h =
    let t = read_frame-IsStep dynamic (b ∷ data') in
    bind-IsReal (read_frame dynamic (b ∷ data')) _ t.0 (λ p e.
      bind-IsReal (frames_loop fuel p.1 p.2) _
        (frames_loop-IsReal fuel p.1 p.2 (omega (arith, h, t.1 p e))) (λ q f. tt))

-- `ParseFrames` ends on every input: its loop and the loop over the header fields have rounds
-- enough.
pub parse_frames-IsReal : (data' : Bytes) → IsReal (parse_frames data')
unfolding parse_frames
parse_frames-IsReal data' =
    frames_loop-IsReal (length (skip_preface data')) [] (skip_preface data') (omega arith)
