-- ===== src/Http2/Frames.antt =====
-- internal/signal/http2/frames.go: the frames.
pub mod RoundTrip
pub mod Total
use anti_scrapling.Go.{
  ℕ, zero, suc, ◌+◌, ◌-◌, ◌*◌, ◌/◌, ◌%◌, ◌^◌, ◌==◌, ltb, leb, not, Bool, if◌then◌else◌, Option,
  none, some, List, [], ◌∷◌, ◌++◌, Bytes, codes, has_prefix, length, take, drop, Result, ok, err,
  ◌>>=◌, ◌>>◌, guard,
}
use anti_scrapling.Http2.Hpack.{
  FrameError, need_more_data, bad_settings_length, bad_window_update_length, bad_priority_length,
  bad_padding, out_of_fuel, Parsed, decode,
}

abbrev pub client_preface : Bytes
client_preface =
    codes "PRI * HTTP/2.0" ++ (13 ∷ 10 ∷ 13 ∷ 10 ∷ b'S' ∷ b'M' ∷ 13 ∷ 10 ∷ 13 ∷ 10 ∷ [])

pub record Setting : Type 0 where
  pub id : ℕ
  pub value : ℕ

pub record PriorityParam : Type 0 where
  pub stream_id : ℕ
  pub exclusive : Bool
  pub depends_on : ℕ
  pub weight : ℕ

pub record HeadersBlock : Type 0 where
  pub stream_id : ℕ
  pub pseudo_header_order : List Bytes
  pub regular_header_order : List Bytes
  pub priority : Option PriorityParam

pub record Frame : Type 0 where
  pub type : ℕ
  pub flags : ℕ
  pub stream_id : ℕ
  pub settings : List Setting
  pub window_update_increment : ℕ
  pub priority : Option PriorityParam
  pub headers : Option HeadersBlock

-- `binary.BigEndian.Uint32`
abbrev pub be32 : ℕ → ℕ → ℕ → ℕ → ℕ
be32 a b c d = a * 16777216 + b * 65536 + c * 256 + d

-- The loop of `parseSettings`.
unfoldable pub settings_of : Bytes → List Setting
settings_of (i ∷ j ∷ a ∷ b ∷ c ∷ d ∷ payload) =
    record { id = i * 256 + j; value = be32 a b c d } ∷ settings_of payload
settings_of _ = []

unfoldable pub parse_settings : Bytes → Parsed (List Setting)
unfolding settings_of
parse_settings payload =
    if length payload % 6 == 0
    then ok (settings_of payload)
    else err (bad_settings_length (length payload))

unfoldable pub parse_window_update : Bytes → Parsed ℕ
parse_window_update (a ∷ b ∷ c ∷ d ∷ []) = ok (be32 a b c d % 2 ^ 31)
parse_window_update payload = err (bad_window_update_length (length payload))

unfoldable pub parse_priority : Bytes → ℕ → Parsed PriorityParam
parse_priority (a ∷ b ∷ c ∷ d ∷ weight ∷ []) stream_id = ok (record {
  stream_id = stream_id;
  exclusive = leb (2 ^ 31) (be32 a b c d);
  depends_on = be32 a b c d % 2 ^ 31;
  weight = weight;
})
parse_priority payload stream_id = err (bad_priority_length (length payload))

-- The flags 0x8 and 0x20.
abbrev pub is_padded : ℕ → Bool
is_padded flags = flags / 8 % 2 == 1

abbrev pub has_priority : ℕ → Bool
has_priority flags = flags / 32 % 2 == 1

unfoldable pub strip_padding : Bytes → Parsed Bytes
strip_padding [] = err need_more_data
strip_padding (pad ∷ payload) =
    if ltb (length payload) pad
    then err (bad_padding pad)
    else ok (take (length payload - pad) payload)

unfoldable pub take_priority : ℕ → Bytes → Parsed (Option PriorityParam × Bytes)
unfolding parse_priority
take_priority stream_id payload =
    if ltb (length payload) 5
    then err need_more_data
    else (parse_priority (take 5 payload) stream_id >>= λ p. ok (some p, drop 5 payload))

-- Names with a colon, without it, and the other names.
unfoldable pub pseudo_names : List Bytes → List Bytes
pseudo_names [] = []
pseudo_names ([] ∷ names) = pseudo_names names
pseudo_names ((c ∷ name) ∷ names) =
    let rest = pseudo_names names in if c == b':' then name ∷ rest else rest

unfoldable pub regular_names : List Bytes → List Bytes
regular_names [] = []
regular_names ([] ∷ names) = regular_names names
regular_names ((c ∷ name) ∷ names) =
    let rest = regular_names names in if c == b':' then rest else (c ∷ name) ∷ rest

-- The dynamic names of the decoder go in and come out.
unfoldable pub parse_headers : Bytes → ℕ → ℕ → List Bytes → Parsed (HeadersBlock × List Bytes)
unfolding strip_padding take_priority decode pseudo_names regular_names
parse_headers payload flags stream_id dynamic = do
  block ← if is_padded flags then strip_padding payload else ok payload
  (priority, fragment) ←
      if has_priority flags then take_priority stream_id block else ok (none, block)
  (names, dynamic') ← decode (length fragment) dynamic fragment
  ok (
    record {
      stream_id = stream_id;
      pseudo_header_order = pseudo_names names;
      regular_header_order = regular_names names;
      priority = priority;
    },
    dynamic',
  )

abbrev pub bare_frame : ℕ → ℕ → ℕ → Frame
bare_frame type flags stream_id = record {
  type = type;
  flags = flags;
  stream_id = stream_id;
  settings = [];
  window_update_increment = 0;
  priority = none;
  headers = none;
}

-- The switch on the frame's type.
unfoldable pub parse_payload : Frame → Bytes → List Bytes → Parsed (Frame × List Bytes)
unfolding parse_settings parse_window_update parse_priority parse_headers
parse_payload f payload dynamic =
    if f.type == 4
    then (parse_settings payload >>= λ ss. ok (record f { settings = ss }, dynamic))
    else if f.type == 8
    then (parse_window_update payload >>= λ n.
        ok (record f { window_update_increment = n }, dynamic))
    else if f.type == 2
    then (parse_priority payload f.stream_id >>= λ p. ok (record f { priority = some p }, dynamic))
    else if f.type == 1
    then (parse_headers payload f.flags f.stream_id dynamic >>= λ (h, dynamic').
        ok (record f { headers = some h }, dynamic'))
    else ok (f, dynamic)

-- A round of the loop of `ParseFrames`: the frame, the decoder's names and the bytes behind it.
unfoldable pub read_frame : List Bytes → Bytes → Parsed (Frame × List Bytes × Bytes)
unfolding parse_payload
read_frame dynamic (l1 ∷ l2 ∷ l3 ∷ type ∷ flags ∷ a ∷ b ∷ c ∷ d ∷ rest) =
    let n = l1 * 65536 + l2 * 256 + l3 in
    if ltb (length rest) n
    then err need_more_data
    else (parse_payload (bare_frame type flags (be32 a b c d % 2 ^ 31)) (take n rest) dynamic
        >>= λ (f, dynamic'). ok (f, dynamic', drop n rest))
read_frame dynamic data' = err need_more_data

-- The loop: each round reads nine bytes at least.
unfoldable pub frames_loop : ℕ → List Bytes → Bytes → Parsed (List Frame)
unfolding read_frame
frames_loop fuel dynamic [] = ok []
frames_loop zero dynamic (b ∷ data') = err out_of_fuel
frames_loop (suc fuel) dynamic (b ∷ data') = do
  (f, dynamic', rest) ← read_frame dynamic (b ∷ data')
  fs ← frames_loop fuel dynamic' rest
  ok (f ∷ fs)

unfoldable pub skip_preface : Bytes → Bytes
unfolding has_prefix
skip_preface data' =
    if has_prefix data' client_preface then drop (length client_preface) data' else data'

unfoldable pub parse_frames : Bytes → Parsed (List Frame)
unfolding skip_preface frames_loop
parse_frames data' = frames_loop (length (skip_preface data')) [] (skip_preface data')
