-- ===== src/Tls/Reader/Laws.antt =====
-- What a read takes from the front, and what it gives back of what was written.
use anti_scrapling.Go.{
  ℕ, ◌+◌, ◌*◌, ◌/◌, ◌%◌, ◌≡◌, refl, List, [], ◌∷◌, ◌++◌, Bytes, ok, length, drop, arith,
  take-length-append, take-length, length_zero, drop-length-append, length-append, length-drop,
  length-take,
}
use anti_scrapling.Tls.Reader.{Part, read_uint8, read_uint16, read_bytes, uint16s, be16}

-- The two bytes of a 16-bit number.
abbrev pub put16 : ℕ → Bytes
put16 v = v / 256 ∷ v % 256 ∷ []

abbrev pub put16s : List ℕ → Bytes
put16s [] = []
put16s (v ∷ vs) = v / 256 ∷ v % 256 ∷ put16s vs

pub be16-put16 : (v : ℕ) → be16 (v / 256) (v % 256) ≡ v
be16-put16 v = omega arith

pub read_uint16-put16 :
    (part : Part) (v : ℕ) (rest : Bytes) → read_uint16 part (put16 v ++ rest) ≡ ok (v, rest)
unfolding read_uint16
read_uint16-put16 part v rest = ground arith

pub read_bytes-append :
    (part : Part) (bs rest : Bytes) → read_bytes part (length bs) (bs ++ rest) ≡ ok (bs, rest)
unfolding read_bytes
read_bytes-append part bs rest =
    ground (arith, length-append bs rest, take-length-append bs rest, drop-length-append bs rest)

pub read_bytes-append_of_length :
    (part : Part) (n : ℕ) (bs rest : Bytes)
    → length bs ≡ n
    → read_bytes part n (bs ++ rest) ≡ ok (bs, rest)
read_bytes-append_of_length part n bs rest h = rw (← h) (read_bytes-append part bs rest)

pub read_bytes-length : (part : Part) (bs : Bytes) → read_bytes part (length bs) bs ≡ ok (bs, [])
unfolding read_bytes
read_bytes-length part bs =
    ground (arith, take-length bs, length-drop (length bs) bs, length_zero (drop (length bs) bs))

pub uint16s-put16s : (vs : List ℕ) → uint16s (put16s vs) ≡ vs
unfolding uint16s
uint16s-put16s [] = refl
uint16s-put16s (v ∷ vs) = ground (arith, uint16s-put16s vs)

pub length-put16s : (vs : List ℕ) → length (put16s vs) ≡ length vs * 2
length-put16s [] = refl
length-put16s (v ∷ vs) = omega (arith, length-put16s vs)

pub read_uint16-shorter :
    (part : Part) (data' : Bytes) {v : ℕ} {rest : Bytes}
    → read_uint16 part data' ≡ ok (v, rest)
    → length data' ≡ length rest + 2
unfolding read_uint16
read_uint16-shorter part [] h = cc
read_uint16-shorter part (a ∷ []) h = cc
read_uint16-shorter part (a ∷ b ∷ rest) h = ground arith

pub read_bytes-shorter :
    (part : Part) (n : ℕ) (data' : Bytes) {bs rest : Bytes}
    → read_bytes part n data' ≡ ok (bs, rest)
    → (length bs ≡ n) × (length data' ≡ length rest + n)
unfolding read_bytes
read_bytes-shorter part n data' h = ground (arith, length-drop n data', length-take n data')

pub read_uint8-shorter :
    (part : Part) (data' : Bytes) {v : ℕ} {rest : Bytes}
    → read_uint8 part data' ≡ ok (v, rest)
    → length data' ≡ length rest + 1
unfolding read_uint8
read_uint8-shorter part [] h = cc
read_uint8-shorter part (a ∷ rest) h = ground arith

pub length-uint16s : (bs : Bytes) → length bs % 2 ≡ 0 → length (uint16s bs) * 2 ≡ length bs
unfolding uint16s
length-uint16s [] h = refl
length-uint16s (a ∷ []) h = ground arith
length-uint16s (a ∷ b ∷ bs) h = omega (arith, length-uint16s bs)
