-- ===== src/Http2/Hpack/Total.antt =====
-- The loop of `decode` ends: every field takes a byte at least.
use anti_scrapling.Go.{
  ℕ, zero, suc, ◌+◌, ◌-◌, ◌*◌, ◌%◌, ◌^◌, ◌≤◌, ◌≡◌, refl, ltb, leb, Bool, Bool-cases, inl, inr, List,
  [], ◌∷◌, Bytes, length, length-drop, Result, ok, err, ◌>>=◌, after_ok, arith,
}
use anti_scrapling.Http2.Hpack.{
  FrameError, out_of_fuel, Parsed, hpack_int_loop, read_hpack_int, hpack_text, read_hpack_string,
  lookup_name, literal_name, read_literal_name, add_dynamic_name, decode_field, decode,
}

unfoldable pub IsRealError : FrameError → Type 0
IsRealError out_of_fuel = ⊥
IsRealError e = Unit

-- The result is a value or one of the source's errors.
unfoldable pub IsReal {ℓ} : {A : Type ℓ} → Result FrameError A → Type 0
unfolding IsRealError
IsReal (ok a) = Unit
IsReal (err e) = IsRealError e

pub bind-IsReal {ℓ κ} :
    {A : Type ℓ} {B : Type κ} (m : Result FrameError A) (f : A → Result FrameError B)
    → IsReal m
    → ((a : A) → m ≡ ok a → IsReal (f a))
    → IsReal (m >>= f)
unfolding IsReal
bind-IsReal (ok a) f h k = k a refl
bind-IsReal (err e) f h k = h

-- What a step leaves is shorter than what it was given, and its errors are the source's.
abbrev Takes {ℓ} : {A : Type ℓ} → ℕ → Bytes → Result FrameError (A × Bytes) → Type ℓ
Takes {A = A} n data' r = IsReal r × ((p : A × Bytes) → r ≡ ok p → length p.1 + n ≤ length data')

hpack_int_loop-Takes :
    (data' : Bytes) (shift value : ℕ) → Takes 1 data' (hpack_int_loop shift value data')
unfolding hpack_int_loop IsReal
hpack_int_loop-Takes [] shift value = (tt, λ p e. absurd (ground arith))
hpack_int_loop-Takes (b ∷ data') shift value =
    let value' = (value + b % 128 * 2 ^ shift) % 2 ^ 64 in
    let rest = hpack_int_loop-Takes data' (shift + 7) value' in
    elim (Bool-cases (ltb b 128)) [
      | inl e ↦ rw e (tt, λ p q. ground arith)
      | inr e ↦ elim (Bool-cases (ltb 56 (shift + 7))) [
        | inl f ↦ rw (e, f) (tt, λ p q. absurd (ground arith))
        | inr f ↦ rw (e, f) (rest.0, λ p q. omega (arith, rest.1 p q))
      ]
    ]

read_hpack_int-Takes : (prefix : ℕ) (data' : Bytes) → Takes 1 data' (read_hpack_int prefix data')
unfolding read_hpack_int IsReal
read_hpack_int-Takes prefix [] = (tt, λ p e. absurd (ground arith))
read_hpack_int-Takes prefix (b ∷ data') =
    let rest = hpack_int_loop-Takes data' 0 (b % 2 ^ prefix) in
    elim (Bool-cases (ltb (b % 2 ^ prefix) (2 ^ prefix - 1))) [
      | inl e ↦ rw e (tt, λ p q. ground arith)
      | inr e ↦ rw e (rest.0, λ p q. omega (arith, rest.1 p q))
    ]

Takes-bind {ℓ κ} :
    {A : Type ℓ} {B : Type κ} (n : ℕ) (data' : Bytes) (r : Result FrameError (A × Bytes))
    (f : A × Bytes → Result FrameError (B × Bytes))
    → Takes n data' r
    → ((p : A × Bytes) → Takes 0 p.1 (f p))
    → Takes n data' (r >>= f)
Takes-bind n data' r f (h, k) later = (
  bind-IsReal r f h (λ p e. (later p).0),
  λ q e. after_ok r e (λ p e1 e2. omega (arith, k p e1, (later p).1 q e2)),
)

hpack_text-Takes :
    (huffman : Bool) (n : ℕ) (rest : Bytes) → Takes 0 rest (hpack_text huffman n rest)
unfolding hpack_text IsReal
hpack_text-Takes huffman n rest = elim (Bool-cases (ltb (length rest) n)) [
  | inl e ↦ rw e (tt, λ p q. absurd (ground arith))
  | inr e ↦ rw e (tt, λ p q. ground (arith, length-drop n rest))
]

read_hpack_string-Takes : (data' : Bytes) → Takes 1 data' (read_hpack_string data')
unfolding read_hpack_string IsReal
read_hpack_string-Takes [] = (tt, λ p e. absurd (ground arith))
read_hpack_string-Takes (b ∷ data') =
    Takes-bind 1 (b ∷ data') (read_hpack_int 7 (b ∷ data')) _ (read_hpack_int-Takes 7 (b ∷ data'))
      (λ p. hpack_text-Takes (leb 128 b) p.0 p.1)

literal_name-Takes :
    (dynamic : List Bytes) (index : ℕ) (rest : Bytes)
    → Takes 0 rest (literal_name dynamic index rest)
unfolding literal_name IsReal
literal_name-Takes dynamic zero rest =
    let t = read_hpack_string-Takes rest in (t.0, λ p e. omega (arith, t.1 p e))
literal_name-Takes dynamic (suc i) rest = (tt, λ p e. ground arith)

value-Takes :
    (name rest : Bytes)
    → Takes 0 rest (read_hpack_string rest >>= λ (value, rest'). ok (name, rest'))
unfolding IsReal
value-Takes name rest =
    let t = read_hpack_string-Takes rest in
    Takes-bind 0 rest (read_hpack_string rest) _ (t.0, λ p e. omega (arith, t.1 p e))
      (λ p. (tt, λ q e. ground arith))

read_literal_name-Takes :
    (dynamic : List Bytes) (prefix : ℕ) (block : Bytes)
    → Takes 1 block (read_literal_name dynamic prefix block)
unfolding read_literal_name
read_literal_name-Takes dynamic prefix block =
    Takes-bind 1 block (read_hpack_int prefix block) _ (read_hpack_int-Takes prefix block) (λ p.
      Takes-bind 0 p.1 (literal_name dynamic p.0 p.1) _ (literal_name-Takes dynamic p.0 p.1)
        (λ q. value-Takes q.0 q.1))

-- A field, with the table beside the rest of the block.
TakesField : Bytes → Parsed (Bytes × List Bytes × Bytes) → Type 0
TakesField data' r =
    IsReal r × ((p : Bytes × List Bytes × Bytes) → r ≡ ok p → length p.2 + 1 ≤ length data')

field-TakesField {ℓ} :
    {A : Type ℓ} (data' : Bytes) (r : Result FrameError (A × Bytes)) (name : A → Bytes)
    (table : A → List Bytes)
    → Takes 1 data' r
    → TakesField data' (r >>= λ (a, rest). ok (name a, table a, rest))
unfolding IsReal TakesField
field-TakesField data' (ok (a, rest)) name table (h, k) =
    (tt, λ p e. ground (arith, k (a, rest) refl))
field-TakesField data' (err e) name table (h, k) = (h, λ p e. absurd (ground arith))

decode_field-TakesField :
    (dynamic : List Bytes) (b : ℕ) (block : Bytes) → TakesField block (decode_field dynamic b block)
unfolding decode_field
decode_field-TakesField dynamic b block = elim (Bool-cases (leb 128 b)) [
  | inl e ↦ rw e (
      field-TakesField block (read_hpack_int 7 block) (lookup_name dynamic) (λ i. dynamic)
        (read_hpack_int-Takes 7 block))
  | inr e ↦ elim (Bool-cases (leb 64 b)) [
    | inl f ↦
        rw (e, f)
          (field-TakesField block (read_literal_name dynamic 6 block) (λ n. n)
            (λ n. add_dynamic_name n dynamic) (read_literal_name-Takes dynamic 6 block))
    | inr f ↦ elim (Bool-cases (leb 32 b)) [
      | inl g ↦
          rw (e, f, g)
            (field-TakesField block (read_hpack_int 5 block) (λ i. []) (λ i. dynamic)
              (read_hpack_int-Takes 5 block))
      | inr g ↦
          rw (e, f, g)
            (field-TakesField block (read_literal_name dynamic 4 block) (λ n. n) (λ n. dynamic)
              (read_literal_name-Takes dynamic 4 block))
    ]
  ]
]

pub decode-IsReal :
    (fuel : ℕ) (dynamic : List Bytes) (block : Bytes)
    → length block ≤ fuel
    → IsReal (decode fuel dynamic block)
unfolding decode IsReal TakesField
decode-IsReal fuel dynamic [] h = tt
decode-IsReal zero dynamic (b ∷ block) h = absurd (omega (arith, h))
decode-IsReal (suc fuel) dynamic (b ∷ block) h =
    let t = decode_field-TakesField dynamic b (b ∷ block) in
    bind-IsReal (decode_field dynamic b (b ∷ block)) _ t.0 (λ p e.
      bind-IsReal (decode fuel p.1 p.2) _ (decode-IsReal fuel p.1 p.2 (omega (arith, h, t.1 p e)))
        (λ q f. tt))
