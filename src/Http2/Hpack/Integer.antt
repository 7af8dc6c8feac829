-- ===== src/Http2/Hpack/Integer.antt =====
-- Integers as RFC 7541, section 5.1, writes them.
use anti_scrapling.Go.{
  ℕ, zero, suc, ◌+◌, ◌-◌, ◌*◌, ◌/◌, ◌%◌, ◌^◌, ◌<◌, ◌≤◌, ◌≡◌, refl, ap, ◌∙◌, ltb, true, false,
  Bool-cases, inl, inr, if◌then◌else◌, [], ◌∷◌, ◌++◌, Bytes, ok, arith,
}
use native.Mathlib.Nat.{mul-add-mod_self_right, mod-eq_of_lt}
use anti_scrapling.Http2.Hpack.{hpack_int_loop, read_hpack_int}

-- Seven bits to a byte, the lowest first.
abbrev pub put_rest : ℕ → ℕ → Bytes
put_rest zero n = n ∷ []
put_rest (suc more) n = if ltb n 128 then n ∷ [] else (128 + n % 128) ∷ put_rest more (n / 128)

-- An integer in the low bits of a first byte, whose high bits are `high`.
abbrev pub put_int : ℕ → ℕ → ℕ → Bytes
put_int prefix high n =
    if ltb n (2 ^ prefix - 1)
    then (high * 2 ^ prefix + n) ∷ []
    else (high * 2 ^ prefix + (2 ^ prefix - 1)) ∷ put_rest 8 (n - (2 ^ prefix - 1))

-- A number of at most `more` + 1 such bytes.
abbrev Fits : ℕ → ℕ → Type 0
Fits zero n = n < 128
Fits (suc more) n = Fits more (n / 128)

pow_7 : (shift : ℕ) → 2 ^ (shift + 7) ≡ 128 * 2 ^ shift
pow_7 zero = omega arith
pow_7 (suc shift) = double (shift + 7) (suc shift + 7) (omega arith) ∙ omega (arith, pow_7 shift)
  where
    double : (k j : ℕ) → j ≡ suc k → 2 ^ j ≡ 2 * 2 ^ k
    double k j h = rw h (omega arith)

split : (n r q t u : ℕ) → n ≡ r + 128 * q → u ≡ 128 * t → n * t ≡ r * t + q * u
split n r q t u e f = rw (e, f) (omega arith)

last_byte :
    (n shift value : ℕ) (rest : Bytes)
    → n < 128
    → value + n * 2 ^ shift < 2 ^ 64
    → hpack_int_loop shift value (n ∷ rest) ≡ ok (value + n * 2 ^ shift, rest)
unfolding hpack_int_loop
last_byte n shift value rest b h =
    let same : n % 128 ≡ n = omega arith in
    let test : ltb n 128 ≡ true = ground arith in
    let fits : (value + n * 2 ^ shift) % 2 ^ 64 ≡ value + n * 2 ^ shift = omega arith in
    rw (same, test, fits) refl

next_byte :
    (m shift value : ℕ) (rest : Bytes)
    → m < 128
    → shift + 7 ≤ 56
    → value + m * 2 ^ shift < 2 ^ 64
    → hpack_int_loop shift value ((128 + m) ∷ rest)
      ≡ hpack_int_loop (shift + 7) (value + m * 2 ^ shift) rest
unfolding hpack_int_loop
next_byte m shift value rest b s h =
    let low : (128 + m) % 128 ≡ m = omega arith in
    let test : ltb (128 + m) 128 ≡ false = ground arith in
    let short : ltb 56 (shift + 7) ≡ false = ground arith in
    let fits : (value + m * 2 ^ shift) % 2 ^ 64 ≡ value + m * 2 ^ shift = omega arith in
    rw (low, test, short, fits) refl

hpack_int_loop-put :
    (more n shift value : ℕ) (rest : Bytes)
    → shift + 7 * more ≤ 56
    → Fits more n
    → value + n * 2 ^ shift < 2 ^ 64
    → hpack_int_loop shift value (put_rest more n ++ rest) ≡ ok (value + n * 2 ^ shift, rest)
hpack_int_loop-put zero n shift value rest s b h = last_byte n shift value rest b h
hpack_int_loop-put (suc more) n shift value rest s b h = elim (Bool-cases (ltb n 128)) [
  | inl e ↦ rw e (last_byte n shift value rest (ground (arith, e)) h)
  | inr e ↦
      let parts =
        split n (n % 128) (n / 128) (2 ^ shift) (2 ^ (shift + 7)) (omega arith) (pow_7 shift) in
      let total : value + n % 128 * 2 ^ shift + n / 128 * 2 ^ (shift + 7) ≡ value + n * 2 ^ shift =
        omega (arith, parts) in
      rw e (
        next_byte (n % 128) shift value (put_rest more (n / 128) ++ rest) (omega arith)
          (omega arith) (omega (arith, total))
        ∙ hpack_int_loop-put more (n / 128) (shift + 7) (value + n % 128 * 2 ^ shift) rest
            (omega arith) b (omega (arith, total))
        ∙ ap (λ v. ok (v, rest)) total)
]

pow_pos : (k : ℕ) → 0 < 2 ^ k
pow_pos zero = omega arith
pow_pos (suc k) = omega (arith, pow_pos k)

-- The low bits of a first byte.
low_bits : (high p n : ℕ) → n < p → (high * p + n) % p ≡ n
low_bits high p n h = mul-add-mod_self_right high p n ∙ mod-eq_of_lt h

below_mask : (p n : ℕ) → n < p - 1 → n < p
below_mask p n h = omega arith

-- An integer below 2^63 that is written with a prefix of any length is read back, and the
-- uint64 arithmetic does not wrap on the way.
pub read_hpack_int-put_int :
    (prefix high n : ℕ) (rest : Bytes)
    → n < 2 ^ 63
    → read_hpack_int prefix (put_int prefix high n ++ rest) ≡ ok (n, rest)
unfolding read_hpack_int
read_hpack_int-put_int prefix high n rest h =
    let p = 2 ^ prefix in
    elim (Bool-cases (ltb n (p - 1))) [
      | inl e ↦
          let l : n < p - 1 = ground (arith, e) in
          rw (e, low_bits high p n (below_mask p n l), e, read_hpack_int) refl
      | inr e ↦
          let full : p - 1 < p = omega (arith, pow_pos prefix) in
          let not_below : ltb (p - 1) (p - 1) ≡ false = ground arith in
          let back : p - 1 + (n - (p - 1)) * 2 ^ 0 ≡ n = ground (arith, e) in
          rw (e, low_bits high p (p - 1) full, not_below, read_hpack_int)
            (hpack_int_loop-put 8 (n - (p - 1)) 0 (p - 1) rest (omega arith) (omega arith)
                (omega (arith, back))
              ∙ ap (λ v. ok (v, rest)) back)
    ]
