-- ===== src/Challenge/Pow/Bound.antt =====
-- Leading zero bits, as a bound on the digest read as a number.
use anti_scrapling.Go.{
  ℕ, zero, suc, ◌+◌, ◌-◌, ◌*◌, ◌^◌, ◌<◌, ◌≤◌, ◌≡◌, ◌↔◌, true, [], ◌∷◌, ◌++◌, Bytes, length, arith,
  All, false, pos, leb, inl, inr, ltb, Bool-cases,
}
use anti_scrapling.Challenge.Pow.{leading_zeros8, leading_zero_bits, verify_pow}
use native.Mathlib.Nat.{mul-le-mul_left, mul-le-mul_right}

-- The number that bytes denote, the most significant first.
abbrev pub big_endian : Bytes → ℕ
big_endian [] = 0
big_endian (b ∷ bs) = b * 256 ^ length bs + big_endian bs

pow_length : (n : ℕ) → 256 ^ suc n ≡ 256 * 256 ^ n
pow_length n = omega arith

big_endian_lt : (bs : Bytes) → All (λ b. b < 256) bs → big_endian bs < 256 ^ length bs
big_endian_lt [] h = omega arith
big_endian_lt (b ∷ bs) (l, h) =
    let top : (b + 1) * 256 ^ length bs ≤ 256 * 256 ^ length bs =
      mul-le-mul_right (256 ^ length bs) (omega arith) in
    omega (arith, big_endian_lt bs h, pow_length (length bs))

pow_pos : (k : ℕ) → 0 < 2 ^ k
pow_pos zero = omega arith
pow_pos (suc k) = omega (arith, pow_pos k)

pow_mono : (j k : ℕ) → j ≤ k → 2 ^ j ≤ 2 ^ k
pow_mono zero k h = pow_pos k
pow_mono (suc j) zero h = absurd (omega arith)
pow_mono (suc j) (suc k) h = omega (arith, pow_mono j k (omega arith))

-- A first byte with `z` leading zeros lies in [2^(7 - z), 2^(8 - z)).
leading_zeros8_le : (b : ℕ) → b < 256 → (b + 1) * 2 ^ leading_zeros8 b ≤ 256
unfolding leading_zeros8
leading_zeros8_le b h = ground arith

leading_zeros8_gt : (b : ℕ) → leading_zeros8 b < 8 → 256 ≤ b * 2 ^ (leading_zeros8 b + 1)
unfolding leading_zeros8
leading_zeros8_gt b h = ground arith

below : (b p r t : ℕ) → r < p → (b + 1) * t ≤ 256 → 0 < t → (b * p + r) * t < 256 * p
below b p r t h k l =
    let low : (r + 1) * t ≤ p * t = mul-le-mul_right t (omega arith) in
    let high : (b + 1) * t * p ≤ 256 * p = mul-le-mul_right p k in omega arith

above : (b p r t : ℕ) → 256 ≤ b * t → 256 * p ≤ (b * p + r) * t
above b p r t h = let high : 256 * p ≤ b * t * p = mul-le-mul_right p h in omega arith

pow_double : (k j : ℕ) → j ≡ suc k → 2 ^ j ≡ 2 * 2 ^ k
pow_double k j h = rw h (omega arith)

pow_add8 : (k : ℕ) → 8 ≤ k → 2 ^ k ≡ 256 * 2 ^ (k - 8)
pow_add8 k h = omega (
  arith,
  pow_double (k - 8) (k - 7) (omega arith),
  pow_double (k - 7) (k - 6) (omega arith),
  pow_double (k - 6) (k - 5) (omega arith),
  pow_double (k - 5) (k - 4) (omega arith),
  pow_double (k - 4) (k - 3) (omega arith),
  pow_double (k - 3) (k - 2) (omega arith),
  pow_double (k - 2) (k - 1) (omega arith),
  pow_double (k - 1) k (omega arith),
)

leading_zero_bits-zero :
    (b : ℕ) (bs : Bytes)
    → leading_zeros8 b ≡ 8
    → leading_zero_bits (b ∷ bs) ≡ 8 + leading_zero_bits bs
unfolding leading_zero_bits
leading_zero_bits-zero b bs h = ground (arith, h)

zero_first : (b p r t : ℕ) → b ≡ 0 → (b * p + r) * t ≡ r * t
zero_first b p r t h = rw h (omega arith)

leading_zeros8_zero : (b : ℕ) → ltb (leading_zeros8 b) 8 ≡ false → (b ≡ 0) × (leading_zeros8 b ≡ 8)
unfolding leading_zeros8
leading_zeros8_zero b h = ground arith

zero_first_le : {x t p q : ℕ} (r u : ℕ) → x ≡ r * t → t ≡ 256 * u → q ≡ 256 * p → r * u < p → x < q
zero_first_le r u e f g h = rw (e, f, g) (omega arith)

zero_first_low :
    (b : ℕ) (bs : Bytes) (k : ℕ)
    → b ≡ 0
    → All (λ b. b < 256) bs
    → k ≤ 8 + leading_zero_bits bs
    → (k - 8 ≤ leading_zero_bits bs → big_endian bs * 2 ^ (k - 8) < 256 ^ length bs)
    → big_endian (b ∷ bs) * 2 ^ k < 256 ^ length (b ∷ bs)
zero_first_low b bs k b0 h l rest =
    let split = zero_first b (256 ^ length bs) (big_endian bs) (2 ^ k) b0 in
    elim (Bool-cases (leb k 8)) [
      | inl e ↦
          let small : big_endian bs * 2 ^ k ≤ big_endian bs * 256 =
            mul-le-mul_left (big_endian bs) (pow_mono k 8 (ground (arith, e))) in
          omega (arith, split, small, big_endian_lt bs h, pow_length (length bs))
      | inr e ↦
          let pow = pow_add8 k (ground (arith, e)) in
          zero_first_le (big_endian bs) (2 ^ (k - 8)) split pow (pow_length (length bs))
            (rest (omega arith))
    ]

low_of_bits :
    (bs : Bytes) (k : ℕ)
    → All (λ b. b < 256) bs
    → k ≤ leading_zero_bits bs
    → big_endian bs * 2 ^ k < 256 ^ length bs
unfolding leading_zero_bits
low_of_bits [] k h l = omega arith
low_of_bits (b ∷ bs) k (c, h) l = elim (Bool-cases (ltb (leading_zeros8 b) 8)) [
  | inl e ↦
      let z : k ≤ leading_zeros8 b = ground (arith, e) in
      let t : (b + 1) * 2 ^ k ≤ (b + 1) * 2 ^ leading_zeros8 b =
        mul-le-mul_left (b + 1) (pow_mono k (leading_zeros8 b) z) in
      omega (
        arith,
        pow_length (length bs),
        below b (256 ^ length bs) (big_endian bs) (2 ^ k) (big_endian_lt bs h)
            (omega (arith, t, leading_zeros8_le b c)) (pow_pos k),
      )
  | inr e ↦
      let (b0, z) = leading_zeros8_zero b e in
      zero_first_low b bs k b0 h (omega (arith, leading_zero_bits-zero b bs z))
        (low_of_bits bs (k - 8) h)
]

zero_first_ge : {x t p q : ℕ} (r u : ℕ) → x ≡ r * t → t ≡ 256 * u → q ≡ 256 * p → p ≤ r * u → q ≤ x
zero_first_ge r u e f g h = rw (e, f, g) (omega arith)

zero_first_high :
    (b : ℕ) (bs : Bytes) (k : ℕ)
    → b ≡ 0
    → 8 ≤ k
    → 256 ^ length bs ≤ big_endian bs * 2 ^ (k - 8)
    → 256 ^ length (b ∷ bs) ≤ big_endian (b ∷ bs) * 2 ^ k
zero_first_high b bs k b0 l rest =
    let split = zero_first b (256 ^ length bs) (big_endian bs) (2 ^ k) b0 in
    zero_first_ge (big_endian bs) (2 ^ (k - 8)) split (pow_add8 k l) (pow_length (length bs)) rest

high_of_bits :
    (bs : Bytes) (k : ℕ)
    → leading_zero_bits bs < k
    → k ≤ 8 * length bs
    → 256 ^ length bs ≤ big_endian bs * 2 ^ k
unfolding leading_zero_bits
high_of_bits [] k l m = omega arith
high_of_bits (b ∷ bs) k l m = elim (Bool-cases (ltb (leading_zeros8 b) 8)) [
  | inl e ↦
      let z : leading_zeros8 b + 1 ≤ k = ground (arith, e) in
      let t : b * 2 ^ (leading_zeros8 b + 1) ≤ b * 2 ^ k =
        mul-le-mul_left b (pow_mono (leading_zeros8 b + 1) k z) in
      omega (
        arith,
        pow_length (length bs),
        above b (256 ^ length bs) (big_endian bs) (2 ^ k)
            (omega (arith, t, leading_zeros8_gt b (ground (arith, e)))),
      )
  | inr e ↦
      let (b0, z) = leading_zeros8_zero b e in
      zero_first_high b bs k b0 (omega (arith, leading_zero_bits-zero b bs z))
        (high_of_bits bs (k - 8) (omega (arith, leading_zero_bits-zero b bs z)) (omega arith))
]

-- `verifyPoW` accepts a solution exactly if the SHA-256 digest of the challenge id and the
-- solution, read as a big-endian number of as many bits as the digest has, times two to the
-- difficulty stays below two to that number of bits: the first `difficulty` bits are zero. The
-- difficulty lies between 0 and the bits of the digest.
pub verify_pow_iff :
    (sha256 : Bytes → Bytes) (id solution : Bytes) (difficulty : ℕ)
    → All (λ b. b < 256) (sha256 (id ++ solution))
    → difficulty ≤ 8 * length (sha256 (id ++ solution))
    → (verify_pow sha256 id solution (pos difficulty) ≡ true) ↔ (
        big_endian (sha256 (id ++ solution)) * 2 ^ difficulty
        < 256 ^ length (sha256 (id ++ solution)))
unfolding verify_pow
verify_pow_iff sha256 id solution difficulty h m =
    let digest = sha256 (id ++ solution) in
    (
      λ e. low_of_bits digest difficulty h (ground (arith, e)),
      λ l. elim (Bool-cases (leb difficulty (leading_zero_bits digest))) [
        | inl e ↦ ground (arith, e)
        | inr e ↦ absurd (omega (arith, l, high_of_bits digest difficulty (ground (arith, e)) m))
      ],
    )
