-- ===== src/Challenge/Pow.antt =====
-- `verifyPoW` and `leadingZeroBits` of internal/challenge/service.go.
pub mod Bound
use anti_scrapling.Go.{
  ℕ, zero, suc, ◌+◌, ltb, leb, Bool, if◌then◌else◌, [], ◌∷◌, ◌++◌, Bytes, ℤ, pos, leb_ℤ,
}

-- `bits.LeadingZeros8`
unfoldable pub leading_zeros8 : ℕ → ℕ
leading_zeros8 b =
    if ltb b 1
    then 8
    else if ltb b 2
    then 7
    else if ltb b 4
    then 6
    else if ltb b 8
    then 5
    else if ltb b 16
    then 4
    else if ltb b 32
    then 3
    else if ltb b 64
    then 2
    else if ltb b 128
    then 1
    else 0

unfoldable pub leading_zero_bits : Bytes → ℕ
unfolding leading_zeros8
leading_zero_bits [] = 0
leading_zero_bits (b ∷ bs) =
    let rest = leading_zero_bits bs in let z = leading_zeros8 b in if ltb z 8 then z else z + rest

-- `difficulty` is an int of the configuration.
module _ (sha256 : Bytes → Bytes) where
  unfoldable pub verify_pow : Bytes → Bytes → ℤ → Bool
  unfolding leading_zero_bits
  verify_pow challenge_id solution difficulty =
      leb_ℤ difficulty (pos (leading_zero_bits (sha256 (challenge_id ++ solution))))
