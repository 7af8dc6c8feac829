-- ===== src/Go/Hex.antt =====
-- Package encoding/hex, and the verb %x on bytes.
use anti_scrapling.Go.Tests.{ltb, if◌then◌else◌}
use anti_scrapling.Go.Text.{Bytes}
use Prim.Native.Nat.{ℕ, ◌+◌, ◌-◌, ◌/◌, ◌%◌}
use mathlib.Core.List.{[], ◌∷◌}

abbrev pub hex_digit : ℕ → ℕ
hex_digit n = if ltb n 10 then b'0' + n else b'a' + (n - 10)

-- Two lowercase digits for each.
unfoldable pub hex : Bytes → Bytes
hex [] = []
hex (b ∷ bs) = hex_digit (b / 16) ∷ hex_digit (b % 16) ∷ hex bs
