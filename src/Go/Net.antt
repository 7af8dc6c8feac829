-- ===== src/Go/Net.antt =====
-- `net.SplitHostPort`.
use anti_scrapling.Go.Tests.{◌==◌, if◌then◌else◌}
use anti_scrapling.Go.Text.{Bytes}
use Prim.Native.Nat.{ℕ}
use mathlib.Core.Bool.{Bool, false, ◌||◌}
use mathlib.Core.Option.{Option, none, some}
use mathlib.Core.List.{[], ◌∷◌}

unfoldable pub has_byte : ℕ → Bytes → Bool
has_byte b [] = false
has_byte b (c ∷ s) = c == b || has_byte b s

-- What stands before and after the last colon.
unfoldable pub last_colon : Bytes → Option (Bytes × Bytes)
last_colon [] = none
last_colon (c ∷ s) = elim (last_colon s) [
  | some (before, after) ↦ some (c ∷ before, after)
  | none ↦ if c == b':' then some ([], s) else none
]

-- The text before a `]` that is its last byte and its only one.
unfoldable pub before_bracket : Bytes → Option Bytes
before_bracket [] = none
before_bracket (c ∷ []) = if c == b']' then some [] else none
before_bracket (c ∷ d ∷ s) = elim (before_bracket (d ∷ s)) [
  | none ↦ none
  | some host ↦ if c == b']' then none else some (c ∷ host)
]

abbrev host_and_port : Bytes → Bytes → Option (Bytes × Bytes)
host_and_port host port =
    if has_byte b'[' host || has_byte b'[' port || has_byte b']' host || has_byte b']' port
    then none
    else some (host, port)

abbrev split_before : Bytes → Bytes → Option (Bytes × Bytes)
split_before [] port = host_and_port [] port
split_before (c ∷ before) port =
    if c == b'['
    then elim (before_bracket before) [ none ↦ none | some host ↦ host_and_port host port ]
    else if has_byte b':' (c ∷ before)
    then none
    else host_and_port (c ∷ before) port

-- `none` is the error: no port, too many colons or a stray bracket.
unfoldable pub split_host_port : Bytes → Option (Bytes × Bytes)
unfolding last_colon before_bracket has_byte
split_host_port s = elim (last_colon s) [
  | none ↦ none
  | some (before, port) ↦ split_before before port
]
