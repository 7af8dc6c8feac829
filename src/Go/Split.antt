-- ===== src/Go/Split.antt =====
-- `strings.Split`, `IndexByte` and `ReplaceAll` at a single byte.
use anti_scrapling.Go.Tests.{◌==◌, if◌then◌else◌}
use anti_scrapling.Go.Lists.{All}
use anti_scrapling.Go.Text.{Bytes}
use anti_scrapling.Go.Separators.{Lacks}
use Prim.Native.Nat.{ℕ}
use mathlib.Core.Logic.{◌≢◌}
use mathlib.Core.Bool.{Bool, false, ◌||◌}
use mathlib.Core.Option.{Option, none, some}
use mathlib.Core.List.{List, [], ◌∷◌, ◌++◌}
use native.Mathlib.Omega.{arith}

-- A byte before the first part.
abbrev pub onto_first : ℕ → List Bytes → List Bytes
onto_first c [] = (c ∷ []) ∷ []
onto_first c (part ∷ parts) = (c ∷ part) ∷ parts

-- `strings.Split(s, sep)` for a separator of one byte: a part before each separator and one behind
-- the last.
unfoldable pub split_on : ℕ → Bytes → List Bytes
split_on sep [] = [] ∷ []
split_on sep (c ∷ s) =
    let rest = split_on sep s in if c == sep then [] ∷ rest else onto_first c rest

-- What stands before the first `sep`: `s[:strings.IndexByte(s, sep)]`, and all of `s` where there
-- is none.
unfoldable pub before_byte : ℕ → Bytes → Bytes
before_byte sep [] = []
before_byte sep (c ∷ s) = let rest = before_byte sep s in if c == sep then [] else c ∷ rest

-- What stands behind the first `sep`, if there is one.
unfoldable pub after_byte : ℕ → Bytes → Option Bytes
after_byte sep [] = none
after_byte sep (c ∷ s) = let rest = after_byte sep s in if c == sep then some s else rest

unfoldable pub contains_byte : ℕ → Bytes → Bool
contains_byte sep [] = false
contains_byte sep (c ∷ s) = c == sep || contains_byte sep s

-- `strings.ReplaceAll` of a byte by a text.
unfoldable pub replace_byte : ℕ → Bytes → Bytes → Bytes
replace_byte old new [] = []
replace_byte old new (c ∷ s) =
    let rest = replace_byte old new s in if c == old then new ++ rest else c ∷ rest

pub before_byte-Lacks : (sep : ℕ) (s : Bytes) → Lacks sep (before_byte sep s)
unfolding before_byte
before_byte-Lacks sep [] = tt
before_byte-Lacks sep (c ∷ s) = ground (arith, before_byte-Lacks sep s)

onto_first-Lacks :
    (sep c : ℕ) (parts : List Bytes)
    → c ≢ sep
    → All (Lacks sep) parts
    → All (Lacks sep) (onto_first c parts)
onto_first-Lacks sep c [] n h = ((n, tt), tt)
onto_first-Lacks sep c (part ∷ parts) n (h, k) = ((n, h), k)

pub split_on-Lacks : (sep : ℕ) (s : Bytes) → All (Lacks sep) (split_on sep s)
unfolding split_on
split_on-Lacks sep [] = (tt, tt)
split_on-Lacks sep (c ∷ s) =
    ground (arith, split_on-Lacks sep s, onto_first-Lacks sep c (split_on sep s))
