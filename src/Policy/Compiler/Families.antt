-- ===== src/Policy/Compiler/Families.antt =====
-- internal/policy/compiler.go: the function `matches_family` that the CEL environment is given.
use anti_scrapling.Go.{
  Bool, true, false, Option, none, some, List, [], ◌∷◌, if◌then◌else◌, Bytes, codes, has_prefix,
  length, drop,
}

-- A value of CEL as `matchesFamilyBinding` tells values apart: a string, a list, and any other.
pub data Element : Type 0 where
  text : Bytes → Element
  other : Element

pub data Val : Type 0 where
  text : Bytes → Val
  lister : List Element → Val
  other : Val

-- `strings.TrimPrefix`
unfoldable pub trim_prefix : Bytes → Bytes → Bytes
trim_prefix s prefix = if has_prefix s prefix then drop (length prefix) s else s

-- `err == nil && matched`
unfoldable pub is_match : Option Bool → Bool
is_match none = false
is_match (some matched) = matched

-- `path_match` is `path.Match`, which returns an error on a pattern that is malformed.
module _ (path_match : Bytes → Bytes → Option Bool) where
  unfoldable pub any_family : Bytes → List Element → Bool
  any_family ja3 [] = false
  any_family ja3 (Element.other ∷ patterns) = any_family ja3 patterns
  any_family ja3 (Element.text pattern ∷ patterns) =
      let rest = any_family ja3 patterns in
      if is_match (path_match (trim_prefix pattern (codes "@")) ja3) then true else rest

  unfoldable pub matches_family_binding : Val → Val → Bool
  matches_family_binding (Val.text ja3) (lister patterns) = any_family ja3 patterns
  matches_family_binding _ _ = false
