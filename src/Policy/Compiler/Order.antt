-- ===== src/Policy/Compiler/Order.antt =====
-- A match map is a Go map: the expression does not depend on the order that the map is read in.
use anti_scrapling.Go.{◌≡◌, refl, List, [], ◌∷◌, Bytes, Assoc, lookup, arith}
use anti_scrapling.Go.Strings.Sort.{sort_strings-perm}
use anti_scrapling.Types.{MatchValue}
use anti_scrapling.Policy.Compiler.{value_at, keys_of, parts_of, match_map_to_expr}
use mathlib.Core.List.{Perm}
use mathlib.Core.List.Perm

-- Two lists of entries that stand for one Go map.
pub record SameMap (m n : Assoc MatchValue) : Type 0 where
  pub same_keys : Perm (keys_of m) (keys_of n)
  pub same_values : (k : Bytes) → lookup k m ≡ lookup k n

value_at-eq :
    (m n : Assoc MatchValue) (k : Bytes) → lookup k m ≡ lookup k n → value_at m k ≡ value_at n k
unfolding value_at
value_at-eq m n k e = ground arith

module _ (quote : Bytes → Bytes) where
  parts_of-SameMap :
      (m n : Assoc MatchValue) (keys : List Bytes)
      → ((k : Bytes) → lookup k m ≡ lookup k n)
      → parts_of quote m keys ≡ parts_of quote n keys
  unfolding parts_of
  parts_of-SameMap m n [] same = refl
  parts_of-SameMap m n (k ∷ keys) same =
      rw (value_at-eq m n k (same k), parts_of-SameMap m n keys same) refl

  -- The expression of a match map is the same for every order in which Go may range over it, and
  -- so is the error where there is one.
  pub match_map_to_expr-SameMap :
      (m n : Assoc MatchValue) → SameMap m n → match_map_to_expr quote m ≡ match_map_to_expr quote n
  unfolding match_map_to_expr keys_of
  match_map_to_expr-SameMap [] [] s = refl
  match_map_to_expr-SameMap [] (e ∷ n) s = cc (Perm.nil-eq s.same_keys)
  match_map_to_expr-SameMap (e ∷ m) [] s = cc (Perm.eq-nil s.same_keys)
  match_map_to_expr-SameMap (e ∷ m) (f ∷ n) s =
      rw (sort_strings-perm _ _ s.same_keys, parts_of-SameMap (e ∷ m) (f ∷ n) _ s.same_values) refl
