-- ===== src/Policy/Compiler.antt =====
-- internal/policy/compiler.go: a rule's match map becomes a CEL expression.
pub mod Order
pub mod Comparison
pub mod Families
use anti_scrapling.Go.{
  ℕ, suc, ◌+◌, ◌≡◌, Bool, true, false, Option, none, some, List, [], ◌∷◌, ◌++◌, map, length, drop,
  if◌then◌else◌, Bytes, codes, text_eq, has_prefix, join, Assoc, lookup, ok, err, ◌>>=◌, trim_space,
  atoi, sort_strings,
}
use anti_scrapling.Go.{Result}
use anti_scrapling.Types.{MatchValue, MatchItem, PolicyRule}

-- The errors of this file, by the `fmt.Errorf` that makes them.
pub data MatchError : Type 0 where
  not_string not_bool unknown_key : Bytes → MatchError
  not_list : MatchError
  item_not_string : ℕ → MatchError
  bad_number bad_comparison : Bytes → MatchError

abbrev pub comparison_ops : List Bytes
comparison_ops = codes ">=" ∷ codes "<=" ∷ codes "!=" ∷ codes ">" ∷ codes "<" ∷ codes "==" ∷ []

-- `score %s %s`
abbrev pub score_expr : Bytes → Bytes → Bytes
score_expr op num = codes "score " ++ (op ++ (codes " " ++ num))

unfoldable pub parse_score_with : List Bytes → Bytes → Result MatchError Bytes
parse_score_with [] s = err (bad_comparison s)
parse_score_with (op ∷ ops) s =
    if has_prefix s op
    then (let num = trim_space (drop (length op) s) in
        elim (atoi num) [ none ↦ err (bad_number s) | some _ ↦ ok (score_expr op num) ])
    else parse_score_with ops s

unfoldable pub parse_score_expr : Bytes → Result MatchError Bytes
parse_score_expr = parse_score_with comparison_ops

-- The loop of `toStringSlice`, at index `i`.
unfoldable pub strings_from : ℕ → List MatchItem → Result MatchError (List Bytes)
strings_from i [] = ok []
strings_from i (MatchItem.text s ∷ items) = strings_from (i + 1) items >>= λ rest. ok (s ∷ rest)
strings_from i (MatchItem.other ∷ items) = err (item_not_string i)

unfoldable pub to_string_slice : MatchValue → Result MatchError (List Bytes)
to_string_slice (MatchValue.items raw) = strings_from 0 raw
to_string_slice _ = err not_list

-- `s, ok := value.(string)`
unfoldable pub as_string : Bytes → MatchValue → Result MatchError Bytes
as_string key (MatchValue.text s) = ok s
as_string key _ = err (not_string key)

unfoldable pub as_bool : Bytes → MatchValue → Result MatchError Bool
as_bool key (MatchValue.flag b) = ok b
as_bool key _ = err (not_bool key)

-- `match[key]`: a missing key reads as nil, which no case accepts.
unfoldable pub value_at : Assoc MatchValue → Bytes → MatchValue
value_at match key = elim (lookup key match) [ none ↦ MatchValue.other | some v ↦ v ]

unfoldable pub keys_of : Assoc MatchValue → List Bytes
keys_of [] = []
keys_of ((k, v) ∷ match) = k ∷ keys_of match

-- `quote` is `strconv.Quote`, the verb %q.
module _ (quote : Bytes → Bytes) where
  unfoldable pub join_quoted : List Bytes → Bytes
  join_quoted ss = join (map quote ss) (codes ", ")

  unfoldable pub key_value_to_expr : Bytes → MatchValue → Result MatchError Bytes
  key_value_to_expr key value =
      if text_eq key (codes "expr")
      then as_string key value
      else if text_eq key (codes "path")
      then (as_string key value >>= λ s. ok (codes "request.path == " ++ quote s))
      else if text_eq key (codes "path_prefix")
      then (as_string key value >>= λ s.
          ok (codes "request.path.startsWith(" ++ (quote s ++ codes ")")))
      else if text_eq key (codes "ja3_in")
      then (to_string_slice value >>= λ list.
          ok (codes "ja3.matches_family([" ++ (join_quoted list ++ codes "])")))
      else if text_eq key (codes "score")
      then (as_string key value >>= parse_score_expr)
      else if text_eq key (codes "ip_category")
      then (as_string key value >>= λ s. ok (codes "ip.category == " ++ quote s))
      else if text_eq key (codes "has_valid_token")
      then (as_bool key value >>= λ b.
          ok (if b then codes "has_valid_token" else codes "!has_valid_token"))
      else err (unknown_key key)

  unfoldable pub parts_of : Assoc MatchValue → List Bytes → Result MatchError (List Bytes)
  parts_of match [] = ok []
  parts_of match (key ∷ keys) = key_value_to_expr key (value_at match key) >>= λ part.
      parts_of match keys >>= λ parts. ok (part ∷ parts)

  unfoldable pub match_map_to_expr : Assoc MatchValue → Result MatchError Bytes
  match_map_to_expr [] = ok (codes "true")
  match_map_to_expr (e ∷ match) =
      parts_of (e ∷ match) (sort_strings (keys_of (e ∷ match))) >>= λ parts.
      ok (join parts (codes " && "))
