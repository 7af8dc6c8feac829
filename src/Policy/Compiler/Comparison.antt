-- ===== src/Policy/Compiler/Comparison.antt =====
-- What `parseScoreExpr` accepts.
use anti_scrapling.Go.{
  ℤ, ◌≡◌, refl, ◌⊎◌, inl, inr, true, Bool-cases, none, some, Option-cases, List, [], ◌∷◌, Bytes,
  length, drop, has_prefix, ok, err, trim_space, atoi, arith,
}
use anti_scrapling.Policy.Compiler.{
  MatchError, comparison_ops, parse_score_with, parse_score_expr, score_expr,
}

abbrev pub OneOf : Bytes → List Bytes → Type 0
OneOf a [] = ⊥
OneOf a (b ∷ bs) = (a ≡ b) ⊎ OneOf a bs

-- The expression is `score`, an operator that the text begins with, and a number.
pub record IsComparison (ops : List Bytes) (s e : Bytes) : Type 0 where
  pub op : Bytes
  pub number : Bytes
  pub value : ℤ
  pub listed : OneOf op ops
  pub begins : has_prefix s op ≡ true
  pub rest_is : number ≡ trim_space (drop (length op) s)
  pub is_number : atoi number ≡ some value
  pub shape : e ≡ score_expr op number

parse_score_with-IsComparison :
    (ops : List Bytes) (s : Bytes) {e : Bytes}
    → parse_score_with ops s ≡ ok e
    → IsComparison ops s e
unfolding parse_score_with
parse_score_with-IsComparison [] s h = cc
parse_score_with-IsComparison (op ∷ ops) s {e} h = elim (Bool-cases (has_prefix s op)) [
  | inl b ↦ found b (Option-cases (atoi num)) (rw b at h)
  | inr b ↦ later (parse_score_with-IsComparison ops s (rw b at h))
]
  where
    num : Bytes
    num = trim_space (drop (length op) s)

    found :
        has_prefix s op ≡ true
        → (atoi num ≡ none) ⊎ ((v : ℤ) × (atoi num ≡ some v))
        → elim (atoi num) [ none ↦ err (MatchError.bad_number s) | some _ ↦ ok (score_expr op num) ]
          ≡ ok e
        → IsComparison (op ∷ ops) s e
    found b (inl x) k = ground arith
    found b (inr (v, x)) k = record {
      op = op;
      number = num;
      value = v;
      listed = inl refl;
      begins = b;
      rest_is = refl;
      is_number = x;
      shape = ground arith;
    }

    later : IsComparison ops s e → IsComparison (op ∷ ops) s e
    later c = record {
      op = c.op;
      number = c.number;
      value = c.value;
      listed = inr c.listed;
      begins = c.begins;
      rest_is = c.rest_is;
      is_number = c.is_number;
      shape = c.shape;
    }

-- Whatever text `parseScoreExpr` accepts begins with one of the six operators; the rest, without
-- space at its ends, is a number that `strconv.Atoi` reads, and the expression compares the score
-- with it by that operator.
pub parse_score_expr-IsComparison :
    (s : Bytes) {e : Bytes} → parse_score_expr s ≡ ok e → IsComparison comparison_ops s e
unfolding parse_score_expr
parse_score_expr-IsComparison s h = parse_score_with-IsComparison comparison_ops s h
