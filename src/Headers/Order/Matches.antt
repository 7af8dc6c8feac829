-- ===== src/Headers/Order/Matches.antt =====
-- Which header orders count as a browser's.
use anti_scrapling.Go.{
  ℕ, zero, suc, ◌≤◌, ◌≡◌, ◌↔◌, ◌⊎◌, inl, inr, sym, true, false, ◌||◌, List, [], ◌∷◌, map, Bytes,
  text_eq, text_eq_iff, to_lower, length, take, leb, arith, Bool-cases,
}
use anti_scrapling.Headers.Order.{
  subsequence_score, matches_one, matches_any_canonical, chrome_order, firefox_order, safari_order,
}

-- The names `xs` are among `ys` in their order, with others before, between and behind.
pub data Subsequence : List Bytes → List Bytes → Type 0 where
  none_left : {ys : List Bytes} → Subsequence [] ys
  next :
      {x y : Bytes} {xs ys : List Bytes} → x ≡ y → Subsequence xs ys → Subsequence (x ∷ xs) (y ∷ ys)
  other : {y : Bytes} {xs ys : List Bytes} → Subsequence xs ys → Subsequence xs (y ∷ ys)

behind : {x : Bytes} {xs ys : List Bytes} → Subsequence (x ∷ xs) ys → Subsequence xs ys
behind (next e s) = other s
behind (other s) = other (behind s)

length-Subsequence : {xs ys : List Bytes} → Subsequence xs ys → length xs ≤ length ys
length-Subsequence none_left = omega arith
length-Subsequence (next e s) = omega (arith, length-Subsequence s)
length-Subsequence (other s) = omega (arith, length-Subsequence s)

tail : {x y : Bytes} {xs ys : List Bytes} → Subsequence (x ∷ xs) (y ∷ ys) → Subsequence xs ys
tail (next e s) = s
tail (other s) = behind s

later :
    {x y : Bytes} {xs ys : List Bytes}
    → text_eq y x ≡ false
    → Subsequence (x ∷ xs) (y ∷ ys)
    → Subsequence (x ∷ xs) ys
later h (next {x} {y} e s) = absurd (ground (arith, h, text_eq_iff y x, e))
later h (other s) = s

found : (k : ℕ) (ys cs : List Bytes) → k ≤ subsequence_score ys cs → Subsequence (take k cs) ys
unfolding subsequence_score
found zero ys cs h = none_left
found (suc k) [] cs h = absurd (omega (arith, h))
found (suc k) (y ∷ ys) [] h = absurd (omega (arith, h))
found (suc k) (y ∷ ys) (c ∷ cs) h = elim (Bool-cases (text_eq y c)) [
  | inl e ↦ next (sym ((text_eq_iff y c).0 e)) (found k ys cs (ground (arith, e, h)))
  | inr e ↦ other (found (suc k) ys (c ∷ cs) (ground (arith, e, h)))
]

scored :
    (k : ℕ) (ys cs : List Bytes)
    → k ≤ length cs
    → Subsequence (take k cs) ys
    → k ≤ subsequence_score ys cs
unfolding subsequence_score
scored zero ys cs h s = omega arith
scored (suc k) ys [] h s = absurd (omega (arith, h))
scored (suc k) [] (c ∷ cs) h s = absurd (omega (arith, length-Subsequence s))
scored (suc k) (y ∷ ys) (c ∷ cs) h s = elim (Bool-cases (text_eq y c)) [
  | inl e ↦ let rest = scored k ys cs (omega (arith, h)) (tail s) in ground (arith, e, rest)
  | inr e ↦ let rest = scored (suc k) ys (c ∷ cs) h (later e s) in ground (arith, e, rest)
]

any_of :
    (a b c : ℕ)
    → (leb 8 a || (leb 6 b || (leb 3 c || false)) ≡ true) ↔ ((8 ≤ a) ⊎ ((6 ≤ b) ⊎ (3 ≤ c)))
any_of a b c = ground arith

-- An order is no anomaly exactly if its names, in lower case, have among them, in this order, the
-- first eight that Chrome sends or the first six of Firefox or the first three of Safari.
pub matches_any_canonical_iff :
    (lower : Bytes → Bytes) (observed : List Bytes)
    → (matches_any_canonical lower observed ≡ true) ↔ (
        Subsequence (take 8 chrome_order) (map (to_lower lower) observed)
        ⊎ (Subsequence (take 6 firefox_order) (map (to_lower lower) observed)
            ⊎ Subsequence (take 3 safari_order) (map (to_lower lower) observed)))
unfolding matches_any_canonical matches_one
matches_any_canonical_iff lower observed =
    let ys = map (to_lower lower) observed in
    let (to, from) =
      any_of (subsequence_score ys chrome_order) (subsequence_score ys firefox_order)
        (subsequence_score ys safari_order) in
    (
      λ h. elim (to h) [
        | inl p ↦ inl (found 8 ys chrome_order p)
        | inr (inl p) ↦ inr (inl (found 6 ys firefox_order p))
        | inr (inr p) ↦ inr (inr (found 3 ys safari_order p))
      ],
      λ h. from (elim h [
        | inl s ↦ inl (scored 8 ys chrome_order (omega arith) s)
        | inr (inl s) ↦ inr (inl (scored 6 ys firefox_order (omega arith) s))
        | inr (inr s) ↦ inr (inr (scored 3 ys safari_order (omega arith) s))
      ]),
    )
