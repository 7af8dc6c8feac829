-- ===== src/Go/Separators.antt =====
-- Texts between separators: a separator that the texts lack splits them in one way.
use anti_scrapling.Go.Lists.{All, All-append}
use anti_scrapling.Go.Text.{Bytes, join}
use Prim.Native.Nat.{ℕ}
use mathlib.Core.Path.{◌≡◌, refl, ap, subst}
use mathlib.Core.Logic.{◌≢◌}
use mathlib.Core.List.{List, [], ◌∷◌, ◌++◌}
use native.Mathlib.Omega.{arith}

abbrev pub Lacks : ℕ → Bytes → Type 0
Lacks s = All (λ c. c ≢ s)

pub split_first :
    (s : ℕ) (a b c d : Bytes)
    → Lacks s a
    → Lacks s b
    → a ++ (s ∷ c) ≡ b ++ (s ∷ d)
    → (a ≡ b) × (c ≡ d)
split_first s [] [] c d h k e = (refl, ground arith)
split_first s [] (y ∷ b) c d h k e = absurd (ground arith)
split_first s (x ∷ a) [] c d h k e = absurd (ground arith)
split_first s (x ∷ a) (y ∷ b) c d (_, h) (_, k) e =
    let (p, q) = split_first s a b c d h k (ground arith) in (ground arith, q)

pub Lacks-append_separator : (s : ℕ) (a c : Bytes) → ¬ (Lacks s (a ++ (s ∷ c)))
Lacks-append_separator s [] c (h, _) = h refl
Lacks-append_separator s (x ∷ a) c (_, h) = Lacks-append_separator s a c h

-- A text of a joined list is not empty and lacks the separator.
abbrev pub IsPart : ℕ → Bytes → Type 0
IsPart s a = (a ≢ []) × Lacks s a

pub join-injective :
    (s : ℕ) (xs ys : List Bytes)
    → All (IsPart s) xs
    → All (IsPart s) ys
    → join xs (s ∷ []) ≡ join ys (s ∷ [])
    → xs ≡ ys
unfolding join
join-injective s [] [] h k e = refl
join-injective s [] (b ∷ []) h ((n, _), _) e = absurd (n (ground arith))
join-injective s [] ((x ∷ b) ∷ b' ∷ ys) h k e = cc
join-injective s [] ([] ∷ b' ∷ ys) h k e = cc
join-injective s (a ∷ []) [] ((n, _), _) k e = absurd (n (ground arith))
join-injective s ((x ∷ a) ∷ a' ∷ xs) [] h k e = cc
join-injective s ([] ∷ a' ∷ xs) [] h k e = cc
join-injective s (a ∷ []) (b ∷ []) h k e = ap (λ x. x ∷ []) e
join-injective s (a ∷ []) (b ∷ b' ∷ ys) ((_, l), _) k e =
    absurd (Lacks-append_separator s b (join (b' ∷ ys) (s ∷ [])) (subst (Lacks s) e l))
join-injective s (a ∷ a' ∷ xs) (b ∷ []) h ((_, l), _) e =
    absurd (Lacks-append_separator s a (join (a' ∷ xs) (s ∷ [])) (subst (Lacks s) (ground arith) l))
join-injective s (a ∷ a' ∷ xs) (b ∷ b' ∷ ys) ((_, l), h) ((_, m), k) e =
    let (p, q) = split_first s a b (join (a' ∷ xs) (s ∷ [])) (join (b' ∷ ys) (s ∷ [])) l m e in
    let rest = join-injective s (a' ∷ xs) (b' ∷ ys) h k q in ground arith

pub Lacks-join : (s t : ℕ) (xs : List Bytes) → s ≢ t → All (Lacks s) xs → Lacks s (join xs (t ∷ []))
unfolding join
Lacks-join s t [] n h = tt
Lacks-join s t (a ∷ []) n (l, _) = l
Lacks-join s t (a ∷ b ∷ xs) n (l, h) =
    All-append _ a (t ∷ join (b ∷ xs) (t ∷ [])) l
      (λ e. n (ground arith), Lacks-join s t (b ∷ xs) n h)
