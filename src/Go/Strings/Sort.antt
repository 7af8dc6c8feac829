-- ===== src/Go/Strings/Sort.antt =====
-- `sort.Strings` forgets the order of its input.
use anti_scrapling.Go.Text.{Bytes, text_le}
use anti_scrapling.Go.Strings.{insert_sorted, sort_strings}
use native.Mathlib.Omega.{arith}
use mathlib.Core.Path.{◌≡◌, refl, ap, ◌∙◌}
use mathlib.Core.Logic.{◌⊎◌, ∥∥₁_elim}
use mathlib.Core.Bool.{true}
use mathlib.Core.List.{List, [], ◌∷◌, Perm, Permᴰ}

pub text_le_total : (a b : Bytes) → (text_le a b ≡ true) ⊎ (text_le b a ≡ true)
unfolding text_le
text_le_total (x ∷ a) (y ∷ b) = ground (arith, text_le_total a b)
text_le_total _ _ = ground arith

pub text_le_antisymm : (a b : Bytes) → text_le a b ≡ true → text_le b a ≡ true → a ≡ b
unfolding text_le
text_le_antisymm (x ∷ a) (y ∷ b) h k = ground (arith, text_le_antisymm a b)
text_le_antisymm _ _ h k = ground arith

pub text_le_trans : (a b c : Bytes) → text_le a b ≡ true → text_le b c ≡ true → text_le a c ≡ true
unfolding text_le
text_le_trans (x ∷ a) (y ∷ b) (z ∷ c) h k = ground (arith, text_le_trans a b c)
text_le_trans [] _ _ h k = refl
text_le_trans _ _ _ h k = ground arith

insert_sorted_comm :
    (a b : Bytes) (l : List Bytes)
    → insert_sorted a (insert_sorted b l) ≡ insert_sorted b (insert_sorted a l)
unfolding insert_sorted
insert_sorted_comm a b [] = ground (arith, text_le_total a b, text_le_antisymm a b)
insert_sorted_comm a b (c ∷ l) = ground (
  arith,
  text_le_total a b,
  text_le_antisymm a b,
  text_le_trans a b c,
  text_le_trans b a c,
  insert_sorted_comm a b l,
)

sort_strings-permᴰ : {l m : List Bytes} → Permᴰ l m → sort_strings l ≡ sort_strings m
unfolding sort_strings
sort_strings-permᴰ Permᴰ.nil = refl
sort_strings-permᴰ (Permᴰ.cons {b = b} e p) = rw e (ap (insert_sorted b) (sort_strings-permᴰ p))
sort_strings-permᴰ (Permᴰ.swap {a' = c} {b' = d} {l = l} e f) =
    rw (e, f) (insert_sorted_comm d c (sort_strings l))
sort_strings-permᴰ (Permᴰ.trans p q) = sort_strings-permᴰ p ∙ sort_strings-permᴰ q

texts_set : IsSet (List Bytes)
texts_set = hlevel

pub sort_strings-perm : (l m : List Bytes) → Perm l m → sort_strings l ≡ sort_strings m
sort_strings-perm l m p = ∥∥₁_elim p (texts_set _ _) sort_strings-permᴰ
