-- ===== src/Lru/Bounded.antt =====
-- A cache of at most `room + 1` entries, most recent first, which meets the interface.
use anti_scrapling.Lru.{Lru}
use anti_scrapling.Go.{
  ℕ, zero, suc, ◌≡◌, refl, ◌⊎◌, inl, inr, false, Option, none, some, [], ◌∷◌, Bytes, text_eq,
  text_eq_iff, text_eq_refl, Assoc, lookup, delete, lookup-delete, take, arith,
}

module _ {V : Type 0} where
  abbrev pub fetch : Bytes → Assoc V → Option V × Assoc V
  fetch k m = elim (lookup k m) [ none ↦ (none, m) | some v ↦ (some v, (k, v) ∷ delete k m) ]

  pub fetch-lookup : (k : Bytes) (m : Assoc V) → (fetch k m).0 ≡ lookup k m
  fetch-lookup k m = ground arith

  pub lookup-fetch : (j k : Bytes) (m : Assoc V) → lookup j (fetch k m).1 ≡ lookup j m
  unfolding lookup
  lookup-fetch j k m = ground (arith, lookup-delete k j m, text_eq_iff k j)

  lookup-take :
      (n : ℕ) (j : Bytes) (m : Assoc V)
      → (lookup j (take n m) ≡ lookup j m) ⊎ (lookup j (take n m) ≡ none)
  unfolding lookup
  lookup-take zero j m = inr refl
  lookup-take (suc n) j [] = inl refl
  lookup-take (suc n) j ((k, v) ∷ m) = ground (arith, lookup-take n j m)

  pub lookup-cons_self : (k : Bytes) (v : V) (m : Assoc V) → lookup k ((k, v) ∷ m) ≡ some v
  unfolding lookup
  lookup-cons_self k v m = ground (arith, text_eq_refl k)

  pub lookup-cons_take :
      (n : ℕ) (j k : Bytes) (v : V) (m : Assoc V)
      → text_eq k j ≡ false
      → (lookup j ((k, v) ∷ take n (delete k m)) ≡ lookup j m)
        ⊎ (lookup j ((k, v) ∷ take n (delete k m)) ≡ none)
  unfolding lookup
  lookup-cons_take n j k v m h = ground (arith, lookup-take n j (delete k m), lookup-delete k j m)

pub lookup-nil : {V : Type 0} (k : Bytes) → lookup {V = V} k [] ≡ none
unfolding lookup
lookup-nil k = refl

abbrev pub bounded : (V : Type 0) → ℕ → Lru V
bounded V room = record {
  State = Assoc V;
  empty = [];
  find = lookup;
  get = fetch;
  add = λ k v m. (k, v) ∷ take room (delete k m);
  remove = delete;
  purge = λ m. [];
  find-empty = lookup-nil;
  get-find = fetch-lookup;
  find-get = lookup-fetch;
  find-add_self = λ k v m. lookup-cons_self k v (take room (delete k m));
  find-add_ne = lookup-cons_take room;
  find-remove = λ j k m. lookup-delete k j m;
  find-purge = λ k m. lookup-nil k;
}
