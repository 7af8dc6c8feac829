-- ===== src/Pipeline/Collect/Schedule.antt =====
-- The goroutines of `collectParallel` may end in any order.
use anti_scrapling.Go.{
  ℕ, zero, suc, ◌==◌, ◌<◌, ◌≤◌, ◌≡◌, refl, ap, Bool, true, false, ◌||◌, Bool-cases, ◌⊎◌, List, [],
  ◌∷◌, get_elem?, length, if◌then◌else◌, arith, ltb,
}
use anti_scrapling.Http.{RequestContext}
use anti_scrapling.Pipeline.Collect.{
  Collector, Slots, empty_slots, write_slot, write_slots, concat_slots, collect_parallel,
}

abbrev pub contains : List ℕ → ℕ → Bool
contains [] j = false
contains (i ∷ is) j = i == j || contains is j

-- What the collectors give when they are run one after the other.
abbrev pub in_turn : RequestContext → List Collector → Slots
in_turn req [] = []
in_turn req (c ∷ cs) = c.collect req ∷ in_turn req cs

get_elem?-ext {ℓ} :
    {A : Type ℓ} (xs ys : List A) → ((j : ℕ) → get_elem? xs j ≡ get_elem? ys j) → xs ≡ ys
get_elem?-ext [] [] h = refl
get_elem?-ext [] (y ∷ ys) h = cc (h 0)
get_elem?-ext (x ∷ xs) [] h = cc (h 0)
get_elem?-ext (x ∷ xs) (y ∷ ys) h = cc (h 0, get_elem?-ext xs ys (λ j. h (suc j)))

module _ (req : RequestContext) where
  length-write_slot :
      (cs : List Collector) (i : ℕ) (slots : Slots)
      → length (write_slot cs req i slots) ≡ length slots
  unfolding write_slot
  length-write_slot [] i slots = refl
  length-write_slot (c ∷ cs) i [] = refl
  length-write_slot (c ∷ cs) zero (s ∷ slots) = refl
  length-write_slot (c ∷ cs) (suc i) (s ∷ slots) = ap suc (length-write_slot cs i slots)

  get_elem?-write_slot :
      (cs : List Collector) (i j : ℕ) (slots : Slots)
      → length slots ≡ length cs
      → get_elem? (write_slot cs req i slots) j
        ≡ (if i == j then get_elem? (in_turn req cs) j else get_elem? slots j)
  unfolding write_slot
  get_elem?-write_slot [] i j [] h = ground arith
  get_elem?-write_slot [] i j (s ∷ slots) h = absurd (omega arith)
  get_elem?-write_slot (c ∷ cs) i j [] h = absurd (omega arith)
  get_elem?-write_slot (c ∷ cs) zero zero (s ∷ slots) h = refl
  get_elem?-write_slot (c ∷ cs) zero (suc j) (s ∷ slots) h = ground arith
  get_elem?-write_slot (c ∷ cs) (suc i) zero (s ∷ slots) h = ground arith
  get_elem?-write_slot (c ∷ cs) (suc i) (suc j) (s ∷ slots) h =
      ground (arith, get_elem?-write_slot cs i j slots (omega arith))

  get_elem?-write_slots :
      (cs : List Collector) (schedule : List ℕ) (j : ℕ) (slots : Slots)
      → length slots ≡ length cs
      → get_elem? (write_slots cs req schedule slots) j
        ≡ (if contains schedule j then get_elem? (in_turn req cs) j else get_elem? slots j)
  unfolding write_slots
  get_elem?-write_slots cs [] j slots h = refl
  get_elem?-write_slots cs (i ∷ schedule) j slots h = ground (
    arith,
    length-write_slot cs i slots,
    get_elem?-write_slot cs i j slots,
    get_elem?-write_slots cs schedule j (write_slot cs req i slots),
  )

  length-empty_slots : (cs : List Collector) → length (empty_slots cs) ≡ length cs
  unfolding empty_slots
  length-empty_slots [] = refl
  length-empty_slots (c ∷ cs) = ap suc (length-empty_slots cs)

  get_elem?-beyond :
      (cs : List Collector) (j : ℕ)
      → length cs ≤ j
      → get_elem? (empty_slots cs) j ≡ get_elem? (in_turn req cs) j
  unfolding empty_slots
  get_elem?-beyond [] j h = refl
  get_elem?-beyond (c ∷ cs) zero h = absurd (omega arith)
  get_elem?-beyond (c ∷ cs) (suc j) h = get_elem?-beyond cs j (omega arith)

  -- When every goroutine has ended, in whatever order, the signals are those of the collectors in
  -- the order of their registration.
  pub collect_parallel_any_order :
      (cs : List Collector) (schedule : List ℕ)
      → ((j : ℕ) → j < length cs → contains schedule j ≡ true)
      → collect_parallel cs schedule req ≡ concat_slots (in_turn req cs)
  unfolding collect_parallel
  collect_parallel_any_order cs schedule all =
      ap concat_slots (get_elem?-ext _ _ (λ j. pointwise j (Bool-cases (ltb j (length cs)))))
    where
      pointwise :
          (j : ℕ)
          → (ltb j (length cs) ≡ true) ⊎ (ltb j (length cs) ≡ false)
          → get_elem? (write_slots cs req schedule (empty_slots cs)) j
            ≡ get_elem? (in_turn req cs) j
      pointwise j d = ground (
        arith,
        all j,
        length-empty_slots cs,
        get_elem?-write_slots cs schedule j (empty_slots cs),
        get_elem?-beyond cs j,
      )
