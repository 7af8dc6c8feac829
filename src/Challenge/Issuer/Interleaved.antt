-- ===== src/Challenge/Issuer/Interleaved.antt =====
-- Handlers that validate challenge ids at the same time: the LRU cache makes each of their calls
-- atomic, and the calls come in any order.
use anti_scrapling.Go.{
  ℕ, ◌==◌, ◌≡◌, refl, ap, ◌∙◌, Bool, true, false, Bool-cases, inl, inr, Option, none, some, List,
  [], ◌∷◌, ◌++◌, Bytes, text_eq, text_eq_refl, if◌then◌else◌, arith, All,
}
use anti_scrapling.Lru.{Lru}
use anti_scrapling.Challenge.Issuer.{new_challenge_id, verdict, forget}

-- A call of the cache: NewChallengeID's Add, or the Get or the Remove of the handler with a number.
pub data Step : Type 0 where
  issue : ℕ → Bytes → Step
  look : ℕ → Bytes → Step
  finish : ℕ → Bytes → Step

abbrev pub NotIssue : Bytes → Step → Type 0
NotIssue id (issue now j) = text_eq j id ≡ false
NotIssue id _ = Unit

abbrev pub NotLook : ℕ → Step → Type 0
NotLook k (look j id) = (k == j) ≡ false
NotLook k _ = Unit

same : (k : ℕ) → (k == k) ≡ true
same k = ground arith

module _ (lru : Lru ℕ) where
  open lru use {State, find}

  -- The cache, and what each handler's Get has found.
  pub record World : Type 0 where
    pub ids : State
    pub seen : ℕ → Option ℕ

  -- Where a handler's Get has found nothing there is no Remove.
  unfoldable pub run_step : Step → World → World
  unfolding new_challenge_id
  run_step (issue now id) w = record w { ids = new_challenge_id lru now id w.ids }
  run_step (look k id) w =
      let (found, ids) = lru.get id w.ids in
      record { ids = ids; seen = λ j. if j == k then found else w.seen j }
  run_step (finish k id) w = record w { ids = forget lru (w.seen k) id w.ids }

  unfoldable pub run_steps : List Step → World → World
  unfolding run_step
  run_steps [] w = w
  run_steps (step ∷ steps) w = run_steps steps (run_step step w)

  -- What the handler's ValidateChallengeID returns.
  unfoldable pub answer : ℕ → ℕ → World → Bool
  answer k now w = verdict now (w.seen k)

  run_steps-append :
      (steps later : List Step) (w : World)
      → run_steps (steps ++ later) w ≡ run_steps later (run_steps steps w)
  unfolding run_steps
  run_steps-append [] later w = refl
  run_steps-append (step ∷ steps) later w = run_steps-append steps later (run_step step w)

  find-steps :
      (id : Bytes) (steps : List Step) (w : World)
      → All (NotIssue id) steps
      → find id w.ids ≡ none
      → find id (run_steps steps w).ids ≡ none
  unfolding run_steps run_step new_challenge_id
  find-steps id [] w h e = e
  find-steps id (issue now j ∷ steps) w (n, h) e =
      find-steps id steps (run_step (issue now j) w) h
        (ground (arith, n, e, lru.find-add_ne id j now w.ids))
  find-steps id (look k j ∷ steps) w (n, h) e =
      find-steps id steps (run_step (look k j) w) h (lru.find-get id j w.ids ∙ e)
  find-steps id (finish k j ∷ steps) w (n, h) e =
      find-steps id steps (run_step (finish k j) w) h (forgotten id j (w.seen k) w.ids e)
    where
      forgotten :
          (id j : Bytes) (found : Option ℕ) (s : State)
          → find id s ≡ none
          → find id (forget lru found j s) ≡ none
      forgotten id j none s e = e
      forgotten id j (some issued) s e = ground (arith, e, lru.find-remove id j s)

  seen-steps :
      (k : ℕ) (steps : List Step) (w : World)
      → All (NotLook k) steps
      → (run_steps steps w).seen k ≡ w.seen k
  unfolding run_steps run_step
  seen-steps k [] w h = refl
  seen-steps k (issue now j ∷ steps) w (n, h) = seen-steps k steps (run_step (issue now j) w) h
  seen-steps k (look i j ∷ steps) w (n, h) =
      seen-steps k steps (run_step (look i j) w) h ∙ rw n refl
  seen-steps k (finish i j ∷ steps) w (n, h) = seen-steps k steps (run_step (finish i j) w) h

  look-found : (k : ℕ) (id : Bytes) (w : World) → (run_step (look k id) w).seen k ≡ find id w.ids
  unfolding run_step
  look-found k id w = rw (same k) (lru.get-find id w.ids)

  find-look :
      (k : ℕ) (id j : Bytes) (w : World) → find id (run_step (look k j) w).ids ≡ find id w.ids
  unfolding run_step
  find-look k id j w = lru.find-get id j w.ids

  find-finish :
      (k issued : ℕ) (id : Bytes) (w : World)
      → w.seen k ≡ some issued
      → find id (run_step (finish k id) w).ids ≡ none
  unfolding run_step
  find-finish k issued id w e =
      ap (λ found. find id (forget lru found id w.ids)) e
      ∙ lru.find-remove id id w.ids
      ∙ rw (text_eq_refl id) refl

  seen-kept :
      (k j : ℕ) (id : Bytes) (w : World)
      → (run_step (look j id) w).seen k ≡ (if k == j then find id w.ids else w.seen k)
  unfolding run_step
  seen-kept k j id w = elim (Bool-cases (k == j)) [
    | inl e ↦ rw e (lru.get-find id w.ids)
    | inr e ↦ rw e refl
  ]

  seen-overlapping :
      (k j : ℕ) (id : Bytes) (w : World)
      → (run_step (look j id) (run_step (look k id) w)).seen k ≡ find id w.ids
  seen-overlapping k j id w =
      seen-kept k j id (run_step (look k id) w) ∙ elim (Bool-cases (k == j)) [
        | inl e ↦ rw e (find-look k id id w)
        | inr e ↦ rw e (look-found k id w)
      ]

  refused_afterwards :
      (w : World) (between later : List Step) (k j now issued : ℕ) (id : Bytes)
      → find id w.ids ≡ some issued
      → All (NotLook k) between
      → All (NotIssue id) later
      → answer j now
          (run_step (look j id) (run_steps (look k id ∷ (between ++ (finish k id ∷ later))) w))
        ≡ false
  unfolding run_steps answer
  refused_afterwards w between later k j now issued id held quiet fresh =
      let w1 = run_step (look k id) w in
      let w2 = run_steps between w1 in
      let kept = seen-steps k between w1 quiet ∙ look-found k id w ∙ held in
      let gone =
        find-steps id later (run_step (finish k id) w2) fresh (find-finish k issued id w2 kept) in
      ap (λ u. verdict now ((run_step (look j id) u).seen j))
        (run_steps-append between (finish k id ∷ later) w1)
      ∙ ap (verdict now) (look-found j id (run_steps later (run_step (finish k id) w2)) ∙ gone)

  -- A challenge id is good for one validation that has ended: once the Remove of a handler that
  -- has found the id is done, whatever other handlers do in between and afterwards, a handler
  -- whose Get comes later refuses it, as long as no issue repeats the id. It is not good for one
  -- validation only: where two handlers make their Gets before either makes its Remove, both
  -- accept an id that is not too old for them.
  pub validate-single_use :
      (w : World) (between later : List Step) (k j at now issued : ℕ) (id : Bytes)
      → find id w.ids ≡ some issued
      → All (NotLook k) between
      → All (NotIssue id) later
      → let ended = run_steps (look k id ∷ (between ++ (finish k id ∷ later))) w in
        let both = run_steps (look k id ∷ look j id ∷ []) w in
        (answer j now (run_step (look j id) ended) ≡ false)
        × (answer k at both ≡ verdict at (some issued))
        × (answer j now both ≡ verdict now (some issued))
  unfolding run_steps answer
  validate-single_use w between later k j at now issued id held quiet fresh = (
    refused_afterwards w between later k j now issued id held quiet fresh,
    ap (verdict at) (seen-overlapping k j id w ∙ held),
    ap (verdict now) (look-found j id (run_step (look k id) w) ∙ find-look k id id w ∙ held),
  )
