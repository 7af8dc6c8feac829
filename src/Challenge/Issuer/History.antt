-- ===== src/Challenge/Issuer/History.antt =====
-- Challenge ids against the history of the issuer's calls, where no two of them overlap.
use anti_scrapling.Go.{
  ℕ, ◌+◌, ◌≤◌, ◌≡◌, true, Option, none, some, List, [], ◌∷◌, Bytes, text_eq, text_eq_iff,
  if◌then◌else◌, arith,
}
use anti_scrapling.Lru.{Lru}
use anti_scrapling.Challenge.Issuer.{
  new_challenge_id, validate_challenge_id, validate_challenge_id-true, challenge_ttl,
}

pub data Op : Type 0 where
  issue : ℕ → Bytes → Op
  validate : ℕ → Bytes → Op

-- When each id that may still be used was issued.
unfoldable pub record_op : Op → (Bytes → Option ℕ) → Bytes → Option ℕ
record_op (issue now id) f j = if text_eq id j then some now else f j
record_op (validate now id) f j = if text_eq id j then none else f j

unfoldable pub outstanding : List Op → (Bytes → Option ℕ) → Bytes → Option ℕ
outstanding [] f = f
outstanding (op ∷ ops) f = outstanding ops (record_op op f)

module _ (lru : Lru ℕ) where
  open lru use {State, empty, find}

  unfoldable pub run_op : Op → State → State
  run_op (issue now id) s = new_challenge_id lru now id s
  run_op (validate now id) s = (validate_challenge_id lru now id s).1

  unfoldable pub run : List Op → State → State
  run [] s = s
  run (op ∷ ops) s = run ops (run_op op s)

  abbrev Refines : State → (Bytes → Option ℕ) → Type 0
  Refines s f = (j : Bytes) (issued : ℕ) → find j s ≡ some issued → f j ≡ some issued

  run_op-Refines :
      (op : Op) (s : State) (f : Bytes → Option ℕ)
      → Refines s f
      → Refines (run_op op s) (record_op op f)
  unfolding run_op record_op new_challenge_id validate_challenge_id
  run_op-Refines (issue now id) s f h j e p =
      ground
        (arith, h j e, text_eq_iff id j, lru.find-add_self id now s, lru.find-add_ne j id now s)
  run_op-Refines (validate now id) s f h j e p = ground (
    arith,
    h j e,
    text_eq_iff id j,
    lru.get-find id s,
    lru.find-get j id s,
    lru.find-remove j id (lru.get id s).1,
  )

  run-Refines :
      (ops : List Op) (s : State) (f : Bytes → Option ℕ)
      → Refines s f
      → Refines (run ops s) (outstanding ops f)
  unfolding run outstanding
  run-Refines [] s f h = h
  run-Refines (op ∷ ops) s f h =
      run-Refines ops (run_op op s) (record_op op f) (run_op-Refines op s f h)

  empty-Refines : Refines empty (λ j. none)
  empty-Refines j issued p = ground (arith, lru.find-empty j)

  -- Whatever was called before, an id that is accepted was issued at most ten minutes ago, and
  -- since then it was not validated.
  pub validate-outstanding :
      (ops : List Op) (now : ℕ) (id : Bytes)
      → (validate_challenge_id lru now id (run ops empty)).0 ≡ true
      → (issued : ℕ) × (outstanding ops (λ j. none) id ≡ some issued)
        × (now ≤ issued + challenge_ttl)
  validate-outstanding ops now id h =
      let (issued, held, young) = validate_challenge_id-true lru now id (run ops empty) h in
      (issued, run-Refines ops empty (λ j. none) empty-Refines id issued held, young)
