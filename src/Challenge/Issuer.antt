-- ===== src/Challenge/Issuer.antt =====
-- internal/challenge/issuer.go: challenge ids, each good for one validation.
pub mod History
pub mod Interleaved
use anti_scrapling.Go.{
  ℕ, ◌+◌, ◌*◌, ◌^◌, ◌≤◌, ◌≡◌, ltb, refl, Bool, true, false, Option, none, some, if◌then◌else◌,
  Bytes, arith, text_eq, text_eq_refl, Option-cases, inl, inr,
}
use anti_scrapling.Lru.{Lru}

-- 10 minutes, in nanoseconds.
abbrev pub challenge_ttl : ℕ
challenge_ttl = 600 * 10 ^ 9

-- What is answered for the time that was found: `time.Since(issued) > challengeTTL` refuses.
abbrev pub verdict : ℕ → Option ℕ → Bool
verdict now none = false
verdict now (some issued) = if ltb (issued + challenge_ttl) now then false else true

-- The LRU cache holds the time at which each id was issued.
module _ (lru : Lru ℕ) where
  open lru use {State, find, get, add, remove}

  -- `id` is the fresh UUID.
  unfoldable pub new_challenge_id : ℕ → Bytes → State → State
  new_challenge_id now id s = add id now s

  -- The call of Remove after a Get: both paths of an id that was found make it.
  abbrev pub forget : Option ℕ → Bytes → State → State
  forget none id s = s
  forget (some issued) id s = remove id s

  -- `ValidateChallengeID` where no other call of the cache comes between its Get and its Remove,
  -- which have no lock in common; Interleaved has the calls of several handlers mixed.
  unfoldable pub validate_challenge_id : ℕ → Bytes → State → Bool × State
  validate_challenge_id now id s =
      let (found, s') = get id s in (verdict now found, forget found id s')

  pub validate_challenge_id-true :
      (now : ℕ) (id : Bytes) (s : State)
      → (validate_challenge_id now id s).0 ≡ true
      → (issued : ℕ) × (find id s ≡ some issued) × (now ≤ issued + challenge_ttl)
  unfolding validate_challenge_id
  validate_challenge_id-true now id s h = elim (Option-cases (find id s)) [
    | inl m ↦ absurd (ground (arith, lru.get-find id s))
    | inr (issued, m) ↦ (issued, m, ground (arith, lru.get-find id s))
  ]

  -- An id is accepted up to ten minutes after it was issued, if it was not evicted.
  pub validate_challenge_id-new :
      (now issued : ℕ) (id : Bytes) (s : State)
      → find id s ≡ some issued
      → now ≤ issued + challenge_ttl
      → (validate_challenge_id now id s).0 ≡ true
  unfolding validate_challenge_id
  validate_challenge_id-new now issued id s h k = ground (arith, lru.get-find id s)

  pub validate_challenge_id-none :
      (now : ℕ) (id : Bytes) (s : State)
      → find id s ≡ none
      → (validate_challenge_id now id s).0 ≡ false
  unfolding validate_challenge_id
  validate_challenge_id-none now id s h = ground (arith, lru.get-find id s)

  pub find-validate_challenge_id :
      (now : ℕ) (id : Bytes) (s : State) → find id (validate_challenge_id now id s).1 ≡ none
  unfolding validate_challenge_id
  find-validate_challenge_id now id s = ground (
    arith,
    lru.get-find id s,
    lru.find-get id id s,
    lru.find-remove id id (lru.get id s).1,
    text_eq_refl id,
  )
