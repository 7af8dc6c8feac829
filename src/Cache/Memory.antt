-- ===== src/Cache/Memory.antt =====
-- internal/cache/memory.go: an LRU cache whose entries expire.
pub mod History
use anti_scrapling.Go.{
  ℕ, ◌+◌, ◌==◌, ltb, ◌≡◌, ◌≤◌, ◌<◌, ◌∙◌, refl, Bool, true, false, not, ◌&&◌, if◌then◌else◌, Option,
  none, some, Bytes, ℤ, pos, pos_part, ltb_ℤ, arith, Option-cases, inl, inr,
}
use anti_scrapling.Lru.{Lru}
use anti_scrapling.Cache.{Cache}

-- `expires_at` is 0 for the zero `time.Time`.
pub record Entry : Type 0 where
  pub value : Bytes
  pub expires_at : ℕ

-- `!e.expiresAt.IsZero() && time.Now().After(e.expiresAt)`
unfoldable pub is_expired : ℕ → Entry → Bool
is_expired now e = not (e.expires_at == 0) && ltb e.expires_at now

-- `exp`, which stays zero unless the TTL is positive.
unfoldable pub expiry : ℕ → ℤ → ℕ
expiry now ttl = if ltb_ℤ (pos 0) ttl then now + pos_part ttl else 0

module _ (lru : Lru Entry) where
  open lru use {State, find, get, add, remove, purge, get-find, find-add_self}

  unfoldable pub memory_get : ℕ → Bytes → State → Option Bytes × State
  memory_get now key s =
      let (found, s') = get key s in
      elim found [
        | none ↦ (none, s')
        | some e ↦ if is_expired now e then (none, remove key s') else (some e.value, s')
      ]

  unfoldable pub memory_set : ℕ → Bytes → Bytes → ℤ → State → State
  memory_set now key value ttl s = add key (record { value = value; expires_at = expiry now ttl }) s

  unfoldable pub memory_delete : Bytes → State → State
  memory_delete = remove

  unfoldable pub memory_close : State → State
  memory_close = purge

  -- A hit is an entry that has not expired.
  pub memory_get_lem :
      (now : ℕ) (key : Bytes) (s : State) {e : Entry}
      → find key s ≡ some e
      → (memory_get now key s).0 ≡ (if is_expired now e then none else some e.value)
  unfolding memory_get
  memory_get_lem now key s {e} h = ground (arith, get-find key s)

  pub memory_get_hit :
      (now : ℕ) (key : Bytes) (s : State) {value : Bytes}
      → (memory_get now key s).0 ≡ some value
      → (e : Entry) × (find key s ≡ some e) × (e.value ≡ value) × (is_expired now e ≡ false)
  unfolding memory_get
  memory_get_hit now key s h = elim (Option-cases (find key s)) [
    | inl m ↦ absurd (ground (arith, get-find key s))
    | inr (e, m) ↦ (e, m, ground (arith, get-find key s), ground (arith, get-find key s))
  ]

  -- What `Set` stores with a positive TTL, `Get` returns until the TTL is over.
  pub memory_get-set :
      (at now ttl : ℕ) (key value : Bytes) (s : State)
      → 0 < ttl
      → now ≤ at + ttl
      → (memory_get now key (memory_set at key value (pos ttl) s)).0 ≡ some value
  unfolding memory_set is_expired expiry
  memory_get-set at now ttl key value s h k =
      let e : Entry = record { value = value; expires_at = expiry at (pos ttl) } in
      memory_get_lem now key (add key e s) (find-add_self key e s) ∙ ground arith

  -- The memory cache is a `Cache`.
  abbrev pub memory_cache : Cache
  memory_cache = record {
    State = State;
    get = memory_get;
    set = memory_set;
    delete = memory_delete;
    close = memory_close;
    get-set = memory_get-set;
  }
