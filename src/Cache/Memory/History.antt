-- ===== src/Cache/Memory/History.antt =====
-- The memory cache against the history of its calls: it may forget, and it never makes up.
use anti_scrapling.Go.{
  ℕ, ◌≡◌, false, Option, none, some, List, [], ◌∷◌, Bytes, text_eq, text_eq_iff, if◌then◌else◌, ℤ,
  arith,
}
use anti_scrapling.Lru.{Lru}
use anti_scrapling.Cache.Memory.{
  Entry, is_expired, expiry, memory_get, memory_set, memory_delete, memory_close, memory_get_hit,
}

-- A call, with the time at which it runs.
pub data Op : Type 0 where
  get : ℕ → Bytes → Op
  set : ℕ → Bytes → Bytes → ℤ → Op
  delete : Bytes → Op
  close : Op

-- What was last stored under each key, and not deleted since.
abbrev pub Stored : Type 0
Stored = Bytes → Option Entry

unfoldable pub record_op : Op → Stored → Stored
record_op (get now k) f j = f j
record_op (set now k v ttl) f j =
    if text_eq k j then some (record { value = v; expires_at = expiry now ttl }) else f j
record_op (delete k) f j = if text_eq k j then none else f j
record_op close f j = none

unfoldable pub last_stored : List Op → Stored → Stored
last_stored [] f = f
last_stored (op ∷ ops) f = last_stored ops (record_op op f)

module _ (lru : Lru Entry) where
  open lru use {State, empty, find}

  unfoldable pub run_op : Op → State → State
  run_op (get now k) s = (memory_get lru now k s).1
  run_op (set now k v ttl) s = memory_set lru now k v ttl s
  run_op (delete k) s = memory_delete lru k s
  run_op close s = memory_close lru s

  unfoldable pub run : List Op → State → State
  run [] s = s
  run (op ∷ ops) s = run ops (run_op op s)

  -- Whatever the cache holds is what was last stored.
  abbrev Refines : State → Stored → Type 0
  Refines s f = (j : Bytes) (e : Entry) → find j s ≡ some e → f j ≡ some e

  run_op-Refines :
      (op : Op) (s : State) (f : Stored) → Refines s f → Refines (run_op op s) (record_op op f)
  unfolding run_op record_op memory_get memory_set memory_delete memory_close
  run_op-Refines (get now k) s f h j e p =
      ground (arith, h j e, lru.find-get j k s, lru.find-remove j k (lru.get k s).1)
  run_op-Refines (set now k v ttl) s f h j e p =
      let new : Entry = record { value = v; expires_at = expiry now ttl } in
      ground (arith, h j e, text_eq_iff k j, lru.find-add_self k new s, lru.find-add_ne j k new s)
  run_op-Refines (delete k) s f h j e p = ground (arith, h j e, lru.find-remove j k s)
  run_op-Refines close s f h j e p = ground (arith, lru.find-purge j s)

  run-Refines :
      (ops : List Op) (s : State) (f : Stored)
      → Refines s f
      → Refines (run ops s) (last_stored ops f)
  unfolding run last_stored
  run-Refines [] s f h = h
  run-Refines (op ∷ ops) s f h =
      run-Refines ops (run_op op s) (record_op op f) (run_op-Refines op s f h)

  -- A hit after any calls returns what was last stored under the key and not deleted since, and
  -- only before it expires: whatever was evicted between.
  pub memory_get-last_stored :
      (ops : List Op) (now : ℕ) (key value : Bytes)
      → (memory_get lru now key (run ops empty)).0 ≡ some value
      → (e : Entry) × (last_stored ops (λ _. none) key ≡ some e)
        × (e.value ≡ value)
        × (is_expired now e ≡ false)
  memory_get-last_stored ops now key value h =
      let (e, held, v, fresh) = memory_get_hit lru now key (run ops empty) h in
      let held_was = run-Refines ops empty (λ _. none) none_held in
      (e, held_was key e held, v, fresh)
    where
      none_held : Refines empty (λ _. none)
      none_held j e p = ground (arith, lru.find-empty j)
