-- ===== src/Tests/Caches.antt =====
-- The memory cache over a small LRU cache.
use anti_scrapling.Go.{
  ◌≡◌, refl, false, none, some, List, [], ◌∷◌, codes, text_eq, lookup, delete, pos,
}
use anti_scrapling.Lru.{Lru}
use anti_scrapling.Lru.Bounded.{bounded}
use anti_scrapling.Cache.Memory.{Entry, is_expired, expiry, memory_get, memory_set}
use anti_scrapling.Cache.Memory.History.{
  Op, get, set, last_stored, run_op, run, memory_get-last_stored,
}

abbrev lru : Lru Entry
lru = bounded Entry 1

abbrev ops : List Op
ops =
    set 10 (codes "a") (codes "x") (pos 5)
    ∷ set 11 (codes "b") (codes "y") (pos 0)
    ∷ get 12 (codes "a")
    ∷ []

hit : (memory_get lru 15 (codes "a") (run lru ops [])).0 ≡ some (codes "x")
unfolding memory_get run run_op memory_set is_expired expiry lookup delete text_eq
hit = refl

expired : (memory_get lru 16 (codes "a") (run lru ops [])).0 ≡ none
unfolding memory_get run run_op memory_set is_expired expiry lookup delete text_eq
expired = refl

memory_get-last_stored_example :
    (e : Entry) × (last_stored ops (λ _. none) (codes "a") ≡ some e)
    × (e.value ≡ codes "x")
    × (is_expired 15 e ≡ false)
memory_get-last_stored_example = memory_get-last_stored lru ops 15 (codes "a") (codes "x") hit
