-- ===== src/Cache.antt =====
-- internal/cache: the decision cache. `Cache` is the interface of cache.go; memory.go implements it
-- over an LRU cache (Cache/Memory.antt).
pub mod Memory
use anti_scrapling.Go.{ℕ, ◌+◌, ◌≡◌, ◌≤◌, ◌<◌, Option, none, some, Bytes, ℤ, pos}

-- Times are nanoseconds, so `now` is what `time.Now()` returns in the call. `none` is a miss.
pub record Cache : Type 1 where
  pub State : Type 0
  pub get : ℕ → Bytes → State → Option Bytes × State
  pub set : ℕ → Bytes → Bytes → ℤ → State → State
  pub delete : Bytes → State → State
  pub close : State → State
  -- What is stored for a positive time is there until the time is over.
  pub get-set :
      (at now ttl : ℕ) (key value : Bytes) (s : State)
      → 0 < ttl
      → now ≤ at + ttl
      → (get now key (set at key value (pos ttl) s)).0 ≡ some value
