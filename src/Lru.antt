-- ===== src/Lru.antt =====
-- github.com/hashicorp/golang-lru/v2, which the decision cache and the challenge issuer call: its
-- operations and what its documentation says of them. `find` is `Peek`.
pub mod Bounded
use anti_scrapling.Go.{◌≡◌, ◌⊎◌, Option, none, some, Bytes, text_eq, if◌then◌else◌, false}

pub record Lru (V : Type 0) : Type 1 where
  pub State : Type 0
  pub empty : State
  pub find : Bytes → State → Option V
  -- The value, and the state in which the key is the most recent.
  pub get : Bytes → State → Option V × State
  -- A full cache evicts other entries.
  pub add : Bytes → V → State → State
  pub remove : Bytes → State → State
  pub purge : State → State
  pub find-empty : (k : Bytes) → find k empty ≡ none
  pub get-find : (k : Bytes) (s : State) → (get k s).0 ≡ find k s
  pub find-get : (j k : Bytes) (s : State) → find j (get k s).1 ≡ find j s
  pub find-add_self : (k : Bytes) (v : V) (s : State) → find k (add k v s) ≡ some v
  pub find-add_ne :
      (j k : Bytes) (v : V) (s : State)
      → text_eq k j ≡ false
      → (find j (add k v s) ≡ find j s) ⊎ (find j (add k v s) ≡ none)
  pub find-remove :
      (j k : Bytes) (s : State) → find j (remove k s) ≡ (if text_eq k j then none else find j s)
  pub find-purge : (k : Bytes) (s : State) → find k (purge s) ≡ none
