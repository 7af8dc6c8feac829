-- ===== src/Challenge/Beacons.antt =====
-- internal/challenge/beacon_store.go, and `HandleBeacon` of service.go. A store maps a key to its
-- slice; a key that is absent reads as the empty slice, and deleting a key makes it so.
pub mod Window
pub mod Latest
use anti_scrapling.Go.{
  ℕ, ◌+◌, ◌-◌, ◌*◌, ◌^◌, ltb, Bool, true, false, not, if◌then◌else◌, Option, none, some, List, [],
  ◌∷◌, ◌++◌, Bytes, codes, text_eq, length, drop,
}
use anti_scrapling.Types.{Signal}
use anti_scrapling.Http.{HttpRequest, RequestContext}
use anti_scrapling.Challenge.Service.{client_ip}

abbrev pub beacon_max_per_key : ℕ
beacon_max_per_key = 100

-- 5 minutes, in nanoseconds.
abbrev pub beacon_max_age : ℕ
beacon_max_age = 300 * 10 ^ 9

-- `B` is `types.BehaviorBeacon`, of which the store reads the session id.
module _ (B : Type 0) (session_id : B → Bytes) where
  pub record BeaconEntry : Type 0 where
    pub beacon : B
    pub stored_at : ℕ

  abbrev pub Index : Type 0
  Index = Bytes → List BeaconEntry

  pub record BeaconStore : Type 0 where
    pub by_session : Index
    pub by_ip : Index

  unfoldable pub new_beacon_store : BeaconStore
  new_beacon_store = record { by_session = λ key. []; by_ip = λ key. [] }

  -- `e.storedAt.After(now.Add(-beaconMaxAge))`
  unfoldable pub keep_young : ℕ → List BeaconEntry → List BeaconEntry
  keep_young now [] = []
  keep_young now (e ∷ es) =
      let rest = keep_young now es in
      if ltb now (e.stored_at + beacon_max_age) then e ∷ rest else rest

  unfoldable pub prune_expired : ℕ → BeaconStore → BeaconStore
  prune_expired now s = record {
    by_session = λ key. keep_young now (s.by_session key);
    by_ip = λ key. keep_young now (s.by_ip key);
  }

  unfoldable pub cap : List BeaconEntry → List BeaconEntry
  cap es =
      if ltb beacon_max_per_key (length es) then drop (length es - beacon_max_per_key) es else es

  unfoldable pub push : ℕ → Index → Bytes → B → Index
  push now m key b j =
      if text_eq key j then cap (m key ++ (record { beacon = b; stored_at = now } ∷ [])) else m j

  unfoldable pub ingest : ℕ → B → BeaconStore → BeaconStore
  ingest now b s =
      let pruned = prune_expired now s in
      record pruned { by_session = push now pruned.by_session (session_id b) b }

  -- The address of the request is the host of `RemoteAddr`, or all of it.
  unfoldable pub ingest_from_request : ℕ → HttpRequest → B → BeaconStore → BeaconStore
  unfolding client_ip
  ingest_from_request now r b s =
      let pruned = prune_expired now s in
      record {
        by_session = push now pruned.by_session (session_id b) b;
        by_ip = push now pruned.by_ip (client_ip r) b;
      }

  -- The beacon of the last entry.
  unfoldable pub latest : List BeaconEntry → Option B
  latest [] = none
  latest (e ∷ []) = some e.beacon
  latest (e ∷ f ∷ es) = latest (f ∷ es)

  unfoldable pub get_by_session : Bytes → BeaconStore → Option B
  get_by_session id s = latest (s.by_session id)

  unfoldable pub get_by_ip : Bytes → BeaconStore → Option B
  get_by_ip ip s = latest (s.by_ip ip)

  -- `score` is `behavior.Score`.
  module _ (score : B → List Signal) where
    unfoldable pub score_session : Bytes → BeaconStore → List Signal
    score_session id s = elim (get_by_session id s) [ none ↦ [] | some b ↦ score b ]

    -- `StoreBehaviorCollector.Collect`
    unfoldable pub collect : RequestContext → BeaconStore → List Signal
    collect ctx s = elim (get_by_ip ctx.remote_ip s) [ none ↦ [] | some b ↦ score b ]

  pub data BeaconResponse : Type 0 where
    method_not_allowed bad_request no_content : BeaconResponse

  -- `body` is the decoded beacon; the service's ingestor is the store.
  unfoldable pub handle_beacon :
      ℕ → HttpRequest → Option B → BeaconStore → BeaconResponse × BeaconStore
  handle_beacon now r body s =
      if not (text_eq r.method (codes "POST")) then (method_not_allowed, s) else elim body [
        | none ↦ (bad_request, s)
        | some b ↦ (no_content, ingest_from_request now r b s)
      ]
