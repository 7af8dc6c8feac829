-- ===== src/Challenge/Beacons/Window.antt =====
-- The window of the beacon store, over any requests.
use anti_scrapling.Go.{
  ℕ, ◌+◌, ◌-◌, ◌<◌, ◌≤◌, ltb, Bool-cases, inl, inr, Option, none, some, List, [], ◌∷◌, ◌++◌, Bytes,
  codes, text_eq, length, length-drop, All, All-append, All-drop, arith,
}
use anti_scrapling.Http.{HttpRequest}
use anti_scrapling.Challenge.Service.{client_ip}
use anti_scrapling.Challenge.Beacons.{
  BeaconEntry, Index, BeaconStore, beacon_max_age, beacon_max_per_key, new_beacon_store, keep_young,
  prune_expired, cap, push, ingest_from_request, handle_beacon,
}

module _ (B : Type 0) (session_id : B → Bytes) where
  -- No entry is five minutes old.
  abbrev pub IsYoung : ℕ → List (BeaconEntry B session_id) → Type 0
  IsYoung now = All (λ e. now < e.stored_at + beacon_max_age)

  keep_young-IsYoung :
      (now : ℕ) (es : List (BeaconEntry B session_id))
      → IsYoung now (keep_young B session_id now es)
  unfolding keep_young
  keep_young-IsYoung now [] = tt
  keep_young-IsYoung now (e ∷ es) = let rest = keep_young-IsYoung now es in ground (arith, rest)

  length-keep_young :
      (now : ℕ) (es : List (BeaconEntry B session_id))
      → length (keep_young B session_id now es) ≤ length es
  unfolding keep_young
  length-keep_young now [] = omega arith
  length-keep_young now (e ∷ es) = ground (arith, length-keep_young now es)

  length-cap :
      (es : List (BeaconEntry B session_id)) → length (cap B session_id es) ≤ beacon_max_per_key
  unfolding cap
  length-cap es = ground (arith, length-drop (length es - beacon_max_per_key) es)

  cap-IsYoung :
      (now : ℕ) (es : List (BeaconEntry B session_id))
      → IsYoung now es
      → IsYoung now (cap B session_id es)
  unfolding cap
  cap-IsYoung now es h =
      let dropped =
        All-drop (λ e. now < e.stored_at + beacon_max_age) (length es - beacon_max_per_key) es h in
      elim (Bool-cases (ltb beacon_max_per_key (length es))) [
        | inl e ↦ rw e dropped
        | inr e ↦ rw e h
      ]

  -- A request to the beacon handler, with its time.
  pub record BeaconCall : Type 0 where
    pub at : ℕ
    pub request : HttpRequest
    pub body : Option B

  unfoldable pub run : List BeaconCall → BeaconStore B session_id → BeaconStore B session_id
  run [] s = s
  run (c ∷ cs) s = run cs (handle_beacon B session_id c.at c.request c.body s).1

  -- Neither index has more than a hundred entries under a key.
  abbrev pub IsCapped : BeaconStore B session_id → Type 0
  IsCapped s =
      (key : Bytes)
      → (length (s.by_session key) ≤ beacon_max_per_key)
        × (length (s.by_ip key) ≤ beacon_max_per_key)

  length-push :
      (now : ℕ) (m : Index B session_id) (key j : Bytes) (b : B)
      → length (m j) ≤ beacon_max_per_key
      → length (push B session_id now m key b j) ≤ beacon_max_per_key
  unfolding push
  length-push now m key j b h = elim (Bool-cases (text_eq key j)) [
    | inl e ↦ rw e (length-cap (m key ++ (record { beacon = b; stored_at = now } ∷ [])))
    | inr e ↦ rw e h
  ]

  ingest_from_request-IsCapped :
      (now : ℕ) (r : HttpRequest) (b : B) (s : BeaconStore B session_id)
      → IsCapped s
      → IsCapped (ingest_from_request B session_id now r b s)
  unfolding ingest_from_request prune_expired
  ingest_from_request-IsCapped now r b s h key = (
    length-push now (λ j. keep_young B session_id now (s.by_session j)) (session_id b) key b
        (omega (arith, length-keep_young now (s.by_session key), h key)),
    length-push now (λ j. keep_young B session_id now (s.by_ip j)) (client_ip r) key b
        (omega (arith, length-keep_young now (s.by_ip key), h key)),
  )

  handle_beacon-IsCapped :
      (now : ℕ) (r : HttpRequest) (body : Option B) (s : BeaconStore B session_id)
      → IsCapped s
      → IsCapped (handle_beacon B session_id now r body s).1
  unfolding handle_beacon
  handle_beacon-IsCapped now r none s h = elim (Bool-cases (text_eq r.method (codes "POST"))) [
    | inl e ↦ rw e h
    | inr e ↦ rw e h
  ]
  handle_beacon-IsCapped now r (some b) s h = elim (Bool-cases (text_eq r.method (codes "POST"))) [
    | inl e ↦ rw e (ingest_from_request-IsCapped now r b s h)
    | inr e ↦ rw e h
  ]

  run-IsCapped :
      (cs : List BeaconCall) (s : BeaconStore B session_id) → IsCapped s → IsCapped (run cs s)
  unfolding run
  run-IsCapped [] s h = h
  run-IsCapped (c ∷ cs) s h =
      run-IsCapped cs (handle_beacon B session_id c.at c.request c.body s).1
        (handle_beacon-IsCapped c.at c.request c.body s h)

  new-IsCapped : IsCapped (new_beacon_store B session_id)
  unfolding new_beacon_store
  new-IsCapped key = (omega arith, omega arith)

  push-IsYoung :
      (now : ℕ) (m : Index B session_id) (key j : Bytes) (b : B)
      → ((i : Bytes) → IsYoung now (m i))
      → IsYoung now (push B session_id now m key b j)
  unfolding push
  push-IsYoung now m key j b h =
      let new : BeaconEntry B session_id = record { beacon = b; stored_at = now } in
      elim (Bool-cases (text_eq key j)) [
        | inl e ↦ rw e (
            cap-IsYoung now (m key ++ (new ∷ [])) (
              All-append (λ e. now < e.stored_at + beacon_max_age) (m key) (new ∷ []) (h key)
                (omega arith, tt)))
        | inr e ↦ rw e (h j)
      ]

  -- After any beacon requests, each beacon that is accepted leaves at most a hundred entries under
  -- every key of both indexes, and none that is five minutes old.
  pub ingest_from_request-window :
      (cs : List BeaconCall) (now : ℕ) (r : HttpRequest) (b : B) (key : Bytes)
      → let s = ingest_from_request B session_id now r b (run cs (new_beacon_store B session_id)) in
        (length (s.by_session key) ≤ beacon_max_per_key)
        × (length (s.by_ip key) ≤ beacon_max_per_key)
        × IsYoung now (s.by_session key)
        × IsYoung now (s.by_ip key)
  unfolding ingest_from_request prune_expired
  ingest_from_request-window cs now r b key =
      let old = run cs (new_beacon_store B session_id) in
      let capped =
        ingest_from_request-IsCapped now r b old
          (run-IsCapped cs (new_beacon_store B session_id) new-IsCapped) key in
      (
        capped.0,
        capped.1,
        push-IsYoung now (λ j. keep_young B session_id now (old.by_session j)) (session_id b) key b
            (λ i. keep_young-IsYoung now (old.by_session i)),
        push-IsYoung now (λ j. keep_young B session_id now (old.by_ip j)) (client_ip r) key b
            (λ i. keep_young-IsYoung now (old.by_ip i)),
      )
