-- ===== src/Challenge/Beacons/Latest.antt =====
-- What the two lookups of the beacon store return.
use anti_scrapling.Go.{
  ℕ, ◌+◌, ◌-◌, ◌<◌, ◌≤◌, ◌≡◌, refl, ap, ◌∙◌, ltb, false, Bool-cases, inl, inr, Option, none, some,
  List, [], ◌∷◌, ◌++◌, Bytes, codes, text_eq, text_eq_refl, length, drop, length-append, All, arith,
  zero, suc,
}
use anti_scrapling.Http.{HttpRequest}
use anti_scrapling.Challenge.Beacons.{
  BeaconEntry, BeaconStore, beacon_max_age, beacon_max_per_key, keep_young, prune_expired, cap,
  push, ingest_from_request, latest, get_by_session, handle_beacon,
}
use anti_scrapling.Challenge.Beacons.Window.{BeaconCall, run}

module _ (B : Type 0) (session_id : B → Bytes) where
  -- The list ends in the entry.
  abbrev EndsIn : BeaconEntry B session_id → List (BeaconEntry B session_id) → Type 0
  EndsIn e es = (front : List (BeaconEntry B session_id)) × (es ≡ front ++ (e ∷ []))

  latest-append :
      (front : List (BeaconEntry B session_id)) (e : BeaconEntry B session_id)
      → latest B session_id (front ++ (e ∷ [])) ≡ some e.beacon
  unfolding latest
  latest-append [] e = refl
  latest-append (f ∷ []) e = refl
  latest-append (f ∷ g ∷ front) e = latest-append (g ∷ front) e

  keep_young-append :
      (now : ℕ) (front : List (BeaconEntry B session_id)) (e : BeaconEntry B session_id)
      → now < e.stored_at + beacon_max_age
      → keep_young B session_id now (front ++ (e ∷ []))
        ≡ keep_young B session_id now front ++ (e ∷ [])
  unfolding keep_young
  keep_young-append now [] e h = ground arith
  keep_young-append now (f ∷ front) e h = ground (arith, keep_young-append now front e h)

  drop-append_last :
      (n : ℕ) (front : List (BeaconEntry B session_id)) (e : BeaconEntry B session_id)
      → n ≤ length front
      → drop n (front ++ (e ∷ [])) ≡ drop n front ++ (e ∷ [])
  drop-append_last zero front e h = refl
  drop-append_last (suc n) [] e h = absurd (omega arith)
  drop-append_last (suc n) (f ∷ front) e h = drop-append_last n front e (omega arith)

  cap-EndsIn :
      (front : List (BeaconEntry B session_id)) (e : BeaconEntry B session_id)
      → EndsIn e (cap B session_id (front ++ (e ∷ [])))
  unfolding cap
  cap-EndsIn front e =
      let es = front ++ (e ∷ []) in
      let n = length es - beacon_max_per_key in
      elim (Bool-cases (ltb beacon_max_per_key (length es))) [
        | inl h ↦ (
          drop n front,
          rw h (drop-append_last n front e (omega (arith, length-append front (e ∷ [])))),
        )
        | inr h ↦ (front, rw h refl)
      ]

  -- A call that leaves the session alone while the entry is young.
  abbrev pub LeavesSession : Bytes → ℕ → BeaconCall B session_id → Type 0
  LeavesSession id limit c =
      (c.at < limit) × ((b : B) → c.body ≡ some b → text_eq (session_id b) id ≡ false)

  ingest-EndsIn_other :
      (id : Bytes) (e : BeaconEntry B session_id) (now : ℕ) (r : HttpRequest) (b : B)
      (s : BeaconStore B session_id)
      → now < e.stored_at + beacon_max_age
      → text_eq (session_id b) id ≡ false
      → EndsIn e (s.by_session id)
      → EndsIn e ((ingest_from_request B session_id now r b s).by_session id)
  unfolding ingest_from_request prune_expired push
  ingest-EndsIn_other id e now r b s y n (front, k) =
      (keep_young B session_id now front, rw (n, k) (keep_young-append now front e y))

  handle_beacon-EndsIn :
      (id : Bytes) (e : BeaconEntry B session_id) (now : ℕ) (r : HttpRequest) (body : Option B)
      (s : BeaconStore B session_id)
      → now < e.stored_at + beacon_max_age
      → ((b : B) → body ≡ some b → text_eq (session_id b) id ≡ false)
      → EndsIn e (s.by_session id)
      → EndsIn e ((handle_beacon B session_id now r body s).1.by_session id)
  unfolding handle_beacon
  handle_beacon-EndsIn id e now r none s y n k =
      elim (Bool-cases (text_eq r.method (codes "POST"))) [ inl h ↦ rw h k | inr h ↦ rw h k ]
  handle_beacon-EndsIn id e now r (some b) s y n k =
      elim (Bool-cases (text_eq r.method (codes "POST"))) [
        | inl h ↦ rw h (ingest-EndsIn_other id e now r b s y (n b refl) k)
        | inr h ↦ rw h k
      ]

  run-EndsIn :
      (id : Bytes) (e : BeaconEntry B session_id) (cs : List (BeaconCall B session_id))
      (s : BeaconStore B session_id)
      → All (LeavesSession id (e.stored_at + beacon_max_age)) cs
      → EndsIn e (s.by_session id)
      → EndsIn e ((run B session_id cs s).by_session id)
  unfolding run
  run-EndsIn id e [] s h k = k
  run-EndsIn id e (c ∷ cs) s ((y, n), h) k =
      run-EndsIn id e cs (handle_beacon B session_id c.at c.request c.body s).1 h
        (handle_beacon-EndsIn id e c.at c.request c.body s y n k)

  ingest-EndsIn_self :
      (now : ℕ) (r : HttpRequest) (b : B) (s : BeaconStore B session_id)
      → EndsIn
          (record { beacon = b; stored_at = now })
          ((ingest_from_request B session_id now r b s).by_session (session_id b))
  unfolding ingest_from_request prune_expired push
  ingest-EndsIn_self now r b s = rw (text_eq_refl (session_id b)) (
      cap-EndsIn (keep_young B session_id now (s.by_session (session_id b)))
        (record { beacon = b; stored_at = now }))

  -- The beacon that was accepted for a session is the one that `GetBySession` returns, as long as
  -- the beacon requests after it come within five minutes of it and are not of the same session.
  pub get_by_session-latest :
      (now : ℕ) (r : HttpRequest) (b : B) (s : BeaconStore B session_id)
      (cs : List (BeaconCall B session_id))
      → All (LeavesSession (session_id b) (now + beacon_max_age)) cs
      → get_by_session B session_id
          (session_id b)
          (run B session_id cs (ingest_from_request B session_id now r b s))
        ≡ some b
  unfolding get_by_session
  get_by_session-latest now r b s cs h =
      let new : BeaconEntry B session_id = record { beacon = b; stored_at = now } in
      let (front, e) =
        run-EndsIn (session_id b) new cs (ingest_from_request B session_id now r b s) h
          (ingest-EndsIn_self now r b s) in
      ap (latest B session_id) e ∙ latest-append front new
