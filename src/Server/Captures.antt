-- ===== src/Server/Captures.antt =====
-- Which capture a request finds: that of its own connection, until the connection is closed or one
-- with the same key comes.
use anti_scrapling.Go.{
  ◌≡◌, ◌≢◌, refl, ap, ◌∙◌, sym, inl, inr, Bool-cases, if◌then◌else◌, Option, none, some, List, [],
  ◌∷◌, ◌++◌, All, Bytes, text_eq, text_eq_iff, text_eq_refl, lookup-store, lookup-delete,
}
use anti_scrapling.Http.{HttpRequest}
use anti_scrapling.Server.ClientHello.{
  Conn, CaptureMap, addr_string, connection_key, connection_key_strings, recorded_of,
  capture_callback, store_capture, load_client_hello_capture, delete_client_hello_capture,
}
use anti_scrapling.Server.{
  ConnState, new, active, idle, hijacked, closed, conn_state, capture_for_request,
}

-- What happens to the connections of the server: a handshake shows a ClientHello, or net/http
-- reports a state.
pub data Event (I : Type 0) : Type 0 where
  hello : Conn → I → Event I
  enters : Conn → ConnState → Event I

if_other {ℓ} :
    {A : Type ℓ} (key wanted : Bytes) (a b : A)
    → key ≢ wanted
    → (if text_eq key wanted then a else b) ≡ b
if_other key wanted a b other = elim (Bool-cases (text_eq key wanted)) [
  | inl e ↦ absurd (other ((text_eq_iff key wanted).0 e))
  | inr e ↦ rw e
]

if_same {ℓ} : {A : Type ℓ} (key : Bytes) (a b : A) → (if text_eq key key then a else b) ≡ a
if_same key a b = rw (text_eq_refl key)

module _ {I : Type 0} where
  abbrev pub conn_of : Event I → Conn
  conn_of (hello conn info) = conn
  conn_of (enters conn state) = conn

  pub run_event : Event I → CaptureMap I → CaptureMap I
  run_event (hello conn info) m = capture_callback I (some conn) info m
  run_event (enters conn state) m = conn_state I (some conn) state m

  pub run : List (Event I) → CaptureMap I → CaptureMap I
  run [] m = m
  run (e ∷ events) m = run events (run_event e m)

  load-store :
      (wanted key : Bytes) (wrapped : Option Bytes) (info : I) (m : CaptureMap I)
      → wanted ≢ []
      → load_client_hello_capture I wanted (store_capture I key wrapped info m) ≡ (
          if text_eq key wanted
          then some (record { raw = recorded_of I wrapped; info = info })
          else load_client_hello_capture I wanted m)
  unfolding load_client_hello_capture text_eq
  load-store [] key wrapped info m full = absurd (full refl)
  load-store (c ∷ wanted) [] wrapped info m full = refl
  load-store (c ∷ wanted) (k ∷ key) wrapped info m full = lookup-store (k ∷ key) (c ∷ wanted) _ m

  load-delete :
      (wanted key : Bytes) (m : CaptureMap I)
      → wanted ≢ []
      → load_client_hello_capture I wanted (delete_client_hello_capture I key m)
        ≡ (if text_eq key wanted then none else load_client_hello_capture I wanted m)
  unfolding load_client_hello_capture delete_client_hello_capture text_eq
  load-delete [] key m full = absurd (full refl)
  load-delete (c ∷ wanted) [] m full = refl
  load-delete (c ∷ wanted) (k ∷ key) m full = lookup-delete (k ∷ key) (c ∷ wanted) m

  -- An event of another connection changes nothing for this one.
  load-other :
      (wanted : Bytes) (e : Event I) (m : CaptureMap I)
      → wanted ≢ []
      → connection_key (some (conn_of e)) ≢ wanted
      → load_client_hello_capture I wanted (run_event e m) ≡ load_client_hello_capture I wanted m
  unfolding run_event capture_callback conn_state
  load-other wanted (hello conn info) m full other =
      let key = connection_key (some conn) in
      load-store wanted key conn.wrapped info m full ∙ if_other key wanted _ _ other
  load-other wanted (enters conn closed) m full other =
      let key = connection_key (some conn) in
      load-delete wanted key m full ∙ if_other key wanted _ _ other
  load-other wanted (enters conn hijacked) m full other =
      let key = connection_key (some conn) in
      load-delete wanted key m full ∙ if_other key wanted _ _ other
  load-other wanted (enters conn new) m full other = refl
  load-other wanted (enters conn active) m full other = refl
  load-other wanted (enters conn idle) m full other = refl

  load-others :
      (wanted : Bytes) (events : List (Event I)) (m : CaptureMap I)
      → wanted ≢ []
      → All (λ e. connection_key (some (conn_of e)) ≢ wanted) events
      → load_client_hello_capture I wanted (run events m) ≡ load_client_hello_capture I wanted m
  unfolding run
  load-others wanted [] m full h = refl
  load-others wanted (e ∷ events) m full (other, h) =
      load-others wanted events (run_event e m) full h ∙ load-other wanted e m full other

  run-append :
      (before after : List (Event I)) (m : CaptureMap I)
      → run (before ++ after) m ≡ run after (run before m)
  unfolding run
  run-append [] after m = refl
  run-append (e ∷ before) after m = run-append before after (run_event e m)

  module _ (before after : List (Event I)) (m : CaptureMap I) (conn : Conn) (r : HttpRequest)
      (local : Option Bytes)
      (own : connection_key (some conn) ≡ connection_key_strings (addr_string local) r.remote_addr)
      (full : connection_key (some conn) ≢ [])
      (no_later : All
        (λ e. connection_key (some (conn_of e)) ≢ connection_key (some conn))
        after) where
    abbrev key : Bytes
    key = connection_key (some conn)

    -- Once the connection is closed, no request finds its ClientHello: a later connection with the
    -- same addresses does not inherit it.
    pub capture_for_request-closed :
        capture_for_request I local (some r) (run (before ++ (enters conn closed ∷ after)) m) ≡ none
    unfolding capture_for_request run run_event conn_state
    capture_for_request-closed =
        ap (λ k. load_client_hello_capture I k (run (before ++ (enters conn closed ∷ after)) m))
          (sym own)
        ∙ ap (load_client_hello_capture I key) (run-append before (enters conn closed ∷ after) m)
        ∙ load-others key after _ full no_later
        ∙ load-delete key key (run before m) full
        ∙ if_same key _ _
