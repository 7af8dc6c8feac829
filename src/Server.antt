-- ===== src/Server.antt =====
-- internal/server/server.go: the server's life, the capture of ClientHellos and the TLS settings.
pub mod ClientHello
pub mod Protos
pub mod Life
pub mod Captures
use anti_scrapling.Go.{
  ℕ, ◌==◌, ltb, Bool, true, false, ◌&&◌, ◌||◌, not, if◌then◌else◌, Option, none, some, List, [],
  ◌∷◌, ◌++◌, length, Bytes, codes, text_eq, Assoc, lookup, store, Result, ok, err, ◌>>=◌,
}
use anti_scrapling.Http.{HttpRequest}
use anti_scrapling.Server.ClientHello.{
  Conn, ClientHelloCapture, CaptureMap, addr_string, connection_key, connection_key_strings,
  load_client_hello_capture, delete_client_hello_capture,
}

-- `http.ConnState`
pub data ConnState : Type 0 where
  new active idle hijacked closed : ConnState

module _ (I : Type 0) where
  unfoldable pub conn_state : Option Conn → ConnState → CaptureMap I → CaptureMap I
  unfolding connection_key delete_client_hello_capture
  conn_state conn closed m = delete_client_hello_capture I (connection_key conn) m
  conn_state conn hijacked m = delete_client_hello_capture I (connection_key conn) m
  conn_state conn _ m = m

  -- `local` is the request's local address; a nil request is `none`. The middleware puts what is
  -- found into the context of the request.
  unfoldable pub capture_for_request :
      Option Bytes → Option HttpRequest → CaptureMap I → Option (ClientHelloCapture I)
  unfolding load_client_hello_capture connection_key_strings
  capture_for_request local none m = none
  capture_for_request local (some r) m =
      load_client_hello_capture I (connection_key_strings (addr_string local) r.remote_addr) m

abbrev pub default_protos : List Bytes
default_protos = codes "h2" ∷ codes "http/1.1" ∷ []

unfoldable pub is_seen : Bytes → List Bytes → Bool
unfolding text_eq
is_seen proto [] = false
is_seen proto (p ∷ seen) = text_eq p proto || is_seen proto seen

-- The loop over the given protocols: those that are seen are those of `out`.
unfoldable pub add_protos : List Bytes → List Bytes → List Bytes
unfolding is_seen text_eq
add_protos out [] = out
add_protos out (proto ∷ protos) =
    add_protos (if text_eq proto [] || is_seen proto out then out else out ++ (proto ∷ [])) protos

unfoldable pub with_default_next_protos : List Bytes → List Bytes
unfolding add_protos
with_default_next_protos protos = add_protos default_protos protos

-- What `buildTLSConfig` reads and sets of a tls.Config; `C` are certificates, and the callback
-- for a client's config is there or not.
pub record TlsSettings (C : Type 0) : Type 0 where
  pub certificates : List C
  pub has_get_certificate : Bool
  pub has_get_config : Bool
  pub next_protos : List Bytes

pub record ServerTlsConfig (C : Type 0) : Type 0 where
  pub cert : Bytes
  pub key : Bytes
  pub certificates : List C
  pub config : Option (TlsSettings C)

pub data TlsError : Type 0 where
  nil_config bad_key_pair no_certificate : TlsError

abbrev is_empty {ℓ} : {A : Type ℓ} → List A → Bool
is_empty [] = true
is_empty (x ∷ xs) = false

module _ {C : Type 0} where
  abbrev base_settings : Option (TlsSettings C) → TlsSettings C
  base_settings none = record {
    certificates = [];
    has_get_certificate = false;
    has_get_config = false;
    next_protos = [];
  }
  base_settings (some settings) = settings

  abbrev given_certificates : List C → TlsSettings C → TlsSettings C
  given_certificates [] s = s
  given_certificates (c ∷ cs) s = record s { certificates = c ∷ cs }

  abbrev loaded_pair : Option C → TlsSettings C → Result TlsError (TlsSettings C)
  loaded_pair none s = err bad_key_pair
  loaded_pair (some c) s = ok (record s { certificates = c ∷ [] })

  -- `load` is `tls.LoadX509KeyPair`, `none` for its error.
  abbrev load_certificate :
      (Bytes → Bytes → Option C) → Bytes → Bytes → TlsSettings C → Result TlsError (TlsSettings C)
  load_certificate load cert key s =
      if is_empty s.certificates
        && not s.has_get_certificate
        && not (text_eq cert [])
        && not (text_eq key [])
      then loaded_pair (load cert key) s
      else ok s

  -- The settings that the listener gets: their callback is there in any case.
  unfoldable pub build_tls_config :
      (Bytes → Bytes → Option C) → Option (ServerTlsConfig C) → Result TlsError (TlsSettings C)
  unfolding with_default_next_protos text_eq
  build_tls_config load none = err nil_config
  build_tls_config load (some cfg) = do
    s ←
        load_certificate load cfg.cert cfg.key
          (given_certificates cfg.certificates (base_settings cfg.config))
    if is_empty s.certificates && not s.has_get_certificate && not s.has_get_config
        then err no_certificate
        else ok (record s {
          has_get_config = true;
          next_protos = with_default_next_protos s.next_protos;
        })

  -- The callback on a hello that has been captured. `previous` is the callback that was there, and
  -- what it answers: an error, no config, or one.
  abbrev pub selected :
      {E : Type 0} → Result E (Option (TlsSettings C)) → Result E (Option (TlsSettings C))
  selected (err e) = err e
  selected (ok none) = ok none
  selected (ok (some s)) =
      ok (some (record s { next_protos = with_default_next_protos s.next_protos }))

  unfoldable pub get_config_for_client :
      {E : Type 0} → Option (Result E (Option (TlsSettings C))) → Result E (Option (TlsSettings C))
  unfolding with_default_next_protos
  get_config_for_client none = ok none
  get_config_for_client (some answer) = selected answer
