-- ===== src/Server/Life.antt =====
-- `Start`, `Stop` and `Addr` of internal/server/server.go. The lock makes the test and the setting
-- of the listener one step.
use anti_scrapling.Go.{
  ◌≡◌, refl, ap, ◌⊎◌, inl, inr, Bool, true, false, Option, none, some, Bytes, Result, ok, err,
}
use anti_scrapling.Server.{TlsError, TlsSettings, ServerTlsConfig, build_tls_config}

-- `listener` is the address of the listener, once Start has opened one.
pub record ServerState (C : Type 0) : Type 0 where
  pub addr : Bytes
  pub tls_cfg : Option (ServerTlsConfig C)
  pub listener : Option Bytes

pub data StartResult : Type 0 where
  listen_failed already_started serve_failed stopped : StartResult
  tls_failed : TlsError → StartResult

-- How serving ends: `true` when the server has been shut down.
abbrev served : Bool → StartResult
served true = stopped
served false = serve_failed

module _ {C : Type 0} where
  unfoldable pub new_server : Bytes → Option (ServerTlsConfig C) → ServerState C
  new_server addr tls_cfg = record { addr = addr; tls_cfg = tls_cfg; listener = none }

  abbrev after_tls : Result TlsError (TlsSettings C) → Bool → StartResult
  after_tls (err e) ends = tls_failed e
  after_tls (ok settings) ends = served ends

  abbrev run_on : (Bytes → Bytes → Option C) → Option (ServerTlsConfig C) → Bool → StartResult
  run_on load none ends = served ends
  run_on load (some cfg) ends = after_tls (build_tls_config load (some cfg)) ends

  abbrev open_on :
      (Bytes → Bytes → Option C)
      → ServerState C
      → Option Bytes
      → Bytes
      → Bool
      → StartResult × ServerState C
  open_on load s (some other) opened ends = (already_started, s)
  open_on load s none opened ends =
      (run_on load s.tls_cfg ends, record s { listener = some opened })

  -- `opened` is the address of the listener that `net.Listen` opens, `none` for its error.
  unfoldable pub start :
      (Bytes → Bytes → Option C) → ServerState C → Option Bytes → Bool → StartResult × ServerState C
  unfolding build_tls_config
  start load s none ends = (listen_failed, s)
  start load s (some opened) ends = open_on load s s.listener opened ends

  unfoldable pub addr_of : ServerState C → Bytes
  addr_of s = elim s.listener [ none ↦ s.addr | some opened ↦ opened ]

  opened_once :
      (load : Bytes → Bytes → Option C) (s : ServerState C) (other opened : Bytes) (ends : Bool)
      (l : Option Bytes)
      → l ≡ some other
      → open_on load s l opened ends ≡ (already_started, s)
  opened_once load s other opened ends none e = cc
  opened_once load s other opened ends (some x) e = refl

  -- A server that has opened its listener once serves on no other: a later Start fails and leaves
  -- it as it is, also where the first one failed on its TLS settings.
  pub start_once :
      (load : Bytes → Bytes → Option C) (s : ServerState C) (other : Bytes) (opened : Option Bytes)
      (ends : Bool)
      → s.listener ≡ some other
      → ((start load s opened ends).1 ≡ s)
        × (((start load s opened ends).0 ≡ listen_failed)
            ⊎ ((start load s opened ends).0 ≡ already_started))
  unfolding start
  start_once load s other none ends e = (refl, inl refl)
  start_once load s other (some opened) ends e =
      let same = opened_once load s other opened ends s.listener e in
      (ap (λ r. r.1) same, inr (ap (λ r. r.0) same))
