-- ===== src/Proxy/Directed.antt =====
-- What the director makes of a request.
use anti_scrapling.Go.{
  ◌==◌, ◌≡◌, ◌≢◌, refl, ap, ◌∙◌, sym, Bool, true, false, ◌||◌, if◌then◌else◌, inl, inr, Bool-cases,
  Option, none, some, List, [], ◌∷◌, ◌++◌, Bytes, codes, text_eq, text_eq_iff, Assoc, lookup, store,
  lookup-store, header_set, canonical_key, arith,
}
use mathlib.Core.List.{append_assoc}
use anti_scrapling.Proxy.{
  Url, Outgoing, hop_by_hop_headers, connection_fields, strip_hop_by_hop, with_user_agent,
  join_path, ends_in_slash, starts_with_slash, set_absent, director, tail,
}
use anti_scrapling.Proxy.Stripped.{names, lookup-strip_hop_by_hop}

-- A path without a slash at its end, and one without a slash at its start.
abbrev pub without_last_slash : Bytes → Bytes
without_last_slash [] = []
without_last_slash (c ∷ []) = if c == b'/' then [] else c ∷ []
without_last_slash (c ∷ d ∷ s) = c ∷ without_last_slash (d ∷ s)

abbrev pub without_first_slash : Bytes → Bytes
without_first_slash [] = []
without_first_slash (c ∷ s) = if c == b'/' then s else c ∷ s

last_slash : (a : Bytes) → ends_in_slash a ≡ true → a ≡ without_last_slash a ++ (b'/' ∷ [])
unfolding ends_in_slash
last_slash [] h = cc
last_slash (c ∷ []) h = ground arith
last_slash (c ∷ d ∷ a) h = ap (◌∷◌ c) (last_slash (d ∷ a) h)

no_last_slash : (a : Bytes) → ends_in_slash a ≡ false → without_last_slash a ≡ a
unfolding ends_in_slash
no_last_slash [] h = refl
no_last_slash (c ∷ []) h = ground arith
no_last_slash (c ∷ d ∷ a) h = ap (◌∷◌ c) (no_last_slash (d ∷ a) h)

first_slash :
    (b : Bytes)
    → starts_with_slash b ≡ true
    → (b ≡ b'/' ∷ without_first_slash b) × (tail b ≡ without_first_slash b)
unfolding starts_with_slash
first_slash [] h = cc
first_slash (c ∷ b) h = (ground arith, ground arith)

no_first_slash : (b : Bytes) → starts_with_slash b ≡ false → without_first_slash b ≡ b
unfolding starts_with_slash
no_first_slash [] h = refl
no_first_slash (c ∷ b) h = ground arith

at_seam : (a t : Bytes) → ends_in_slash a ≡ true → a ++ t ≡ without_last_slash a ++ (b'/' ∷ t)
at_seam a t h =
    ap (λ x. x ++ t) (last_slash a h) ∙ append_assoc (without_last_slash a) (b'/' ∷ []) t

full_test : (a : Bytes) → a ≢ [] → text_eq a [] ≡ false
unfolding text_eq
full_test [] full = absurd (full refl)
full_test (c ∷ a) full = refl

-- The site's path and the request's are joined by one slash, whether the one ends and the other
-- starts with a slash or not; only where the site has no path and the request's starts with no
-- slash does it stay as it is.
pub join_path_lem :
    (a b : Bytes)
    → (a ≢ [] → join_path a b ≡ without_last_slash a ++ (b'/' ∷ without_first_slash b))
      × (join_path [] b ≡ b)
unfolding join_path
join_path_lem a b = (
  λ full. elim (Bool-cases (ends_in_slash a)) [
    | inl e ↦ elim (Bool-cases (starts_with_slash b)) [
      | inl f ↦ rw (e, f, join_path) (at_seam a (tail b) e ∙ ap joined_with (first_slash b f).1)
      | inr f ↦ rw (e, f, join_path) (at_seam a b e ∙ ap joined_with (sym (no_first_slash b f)))
    ]
    | inr e ↦ elim (Bool-cases (starts_with_slash b)) [
      | inl f ↦
          rw (e, f, join_path) (ap (◌++◌ a) (first_slash b f).0 ∙ whole e (without_first_slash b))
      | inr f ↦
          rw (e, f, full_test a full, join_path)
            (whole e b ∙ ap joined_with (sym (no_first_slash b f)))
    ]
  ],
  elim (Bool-cases (starts_with_slash b)) [ inl f ↦ rw f | inr f ↦ rw f ],
)
  where
    joined_with : Bytes → Bytes
    joined_with t = without_last_slash a ++ (b'/' ∷ t)

    whole : ends_in_slash a ≡ false → (t : Bytes) → a ++ (b'/' ∷ t) ≡ joined_with t
    whole e t = ap (λ x. x ++ (b'/' ∷ t)) (sym (no_last_slash a e))

abbrev pub user_agent_or_empty : Option (List Bytes) → List Bytes
user_agent_or_empty none = [] ∷ []
user_agent_or_empty (some values) = values

set_absent_lem :
    (name : Bytes) (h : Assoc (List Bytes)) (o : Option (List Bytes))
    → lookup (codes "User-Agent") h ≡ o
    → lookup name (set_absent o h)
      ≡ (if text_eq (codes "User-Agent") name then some (user_agent_or_empty o) else lookup name h)
unfolding header_set canonical_key
set_absent_lem name h none e = lookup-store (codes "User-Agent") name ([] ∷ []) h
set_absent_lem name h (some values) e = elim (Bool-cases (text_eq (codes "User-Agent") name)) [
  | inl same ↦
      rw same (ap (λ n. lookup n h) (sym ((text_eq_iff (codes "User-Agent") name).0 same)) ∙ e)
  | inr other ↦ rw other refl
]

with_user_agent_lem :
    (name : Bytes) (h : Assoc (List Bytes))
    → lookup name (with_user_agent h) ≡ (
        if text_eq (codes "User-Agent") name
        then some (user_agent_or_empty (lookup (codes "User-Agent") h))
        else lookup name h)
unfolding with_user_agent
with_user_agent_lem name h = set_absent_lem name h (lookup (codes "User-Agent") h) refl

-- What the director hands to httputil.ReverseProxy of a request's headers, which then makes
-- changes of its own. X-Forwarded-Host is the host that the client asked for and X-Forwarded-Proto
-- its protocol, whatever stood under these names or was listed in Connection; hop-by-hop headers
-- and those that Connection lists are gone; an absent User-Agent is empty, so that the transport
-- adds none; all other headers are as they came to the director.
pub director_headers :
    (target : Url) (req : Outgoing) (name : Bytes)
    → lookup name (director target req).headers ≡ (
        if text_eq (codes "X-Forwarded-Host") name
        then some (req.host ∷ [])
        else if text_eq (codes "X-Forwarded-Proto") name
        then some ((if req.tls then codes "https" else codes "http") ∷ [])
        else if names name hop_by_hop_headers
            || names name (connection_fields (with_user_agent req.headers))
        then none
        else if text_eq (codes "User-Agent") name
        then some (user_agent_or_empty (lookup (codes "User-Agent") req.headers))
        else lookup name req.headers)
unfolding director header_set canonical_key
director_headers target req name =
    let given = with_user_agent req.headers in
    let proto = (if req.tls then codes "https" else codes "http") ∷ [] in
    let stripped = strip_hop_by_hop given in
    lookup-store (codes "X-Forwarded-Host") name (req.host ∷ [])
      (store (codes "X-Forwarded-Proto") proto stripped)
    ∙ ap (λ o. if text_eq (codes "X-Forwarded-Host") name then some (req.host ∷ []) else o)
        (lookup-store (codes "X-Forwarded-Proto") name proto stripped
          ∙ ap (λ o. if text_eq (codes "X-Forwarded-Proto") name then some proto else o)
              (lookup-strip_hop_by_hop name given
                ∙ ap (λ o. if gone name given then none else o)
                    (with_user_agent_lem name req.headers)))
  where
    gone : Bytes → Assoc (List Bytes) → Bool
    gone name given = names name hop_by_hop_headers || names name (connection_fields given)
