-- ===== src/Proxy/Stripped.antt =====
-- Which headers StripHopByHop leaves.
use anti_scrapling.Go.{
  ◌≡◌, refl, ap, ◌∙◌, Bool, true, false, ◌||◌, if◌then◌else◌, Option, none, List, [], ◌∷◌, Bytes,
  text_eq, Assoc, lookup, delete, lookup-delete, header_del, canonical_key,
}
use anti_scrapling.Proxy.{hop_by_hop_headers, del_all, connection_fields, strip_hop_by_hop}

-- `name` is the canonical form of one of the names.
abbrev pub names : Bytes → List Bytes → Bool
names name [] = false
names name (n ∷ ns) = text_eq (canonical_key n) name || names name ns

if_or {ℓ} :
    {A : Type ℓ} (a b : Bool) (o : Option A)
    → (if a then none else (if b then none else o)) ≡ (if a || b then none else o)
if_or true b o = refl
if_or false b o = refl

if_or_swap {ℓ} :
    {A : Type ℓ} (a b : Bool) (o : Option A)
    → (if b then none else (if a then none else o)) ≡ (if a || b then none else o)
if_or_swap true true o = refl
if_or_swap true false o = refl
if_or_swap false b o = refl

lookup-del_all :
    (name : Bytes) (ns : List Bytes) (h : Assoc (List Bytes))
    → lookup name (del_all ns h) ≡ (if names name ns then none else lookup name h)
unfolding del_all header_del
lookup-del_all name [] h = refl
lookup-del_all name (n ∷ ns) h =
    lookup-del_all name ns (delete (canonical_key n) h)
    ∙ ap (λ o. if names name ns then none else o) (lookup-delete (canonical_key n) name h)
    ∙ if_or_swap (text_eq (canonical_key n) name) (names name ns) (lookup name h)

-- After StripHopByHop a header is gone exactly if it is hop-by-hop or the Connection header lists
-- it, in any case of letters, and every other header is as it was.
pub lookup-strip_hop_by_hop :
    (name : Bytes) (h : Assoc (List Bytes))
    → lookup name (strip_hop_by_hop h) ≡ (
        if names name hop_by_hop_headers || names name (connection_fields h)
        then none
        else lookup name h)
unfolding strip_hop_by_hop
lookup-strip_hop_by_hop name h =
    lookup-del_all name hop_by_hop_headers (del_all (connection_fields h) h)
    ∙ ap (λ o. if names name hop_by_hop_headers then none else o)
        (lookup-del_all name (connection_fields h) h)
    ∙ if_or (names name hop_by_hop_headers) (names name (connection_fields h)) (lookup name h)
