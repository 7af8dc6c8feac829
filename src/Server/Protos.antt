-- ===== src/Server/Protos.antt =====
-- The protocols that the TLS listener offers.
use anti_scrapling.Go.{
  ◌≡◌, refl, ◌∙◌, sym, false, not, ◌&&◌, ◌||◌, inl, inr, Bool-cases, List, [], ◌∷◌, ◌++◌, Bytes,
  text_eq, text_eq_iff, arith,
}
use anti_scrapling.Server.{default_protos, is_seen, add_protos, with_default_next_protos}
use mathlib.Core.List.{append_assoc, append-nil}

-- Texts that are not empty and that no earlier one equals, `out` coming first.
abbrev pub AreNew : List Bytes → List Bytes → Type 0
AreNew out [] = Unit
AreNew out (p ∷ ps) = ((text_eq p [] || is_seen p out) ≡ false) × AreNew (out ++ (p ∷ [])) ps

is_seen-append :
    (p : Bytes) (xs ys : List Bytes) → is_seen p (xs ++ ys) ≡ (is_seen p xs || is_seen p ys)
unfolding is_seen
is_seen-append p [] ys = refl
is_seen-append p (x ∷ xs) ys = ground (arith, is_seen-append p xs ys)

-- What the loop adds.
added :
    (out ps : List Bytes) → (new : List Bytes) × (add_protos out ps ≡ out ++ new) × AreNew out new
unfolding add_protos
added out [] = ([], sym (append-nil out), tt)
added out (p ∷ ps) = elim (Bool-cases (text_eq p [] || is_seen p out)) [
  | inl old ↦ let (new, e, h) = added out ps in (new, rw old e, h)
  | inr fresh ↦
      let (new, e, h) = added (out ++ (p ∷ [])) ps in
      (p ∷ new, rw fresh (e ∙ append_assoc out (p ∷ []) new), (fresh, h))
]

add_new : (out new : List Bytes) → AreNew out new → add_protos out new ≡ out ++ new
unfolding add_protos
add_new out [] h = sym (append-nil out)
add_new out (p ∷ new) (fresh, h) =
    rw fresh (add_new (out ++ (p ∷ [])) new h ∙ append_assoc out (p ∷ []) new)

is_seen-add_protos :
    (wanted : Bytes) (out ps : List Bytes)
    → is_seen wanted (add_protos out ps)
      ≡ (is_seen wanted out || (not (text_eq wanted []) && is_seen wanted ps))
unfolding add_protos is_seen
is_seen-add_protos wanted out [] = ground arith
is_seen-add_protos wanted out (p ∷ ps) = ground (
  arith,
  is_seen-add_protos wanted out ps,
  is_seen-add_protos wanted (out ++ (p ∷ [])) ps,
  is_seen-append wanted out (p ∷ []),
  text_eq_iff p wanted,
)

-- The listener offers h2 and http/1.1 first, then protocols that are not empty and of which no two
-- are the same; these are the configured ones, each of which is offered; and applying the defaults
-- again changes nothing.
pub with_default_next_protos_lem :
    (ps : List Bytes)
    → (new : List Bytes) × (with_default_next_protos ps ≡ default_protos ++ new)
      × AreNew default_protos new
      × ((wanted : Bytes)
          → is_seen wanted (with_default_next_protos ps)
            ≡ (is_seen wanted default_protos || (not (text_eq wanted []) && is_seen wanted ps)))
      × (with_default_next_protos (with_default_next_protos ps) ≡ with_default_next_protos ps)
unfolding with_default_next_protos
with_default_next_protos_lem ps =
    let (new, e, h) = added default_protos ps in
    (
      new,
      e,
      h,
      λ wanted. is_seen-add_protos wanted default_protos ps,
      rw e (again new ∙ add_new default_protos new h),
    )
  where
    again :
        (new : List Bytes)
        → add_protos default_protos (default_protos ++ new) ≡ add_protos default_protos new
    again new = refl
