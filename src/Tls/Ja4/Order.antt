-- ===== src/Tls/Ja4/Order.antt =====
-- The JA4 fingerprint forgets the order of ciphers and extensions.
use anti_scrapling.Go.{
  ℕ, ◌≡◌, refl, ap, ◌∙◌, Bool, not, true, false, ◌||◌, ◌==◌, List, [], ◌∷◌, ◌++◌, length, Bytes,
  arith, some, codes,
}
use anti_scrapling.Tls.Parser.{Extension, ClientHello}
use anti_scrapling.Tls.Ja3.{is_grease, filter_grease, extension_ids, join_uint16s}
use anti_scrapling.Tls.Ja4.{
  filter_ja4_ciphers, insert_uint16, sorted_uint16s, hashed_extensions, ja4_extension_hash_input,
  ja4_of, ja4_string, ja4_sni_type, max_tls_version,
}
use mathlib.Core.List.{Perm, Permᴰ}
use mathlib.Core.List.Permᴰ
use mathlib.Core.Logic.{∥∥₁_elim}

insert_uint16_comm :
    (a b : ℕ) (l : List ℕ)
    → insert_uint16 a (insert_uint16 b l) ≡ insert_uint16 b (insert_uint16 a l)
unfolding insert_uint16
insert_uint16_comm a b [] = ground arith
insert_uint16_comm a b (c ∷ l) = ground (arith, insert_uint16_comm a b l)

sorted_uint16s-permᴰ : {l m : List ℕ} → Permᴰ l m → sorted_uint16s l ≡ sorted_uint16s m
unfolding sorted_uint16s
sorted_uint16s-permᴰ Permᴰ.nil = refl
sorted_uint16s-permᴰ (Permᴰ.cons {b = b} e p) = rw e (ap (insert_uint16 b) (sorted_uint16s-permᴰ p))
sorted_uint16s-permᴰ (Permᴰ.swap {a' = c} {b' = d} {l = l} e f) =
    rw (e, f) (insert_uint16_comm d c (sorted_uint16s l))
sorted_uint16s-permᴰ (Permᴰ.trans p q) = sorted_uint16s-permᴰ p ∙ sorted_uint16s-permᴰ q

length-permᴰ : {l m : List ℕ} → Permᴰ l m → length l ≡ length m
length-permᴰ Permᴰ.nil = refl
length-permᴰ (Permᴰ.cons e p) = omega (arith, length-permᴰ p)
length-permᴰ (Permᴰ.swap e f) = refl
length-permᴰ (Permᴰ.trans p q) = length-permᴰ p ∙ length-permᴰ q

keep_if : Bool → ℕ → List ℕ → List ℕ
keep_if true v vs = v ∷ vs
keep_if false v vs = vs

keep_if-permᴰ :
    (b : Bool) (v : ℕ) {l m : List ℕ} → Permᴰ l m → Permᴰ (keep_if b v l) (keep_if b v m)
unfolding keep_if
keep_if-permᴰ true v p = Permᴰ.cons refl p
keep_if-permᴰ false v p = p

keep_if_swap :
    (b c : Bool) (v w : ℕ) (l : List ℕ)
    → Permᴰ (keep_if b v (keep_if c w l)) (keep_if c w (keep_if b v l))
unfolding keep_if
keep_if_swap true true v w l = Permᴰ.swap refl refl
keep_if_swap true false v w l = Permᴰ.refl (v ∷ l)
keep_if_swap false true v w l = Permᴰ.refl (w ∷ l)
keep_if_swap false false v w l = Permᴰ.refl l

-- What a fingerprint takes of a list: its length and its sorted arrangement.
module _ (keep : ℕ → Bool) where
  kept : List ℕ → List ℕ
  kept [] = []
  kept (v ∷ vs) = keep_if (keep v) v (kept vs)

  kept-permᴰ : {l m : List ℕ} → Permᴰ l m → Permᴰ (kept l) (kept m)
  unfolding kept
  kept-permᴰ Permᴰ.nil = Permᴰ.nil
  kept-permᴰ (Permᴰ.cons {b = b} e p) = rw e (keep_if-permᴰ (keep b) b (kept-permᴰ p))
  kept-permᴰ (Permᴰ.swap {a' = c} {b' = d} {l = l} e f) =
      rw (e, f) (keep_if_swap (keep d) (keep c) d c (kept l))
  kept-permᴰ (Permᴰ.trans p q) = Permᴰ.trans (kept-permᴰ p) (kept-permᴰ q)

filter_grease-kept : (l : List ℕ) → filter_grease l ≡ kept (λ v. not (is_grease v)) l
unfolding filter_grease kept keep_if
filter_grease-kept [] = refl
filter_grease-kept (v ∷ vs) = ground (arith, filter_grease-kept vs)

filter_ja4_ciphers-kept :
    (l : List ℕ) → filter_ja4_ciphers l ≡ kept (λ v. not (is_grease v || v == 0x00ff)) l
unfolding filter_ja4_ciphers kept keep_if
filter_ja4_ciphers-kept [] = refl
filter_ja4_ciphers-kept (v ∷ vs) = ground (arith, filter_ja4_ciphers-kept vs)

hashed_extensions-kept : (l : List ℕ) → hashed_extensions l ≡ kept (λ v. not (v == 0 || v == 16)) l
unfolding hashed_extensions kept keep_if
hashed_extensions-kept [] = refl
hashed_extensions-kept (v ∷ vs) = ground (arith, hashed_extensions-kept vs)

-- The three lists that the fingerprint hashes or counts.
filter_grease-permᴰ : {l m : List ℕ} → Permᴰ l m → Permᴰ (filter_grease l) (filter_grease m)
filter_grease-permᴰ {l} {m} p = rw (filter_grease-kept l, filter_grease-kept m) (kept-permᴰ _ p)

filter_ja4_ciphers-permᴰ :
    {l m : List ℕ} → Permᴰ l m → Permᴰ (filter_ja4_ciphers l) (filter_ja4_ciphers m)
filter_ja4_ciphers-permᴰ {l} {m} p =
    rw (filter_ja4_ciphers-kept l, filter_ja4_ciphers-kept m) (kept-permᴰ _ p)

hashed_extensions-permᴰ :
    {l m : List ℕ} → Permᴰ l m → Permᴰ (hashed_extensions l) (hashed_extensions m)
hashed_extensions-permᴰ {l} {m} p =
    rw (hashed_extensions-kept l, hashed_extensions-kept m) (kept-permᴰ _ p)

hash_input-permᴰ :
    {l m : List ℕ} (sigs : List ℕ)
    → Permᴰ l m
    → ja4_extension_hash_input l sigs ≡ ja4_extension_hash_input m sigs
unfolding ja4_extension_hash_input
hash_input-permᴰ sigs p =
    ap (λ l. join_uint16s (l ++ sigs) (codes ","))
      (sorted_uint16s-permᴰ (hashed_extensions-permᴰ p))

bytes_set : IsSet Bytes
bytes_set = hlevel

module _ (sha256 : Bytes → Bytes) (hello : ClientHello) where
  ja4_of-permᴰ :
      (cs : List ℕ) (exts : List Extension)
      → Permᴰ hello.cipher_suites cs
      → Permᴰ (extension_ids hello.extensions) (extension_ids exts)
      → ja4_of sha256 hello ≡ ja4_of sha256 (record hello { cipher_suites = cs; extensions = exts })
  unfolding ja4_of ja4_sni_type max_tls_version
  ja4_of-permᴰ cs exts p q =
      rw
        (
          length-permᴰ (filter_ja4_ciphers-permᴰ p),
          sorted_uint16s-permᴰ (filter_ja4_ciphers-permᴰ p),
          length-permᴰ (filter_grease-permᴰ q),
          hash_input-permᴰ hello.signature_algorithms (filter_grease-permᴰ q),
        )
        refl

  -- A client that offers the same ciphers and the same extension ids in another order, with the rest
  -- of its hello as it was, keeps its JA4 fingerprint.
  pub ja4_string-perm :
      (cs : List ℕ) (exts : List Extension)
      → Perm hello.cipher_suites cs
      → Perm (extension_ids hello.extensions) (extension_ids exts)
      → ja4_string sha256 (some hello)
        ≡ ja4_string sha256 (some (record hello { cipher_suites = cs; extensions = exts }))
  unfolding ja4_string
  ja4_string-perm cs exts p q =
      ∥∥₁_elim p (bytes_set _ _) (λ d. ∥∥₁_elim q (bytes_set _ _) (ja4_of-permᴰ cs exts d))
