-- ===== src/Tls/Ja3/Grease.antt =====
-- GREASE values make no difference to the fingerprints.
use anti_scrapling.Go.{ℕ, ◌≡◌, refl, ap, true, List, [], ◌∷◌, ◌++◌, arith, some}
use anti_scrapling.Tls.Parser.{Extension, ClientHello}
use anti_scrapling.Tls.Ja3.{is_grease, filter_grease, extension_ids, ja3_string}

pub filter_grease-append_grease :
    (xs ys : List ℕ) (g : ℕ)
    → is_grease g ≡ true
    → filter_grease (xs ++ (g ∷ ys)) ≡ filter_grease (xs ++ ys)
unfolding filter_grease
filter_grease-append_grease [] ys g h = ground (arith, h)
filter_grease-append_grease (x ∷ xs) ys g h = ground (arith, filter_grease-append_grease xs ys g h)

pub extension_ids-append :
    (xs ys : List Extension) → extension_ids (xs ++ ys) ≡ extension_ids xs ++ extension_ids ys
unfolding extension_ids
extension_ids-append [] ys = refl
extension_ids-append (x ∷ xs) ys = ap (◌∷◌ x.type) (extension_ids-append xs ys)

pub filter_grease-extension_ids :
    (xs ys : List Extension) (ext : Extension)
    → is_grease ext.type ≡ true
    → filter_grease (extension_ids (xs ++ (ext ∷ ys))) ≡ filter_grease (extension_ids (xs ++ ys))
unfolding extension_ids
filter_grease-extension_ids xs ys ext h =
    rw (extension_ids-append xs (ext ∷ ys), extension_ids-append xs ys)
      (filter_grease-append_grease (extension_ids xs) (extension_ids ys) ext.type h)

-- A GREASE value among the ciphers, the extensions and the curves, wherever it stands, leaves the
-- JA3 string as it is.
pub ja3_string-grease :
    (hello : ClientHello) (c c' k k' : List ℕ) (x x' : List Extension) (g j : ℕ) (ext : Extension)
    → is_grease g ≡ true
    → is_grease ext.type ≡ true
    → is_grease j ≡ true
    → ja3_string (
        some (record hello {
          cipher_suites = c ++ (g ∷ c');
          extensions = x ++ (ext ∷ x');
          supported_curves = k ++ (j ∷ k');
        }))
      ≡ ja3_string (
          some (record hello {
            cipher_suites = c ++ c';
            extensions = x ++ x';
            supported_curves = k ++ k';
          }))
unfolding ja3_string
ja3_string-grease hello c c' k k' x x' g j ext p q r =
    rw
      (
        filter_grease-append_grease c c' g p,
        filter_grease-extension_ids x x' ext q,
        filter_grease-append_grease k k' j r,
      )
      refl
