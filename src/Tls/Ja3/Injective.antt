-- ===== src/Tls/Ja3/Injective.antt =====
-- What a JA3 string says of the hello.
use anti_scrapling.Go.{
  ℕ, zero, suc, ◌+◌, ◌-◌, ◌*◌, ◌/◌, ◌%◌, ◌^◌, ◌<◌, ◌≤◌, ◌≡◌, ◌≢◌, refl, ap, sym, ◌∙◌, List, [], ◌∷◌,
  ◌++◌, map, Bytes, arith, All, All-append, some, decimal_digits, Lacks, IsPart, split_first,
  join-injective, Lacks-join, codes,
}
use anti_scrapling.Tls.Parser.{ClientHello}
use anti_scrapling.Tls.Ja3.{filter_grease, extension_ids, ja3_string, itoa, join_uint16s}

-- The number of a text of digits.
abbrev value : ℕ → Bytes → ℕ
value acc [] = acc
value acc (c ∷ cs) = value (acc * 10 + (c - b'0')) cs

value-append :
    (acc : ℕ) (cs : Bytes) (c : ℕ) → value acc (cs ++ (c ∷ [])) ≡ value acc cs * 10 + (c - b'0')
value-append acc [] c = refl
value-append acc (d ∷ cs) c = value-append (acc * 10 + (d - b'0')) cs c

value-decimal_digits : (fuel n : ℕ) → n < 10 ^ suc fuel → value 0 (decimal_digits fuel n) ≡ n
unfolding decimal_digits
value-decimal_digits zero n h = omega arith
value-decimal_digits (suc fuel) n h = ground (
  arith,
  value-decimal_digits fuel (n / 10),
  value-append 0 (decimal_digits fuel (n / 10)) (b'0' + n % 10),
)

IsDigits : Bytes → Type 0
IsDigits = All (λ c. (b'0' ≤ c) × (c ≤ b'9'))

decimal_digits-IsDigits : (fuel n : ℕ) → IsDigits (decimal_digits fuel n)
unfolding decimal_digits IsDigits
decimal_digits-IsDigits zero n = (omega arith, tt)
decimal_digits-IsDigits (suc fuel) n =
    let last : IsDigits ((b'0' + n % 10) ∷ []) = (omega arith, tt) in
    let longer =
      All-append _ (decimal_digits fuel (n / 10)) ((b'0' + n % 10) ∷ [])
        (decimal_digits-IsDigits fuel (n / 10)) last in
    ground arith

pub itoa-injective : (m n : ℕ) → m < 65536 → n < 65536 → itoa m ≡ itoa n → m ≡ n
unfolding itoa
itoa-injective m n h k e =
    sym (value-decimal_digits 4 m (omega arith))
    ∙ ap (value 0) e
    ∙ value-decimal_digits 4 n (omega arith)

IsDigits-Lacks : (s : ℕ) (a : Bytes) → s < b'0' → IsDigits a → Lacks s a
unfolding IsDigits
IsDigits-Lacks s [] h d = tt
IsDigits-Lacks s (c ∷ a) h (r, d) = (ground arith, IsDigits-Lacks s a h d)

append_nonempty : (cs : Bytes) (c : ℕ) → (cs ++ (c ∷ [])) ≢ []
append_nonempty [] c = ground arith
append_nonempty (d ∷ cs) c = ground arith

digits_nonempty : (fuel n : ℕ) → decimal_digits fuel n ≢ []
unfolding decimal_digits
digits_nonempty zero n = ground arith
digits_nonempty (suc fuel) n =
    ground (arith, append_nonempty (decimal_digits fuel (n / 10)) (b'0' + n % 10))

abbrev pub AreUint16s : List ℕ → Type 0
AreUint16s = All (λ v. v < 65536)

itoa-Lacks : (s n : ℕ) → s < b'0' → Lacks s (itoa n)
unfolding itoa
itoa-Lacks s n h = IsDigits-Lacks s (decimal_digits 4 n) h (decimal_digits-IsDigits 4 n)

itoas-IsPart : (s : ℕ) (vs : List ℕ) → s < b'0' → All (IsPart s) (map itoa vs)
unfolding itoa
itoas-IsPart s [] h = tt
itoas-IsPart s (v ∷ vs) h = ((digits_nonempty 4 v, itoa-Lacks s v h), itoas-IsPart s vs h)

itoas-Lacks : (s : ℕ) (vs : List ℕ) → s < b'0' → All (Lacks s) (map itoa vs)
itoas-Lacks s [] h = tt
itoas-Lacks s (v ∷ vs) h = (itoa-Lacks s v h, itoas-Lacks s vs h)

itoas-injective :
    (us vs : List ℕ) → AreUint16s us → AreUint16s vs → map itoa us ≡ map itoa vs → us ≡ vs
itoas-injective [] [] h k e = refl
itoas-injective [] (v ∷ vs) h k e = cc
itoas-injective (u ∷ us) [] h k e = cc
itoas-injective (u ∷ us) (v ∷ vs) (l, h) (m, k) e =
    ground (arith, itoa-injective u v l m, itoas-injective us vs h k)

join_uint16s-injective :
    (us vs : List ℕ)
    → AreUint16s us
    → AreUint16s vs
    → join_uint16s us (codes "-") ≡ join_uint16s vs (codes "-")
    → us ≡ vs
unfolding join_uint16s
join_uint16s-injective us vs h k e = itoas-injective us vs h k (
    join-injective b'-' (map itoa us) (map itoa vs) (itoas-IsPart b'-' us (omega arith))
      (itoas-IsPart b'-' vs (omega arith)) e)

join_uint16s-Lacks : (vs : List ℕ) → Lacks b',' (join_uint16s vs (codes "-"))
unfolding join_uint16s
join_uint16s-Lacks vs =
    Lacks-join b',' b'-' (map itoa vs) (omega arith) (itoas-Lacks b',' vs (omega arith))

filter_grease-AreUint16s : (vs : List ℕ) → AreUint16s vs → AreUint16s (filter_grease vs)
unfolding filter_grease
filter_grease-AreUint16s [] h = tt
filter_grease-AreUint16s (v ∷ vs) (l, h) = let rest = filter_grease-AreUint16s vs h in ground arith

-- The numbers of a hello are what their Go types hold.
abbrev pub FieldsFit : ClientHello → Type 0
FieldsFit h =
    (h.version < 65536)
    × AreUint16s h.cipher_suites
    × AreUint16s (extension_ids h.extensions)
    × AreUint16s h.supported_curves
    × AreUint16s h.supported_points

-- Hellos with one JA3 string, whose numbers are below 2^16, have the same version and, GREASE values left out, the same ciphers,
-- extension ids, curves and point formats, each in the same order.
pub ja3_string-injective :
    (g h : ClientHello)
    → FieldsFit g
    → FieldsFit h
    → ja3_string (some g) ≡ ja3_string (some h)
    → (g.version ≡ h.version)
      × (filter_grease g.cipher_suites ≡ filter_grease h.cipher_suites)
      × (filter_grease (extension_ids g.extensions) ≡ filter_grease (extension_ids h.extensions))
      × (filter_grease g.supported_curves ≡ filter_grease h.supported_curves)
      × (g.supported_points ≡ h.supported_points)
unfolding ja3_string
ja3_string-injective g h (gv, gc, ge, gk, gp) (hv, hc, he, hk, hp) e =
    let (v, e1) =
      split_first b',' (itoa g.version) (itoa h.version) _ _
        (itoa-Lacks b',' g.version (omega arith)) (itoa-Lacks b',' h.version (omega arith)) e in
    let (c, e2) =
      split_first b',' _ _ _ _ (join_uint16s-Lacks (filter_grease g.cipher_suites))
        (join_uint16s-Lacks (filter_grease h.cipher_suites)) e1 in
    let (x, e3) =
      split_first b',' _ _ _ _ (join_uint16s-Lacks (filter_grease (extension_ids g.extensions)))
        (join_uint16s-Lacks (filter_grease (extension_ids h.extensions))) e2 in
    let (k, p) =
      split_first b',' _ _ _ _ (join_uint16s-Lacks (filter_grease g.supported_curves))
        (join_uint16s-Lacks (filter_grease h.supported_curves)) e3 in
    (
      itoa-injective g.version h.version gv hv v,
      join_uint16s-injective _ _ (filter_grease-AreUint16s g.cipher_suites gc)
          (filter_grease-AreUint16s h.cipher_suites hc) c,
      join_uint16s-injective _ _ (filter_grease-AreUint16s (extension_ids g.extensions) ge)
          (filter_grease-AreUint16s (extension_ids h.extensions) he) x,
      join_uint16s-injective _ _ (filter_grease-AreUint16s g.supported_curves gk)
          (filter_grease-AreUint16s h.supported_curves hk) k,
      join_uint16s-injective g.supported_points h.supported_points gp hp p,
    )
