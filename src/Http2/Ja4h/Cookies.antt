-- ===== src/Http2/Ja4h/Cookies.antt =====
-- The JA4H fingerprint forgets the order of the cookies.
use anti_scrapling.Go.{
  ◌≡◌, refl, sym, ap, ◌∙◌, ◌⊎◌, true, false, List, [], ◌∷◌, ◌++◌, Bytes, codes, text_eq,
  text_eq_iff, Assoc, sort_strings, store, lookup-store, arith,
}
use anti_scrapling.Go.Strings.Sort.{text_le_total, text_le_antisymm, text_le_trans}
use anti_scrapling.Http.{header_get}
use anti_scrapling.Http2.Ja4h.{
  Ja4hShape, Cookie, cookies_of, cookie_le, insert_cookie, sort_cookies, sorted_cookies,
  header_values, map_names, host_name, order_or, normalize_header_order, referer_flag, section_a,
  compute_ja4h_from_shape, compute_ja4h_full_from_shape,
}
use mathlib.Core.List.{Perm, Permᴰ}
use mathlib.Core.Logic.{∥∥₁_elim}

cookie_le_total : (a b : Cookie) → (cookie_le a b ≡ true) ⊎ (cookie_le b a ≡ true)
unfolding cookie_le
cookie_le_total (n, p) (m, q) =
    ground (arith, text_eq_iff n m, text_eq_iff m n, text_le_total n m, text_le_total p q)

cookie_le_antisymm : (a b : Cookie) → cookie_le a b ≡ true → cookie_le b a ≡ true → a ≡ b
unfolding cookie_le
cookie_le_antisymm (n, p) (m, q) h k =
    ground (arith, text_eq_iff n m, text_eq_iff m n, text_le_antisymm n m, text_le_antisymm p q)

cookie_le_trans :
    (a b c : Cookie) → cookie_le a b ≡ true → cookie_le b c ≡ true → cookie_le a c ≡ true
unfolding cookie_le
cookie_le_trans (n, p) (m, q) (l, r) h k = ground (
  arith,
  text_eq_iff n m,
  text_eq_iff m l,
  text_eq_iff n l,
  text_le_trans n m l,
  text_le_trans p q r,
  text_le_antisymm n m,
  text_le_antisymm m l,
)

insert_cookie_comm :
    (a b : Cookie) (l : List Cookie)
    → insert_cookie a (insert_cookie b l) ≡ insert_cookie b (insert_cookie a l)
unfolding insert_cookie
insert_cookie_comm a b [] = ground (arith, cookie_le_total a b, cookie_le_antisymm a b)
insert_cookie_comm a b (c ∷ l) = ground (
  arith,
  cookie_le_total a b,
  cookie_le_antisymm a b,
  cookie_le_trans a b c,
  cookie_le_trans b a c,
  insert_cookie_comm a b l,
)

sort_cookies-permᴰ : {l m : List Cookie} → Permᴰ l m → sort_cookies l ≡ sort_cookies m
unfolding sort_cookies
sort_cookies-permᴰ Permᴰ.nil = refl
sort_cookies-permᴰ (Permᴰ.cons {b = b} e p) = rw e (ap (insert_cookie b) (sort_cookies-permᴰ p))
sort_cookies-permᴰ (Permᴰ.swap {a' = c} {b' = d} {l = l} e f) =
    rw (e, f) (insert_cookie_comm d c (sort_cookies l))
sort_cookies-permᴰ (Permᴰ.trans p q) = sort_cookies-permᴰ p ∙ sort_cookies-permᴰ q

cookies_set : IsSet (List Cookie)
cookies_set = hlevel

sort_cookies-perm : (l m : List Cookie) → Perm l m → sort_cookies l ≡ sort_cookies m
sort_cookies-perm l m p = ∥∥₁_elim p (cookies_set _ _) sort_cookies-permᴰ

-- A request whose Cookie headers are `values`.
abbrev pub with_cookies : List Bytes → Ja4hShape → Ja4hShape
with_cookies values s = record s { header = store (codes "Cookie") values s.header }

map_names-store :
    (k : Bytes) (vs ws : List Bytes) (header : Assoc (List Bytes))
    → map_names (store k vs header) ≡ map_names (store k ws header)
unfolding map_names store
map_names-store k vs ws [] = refl
map_names-store k vs ws ((j, us) ∷ header) = ground (arith, map_names-store k vs ws header)

other_header :
    (name : Bytes) (vs : List Bytes) (header : Assoc (List Bytes))
    → text_eq (codes "Cookie") name ≡ false
    → header_get name (store (codes "Cookie") vs header) ≡ header_get name header
unfolding header_get
other_header name vs header h = rw (lookup-store (codes "Cookie") name vs header, header_get, h)

cookie_values :
    (vs : List Bytes) (header : Assoc (List Bytes))
    → header_values (codes "Cookie") (store (codes "Cookie") vs header) ≡ vs
unfolding header_values text_eq
cookie_values vs header =
    rw (lookup-store (codes "Cookie") (codes "Cookie") vs header, header_values)

module _ (sha256 unicode : Bytes → Bytes) (s : Ja4hShape) (vs ws : List Bytes)
    (same : Perm (cookies_of vs) (cookies_of ws)) where
  sorted : sorted_cookies (with_cookies vs s).header ≡ sorted_cookies (with_cookies ws s).header
  unfolding sorted_cookies
  sorted =
      ap (λ xs. sort_cookies (cookies_of xs)) (cookie_values vs s.header)
      ∙ sort_cookies-perm _ _ same
      ∙ sym (ap (λ xs. sort_cookies (cookies_of xs)) (cookie_values ws s.header))

  order : normalize_header_order (with_cookies vs s) ≡ normalize_header_order (with_cookies ws s)
  unfolding normalize_header_order
  order =
      ap (λ names. order_or s.header_order (sort_strings (host_name s.host ++ names)))
        (map_names-store (codes "Cookie") vs ws s.header)

  referer : referer_flag unicode (with_cookies vs s) ≡ referer_flag unicode (with_cookies ws s)
  unfolding referer_flag text_eq
  referer = rw (
    order,
    other_header (codes "Referer") vs s.header refl,
    other_header (codes "Referer") ws s.header refl,
  )

  -- A client that sends the same cookies in another order, or spreads them over other Cookie
  -- headers, keeps its full JA4H fingerprint.
  pub compute_ja4h_full-perm :
      compute_ja4h_full_from_shape sha256 unicode (with_cookies vs s)
      ≡ compute_ja4h_full_from_shape sha256 unicode (with_cookies ws s)
  unfolding compute_ja4h_full_from_shape compute_ja4h_from_shape section_a text_eq
  compute_ja4h_full-perm = rw (
    sorted,
    order,
    referer,
    other_header (codes "Accept-Language") vs s.header refl,
    other_header (codes "Accept-Language") ws s.header refl,
  )
