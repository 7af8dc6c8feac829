-- ===== src/Headers/Referer/Sliding.antt =====
-- The ring buffer as a window that slides over the observations.
use anti_scrapling.Go.{
  ℕ, zero, suc, ◌+◌, ◌*◌, ◌≤◌, ◌<◌, ◌≡◌, refl, sym, ap, ◌∙◌, ◌==◌, ==_iff, Bool, true, false,
  if◌then◌else◌, List, [], ◌∷◌, ◌++◌, length, take, drop, ltb, leb, arith, Bool-cases, inl, inr,
  length-append, take-length, take-length-append,
}
use mathlib.Core.List.{append_assoc, append-nil}
use anti_scrapling.Headers.Referer.{IpWindow, new_ip_window, blank, set_at, count, advance, exceeds}

-- The last `size` observations, the oldest first, when one more is made.
abbrev pub slide : ℕ → List Bool → Bool → List Bool
slide size xs x = (if length xs == size then drop 1 xs else xs) ++ (x ∷ [])

-- At least five observations, and more than the threshold of them Google's.
abbrev pub flagged : ℕ → List Bool → Bool
flagged threshold xs =
    if ltb (length xs) 5 then false else ltb (length xs * threshold) (count xs * 100)

-- The window holds `xs`: in its buffer the newest stand before `pos`, the oldest behind.
pub record Holds (w : IpWindow) (xs : List Bool) : Type 0 where
  pub front : List Bool
  pub back : List Bool
  pub in_buf : w.buf ≡ front ++ back
  pub at_pos : length front ≡ w.pos
  pub fits : length front + length back ≡ w.window_size
  pub room : w.pos < w.window_size
  pub shown : xs ≡ (if w.filled then back ++ front else front)

length-blank : (n : ℕ) → length (blank n) ≡ n
unfolding blank
length-blank zero = refl
length-blank (suc n) = omega (arith, length-blank n)

count-append : (xs ys : List Bool) → count (xs ++ ys) ≡ count xs + count ys
unfolding count
count-append [] ys = omega arith
count-append (true ∷ xs) ys = omega (arith, count-append xs ys)
count-append (false ∷ xs) ys = count-append xs ys

set_at-length :
    (x b : Bool) (front back : List Bool)
    → set_at (length front) x (front ++ (b ∷ back)) ≡ front ++ (x ∷ back)
unfolding set_at
set_at-length x b [] back = refl
set_at-length x b (a ∷ front) back = ap (◌∷◌ a) (set_at-length x b front back)

pub new_ip_window-Holds : (size threshold : ℕ) → 0 < size → Holds (new_ip_window size threshold) []
unfolding new_ip_window
new_ip_window-Holds size threshold h = record {
  front = [];
  back = blank size;
  in_buf = refl;
  at_pos = refl;
  fits = omega (arith, length-blank size);
  room = h;
  shown = refl;
}

pub eq_true : (a b : ℕ) → a ≡ b → (a == b) ≡ true
eq_true a b h = (==_iff a b).1 h

pub ne_false : (a b : ℕ) → a < b → (a == b) ≡ false
ne_false a b h = ground (arith, h)

le_leb : (a b : ℕ) → a ≤ b → leb a b ≡ true
le_leb a b h = ground (arith, h)

lt_leb : (a b : ℕ) → a < b → leb b a ≡ false
lt_leb a b h = ground (arith, h)

if_same : (b : Bool) (xs : List Bool) → (if b then xs else xs) ≡ xs
if_same true xs = refl
if_same false xs = refl

slide-shown :
    (filled : Bool) (size : ℕ) (b x : Bool) (front back : List Bool)
    → length front + suc (length back) ≡ size
    → slide size (if filled then (b ∷ back) ++ front else front) x
      ≡ (if filled then back ++ (front ++ (x ∷ [])) else front ++ (x ∷ []))
slide-shown true size b x front back h =
    rw (eq_true (suc (length (back ++ front))) size (omega (arith, h, length-append back front)))
      (append_assoc back front (x ∷ []))
slide-shown false size b x front back h = rw (ne_false (length front) size (omega (arith, h))) refl

set_at-front :
    (x b : Bool) (w : IpWindow) (front back : List Bool)
    → w.buf ≡ front ++ (b ∷ back)
    → length front ≡ w.pos
    → set_at w.pos x w.buf ≡ front ++ (x ∷ back)
set_at-front x b w front back buf at =
    ap (λ n. set_at n x w.buf) (sym at)
    ∙ ap (set_at (length front) x) buf
    ∙ set_at-length x b front back

advance-at :
    (x b : Bool) (w : IpWindow) (xs front back : List Bool)
    → w.buf ≡ front ++ (b ∷ back)
    → length front ≡ w.pos
    → length front + suc (length back) ≡ w.window_size
    → xs ≡ (if w.filled then (b ∷ back) ++ front else front)
    → Holds (advance x w) (slide w.window_size xs x)
unfolding advance
advance-at x b w xs front [] buf at fits shown =
    let wraps = le_leb w.window_size (w.pos + 1) (omega (arith, at, fits)) in
    record {
      front = [];
      back = front ++ (x ∷ []);
      in_buf = set_at-front x b w front [] buf at;
      at_pos = rw wraps refl;
      fits = omega (arith, fits, length-append front (x ∷ []));
      room = rw wraps (omega (arith, fits));
      shown = rw wraps (
          ap (λ ys. slide w.window_size ys x) shown
          ∙ slide-shown w.filled w.window_size b x front [] fits
          ∙ if_same w.filled (front ++ (x ∷ []))
          ∙ sym (append-nil (front ++ (x ∷ []))));
    }
advance-at x b w xs front (c ∷ back) buf at fits shown =
    let on = lt_leb (w.pos + 1) w.window_size (omega (arith, at, fits)) in
    record {
      front = front ++ (x ∷ []);
      back = c ∷ back;
      in_buf =
          set_at-front x b w front (c ∷ back) buf at ∙ sym (append_assoc front (x ∷ []) (c ∷ back));
      at_pos = rw on (omega (arith, at, length-append front (x ∷ [])));
      fits = omega (arith, fits, length-append front (x ∷ []));
      room = rw on (omega (arith, at, fits));
      shown = rw on (
          ap (λ ys. slide w.window_size ys x) shown
          ∙ slide-shown w.filled w.window_size b x front (c ∷ back) fits);
    }

advance-back :
    (x : Bool) (w : IpWindow) (xs front back : List Bool)
    → w.buf ≡ front ++ back
    → length front ≡ w.pos
    → length front + length back ≡ w.window_size
    → w.pos < w.window_size
    → xs ≡ (if w.filled then back ++ front else front)
    → Holds (advance x w) (slide w.window_size xs x)
advance-back x w xs front [] buf at fits room shown = absurd (omega (arith, at, fits, room))
advance-back x w xs front (b ∷ back) buf at fits room shown =
    advance-at x b w xs front back buf at (omega (arith, fits)) shown

pub advance-Holds :
    (x : Bool) (w : IpWindow) (xs : List Bool)
    → Holds w xs
    → Holds (advance x w) (slide w.window_size xs x)
advance-Holds x w xs h = advance-back x w xs h.front h.back h.in_buf h.at_pos h.fits h.room h.shown

whole :
    (w : IpWindow) (front back : List Bool)
    → length front + length back ≡ w.window_size
    → take w.window_size (front ++ back) ≡ front ++ back
whole w front back fits =
    ap (λ n. take n (front ++ back)) (sym fits ∙ sym (length-append front back))
    ∙ take-length (front ++ back)

around :
    (w : IpWindow) (front back : List Bool)
    → length front + length back ≡ w.window_size
    → w.window_size ≡ length (back ++ front)
around w front back fits = omega (arith, fits, length-append back front)

count_swap : (front back : List Bool) → count (front ++ back) ≡ count (back ++ front)
count_swap front back = omega (arith, count-append front back, count-append back front)

exceeds-at :
    (w : IpWindow) (front back : List Bool)
    → w.buf ≡ front ++ back
    → length front ≡ w.pos
    → length front + length back ≡ w.window_size
    → exceeds w ≡ flagged w.threshold (if w.filled then back ++ front else front)
unfolding exceeds
exceeds-at w front back buf at fits = elim (Bool-cases w.filled) [
  | inl e ↦
      rw (e, buf, whole w front back fits, around w front back fits, count_swap front back) refl
  | inr e ↦ rw (e, buf, sym at, take-length-append front back) refl
]

pub exceeds-Holds :
    (w : IpWindow) (xs : List Bool) → Holds w xs → exceeds w ≡ flagged w.threshold xs
exceeds-Holds w xs h =
    exceeds-at w h.front h.back h.in_buf h.at_pos h.fits ∙ ap (flagged w.threshold) (sym h.shown)
