-- ===== src/Headers/Referer/Last.antt =====
-- What the ring buffer of an address remembers of its requests.
use anti_scrapling.Go.{
  ℕ, zero, suc, ◌-◌, ◌≤◌, ◌<◌, ◌≡◌, refl, sym, ap, ◌∙◌, Bool, List, [], ◌∷◌, ◌++◌, length, drop,
  arith, inl, inr, length-append, length-drop, le_or_lt,
}
use mathlib.Core.List.{append_assoc, append-nil}
use anti_scrapling.Headers.Referer.{IpWindow, new_ip_window, advance, exceeds, observe}
use anti_scrapling.Headers.Referer.Sliding.{
  slide, flagged, Holds, eq_true, ne_false, new_ip_window-Holds, advance-Holds, exceeds-Holds,
}

-- The window after some observations, the first one first.
unfoldable pub observe_all : List Bool → IpWindow → IpWindow
unfolding observe
observe_all [] w = w
observe_all (x ∷ xs) w = observe_all xs (observe x w).1

abbrev pub last_n : ℕ → List Bool → List Bool
last_n n xs = drop (length xs - n) xs

drop-suc : (k : ℕ) (xs : List Bool) → drop 1 (drop k xs) ≡ drop (suc k) xs
drop-suc zero xs = refl
drop-suc (suc k) [] = refl
drop-suc (suc k) (x ∷ xs) = drop-suc k xs

drop-append : (k : ℕ) (xs ys : List Bool) → k ≤ length xs → drop k (xs ++ ys) ≡ drop k xs ++ ys
drop-append zero xs ys h = refl
drop-append (suc k) [] ys h = absurd (omega (arith, h))
drop-append (suc k) (x ∷ xs) ys h = drop-append k xs ys (omega (arith, h))

drop_at : (k j : ℕ) (xs : List Bool) → k ≡ j → drop k xs ≡ drop j xs
drop_at k j xs h = ap (λ n. drop n xs) h

last_n-all : (n : ℕ) (xs : List Bool) → length xs ≤ n → last_n n xs ≡ xs
last_n-all n xs h = drop_at (length xs - n) 0 xs (omega (arith, h))

length-last_n : (n : ℕ) (xs : List Bool) → n ≤ length xs → length (last_n n xs) ≡ n
length-last_n n xs h = omega (arith, h, length-drop (length xs - n) xs)

slide-full :
    (size : ℕ) (ys : List Bool) (x : Bool)
    → length ys ≡ size
    → slide size ys x ≡ drop 1 ys ++ (x ∷ [])
slide-full size ys x h = rw (eq_true (length ys) size h) refl

slide-part :
    (size : ℕ) (ys : List Bool) (x : Bool) → length ys < size → slide size ys x ≡ ys ++ (x ∷ [])
slide-part size ys x h = rw (ne_false (length ys) size h) refl

slide-last_n :
    (size : ℕ) (xs : List Bool) (x : Bool)
    → 0 < size
    → slide size (last_n size xs) x ≡ last_n size (xs ++ (x ∷ []))
slide-last_n size xs x h = elim (le_or_lt size (length xs)) [
  | inl full ↦
      slide-full size (last_n size xs) x (length-last_n size xs full)
      ∙ ap (λ ys. ys ++ (x ∷ [])) (drop-suc (length xs - size) xs)
      ∙ sym (drop-append (suc (length xs - size)) xs (x ∷ []) (omega (arith, full, h)))
      ∙ drop_at (suc (length xs - size)) (length (xs ++ (x ∷ [])) - size) (xs ++ (x ∷ []))
          (omega (arith, full, length-append xs (x ∷ [])))
  | inr part ↦
      ap (λ ys. slide size ys x) (last_n-all size xs (omega (arith, part)))
      ∙ slide-part size xs x part
      ∙ sym (last_n-all size (xs ++ (x ∷ [])) (omega (arith, part, length-append xs (x ∷ []))))
]

slide-observe :
    (x : Bool) (w : IpWindow) (xs : List Bool)
    → 0 < w.window_size
    → Holds w (last_n w.window_size xs)
    → Holds (observe x w).1 (last_n w.window_size (xs ++ (x ∷ [])))
unfolding observe
slide-observe x w xs some_room h =
    rw (sym (slide-last_n w.window_size xs x some_room))
      (advance-Holds x w (last_n w.window_size xs) h)

observe_all-Holds :
    (xs : List Bool) (w : IpWindow) (hist : List Bool)
    → 0 < w.window_size
    → Holds w (last_n w.window_size hist)
    → Holds (observe_all xs w) (last_n w.window_size (hist ++ xs))
unfolding observe_all observe advance
observe_all-Holds [] w hist some_room h = rw (append-nil hist) h
observe_all-Holds (x ∷ xs) w hist some_room h = rw (sym (append_assoc hist (x ∷ []) xs)) (
    observe_all-Holds xs (advance x w) (hist ++ (x ∷ [])) some_room
      (slide-observe x w hist some_room h))

observe_all-settings :
    (xs : List Bool) (w : IpWindow)
    → ((observe_all xs w).window_size ≡ w.window_size)
      × ((observe_all xs w).threshold ≡ w.threshold)
unfolding observe_all observe advance
observe_all-settings [] w = (refl, refl)
observe_all-settings (x ∷ xs) w = observe_all-settings xs (advance x w)

observe_all-append :
    (xs : List Bool) (x : Bool) (w : IpWindow)
    → observe_all (xs ++ (x ∷ [])) w ≡ advance x (observe_all xs w)
unfolding observe_all observe
observe_all-append [] x w = refl
observe_all-append (y ∷ xs) x w = observe_all-append xs x (advance y w)

starts : (size threshold : ℕ) → 0 < size → Holds (new_ip_window size threshold) (last_n size [])
starts size threshold h =
    rw (last_n-all size [] (omega arith)) (new_ip_window-Holds size threshold h)

-- The answer of an address's ring buffer on a request is the one for the last `size` requests of
-- that address, this one among them, whatever came before: whether there are five and more than
-- the threshold of them, in hundredths, came from Google.
pub observe-last_n :
    (size threshold : ℕ) (xs : List Bool) (x : Bool)
    → 0 < size
    → (observe x (observe_all xs (new_ip_window size threshold))).0
      ≡ flagged threshold (last_n size (xs ++ (x ∷ [])))
unfolding observe new_ip_window
observe-last_n size threshold xs x h =
    let w = new_ip_window size threshold in
    ap exceeds (sym (observe_all-append xs x w))
    ∙ exceeds-Holds (observe_all (xs ++ (x ∷ [])) w) (last_n size (xs ++ (x ∷ [])))
        (observe_all-Holds (xs ++ (x ∷ [])) w [] h (starts size threshold h))
    ∙ ap (λ t. flagged t (last_n size (xs ++ (x ∷ [])))) (observe_all-settings (xs ++ (x ∷ [])) w).1
