-- ===== src/Behavior/Quiet.antt =====
-- When a beacon raises nothing.
use anti_scrapling.Go.{
  ◌^◌, ◌<◌, ◌≡◌, ◌≢◌, ◌↔◌, ◌⊎◌, inl, inr, refl, Bool, false, Option, none, List, [], ◌∷◌, ℤ, pos,
  pos_part, neg_part, negsuc, ltb_ℤ, ◌≤ℤ◌, ◌<ℤ◌, ◌+ℤ◌, wrap64, arith, Bool-cases, Option-cases,
}
use anti_scrapling.Types.{Signal, DetailValue}
use anti_scrapling.Behavior.{
  BehaviorBeacon, all_in_band, check_intervals, check_click_timing, check_resource_block,
  check_visibility, check_mouse_jitter, five_times, run_checkers, score,
}

-- Some interval is outside the band from 100 to 200 milliseconds.
pub data Outside : List ℤ → Type 0 where
  short : {iv : ℤ} {ivs : List ℤ} → iv <ℤ pos 100 → Outside (iv ∷ ivs)
  long : {iv : ℤ} {ivs : List ℤ} → pos 200 <ℤ iv → Outside (iv ∷ ivs)
  further : {iv : ℤ} {ivs : List ℤ} → Outside ivs → Outside (iv ∷ ivs)

out_of_band-Outside : (ivs : List ℤ) → all_in_band ivs ≡ false → Outside ivs
unfolding all_in_band
out_of_band-Outside [] h = absurd (ground (arith, h))
out_of_band-Outside (iv ∷ ivs) h = elim (Bool-cases (ltb_ℤ iv (pos 100))) [
  | inl e ↦ short (ground (arith, e))
  | inr e ↦ elim (Bool-cases (ltb_ℤ (pos 200) iv)) [
    | inl d ↦ long (ground (arith, d))
    | inr d ↦ further (out_of_band-Outside ivs (ground (arith, e, d, h)))
  ]
]

all_in_band-Outside : {ivs : List ℤ} → Outside ivs → all_in_band ivs ≡ false
unfolding all_in_band
all_in_band-Outside (short h) = ground (arith, h)
all_in_band-Outside (long h) = ground (arith, h)
all_in_band-Outside (further o) = ground (arith, all_in_band-Outside o)

intervals_none : (ivs : List ℤ) → (check_intervals ivs ≡ none) ↔ ((ivs ≡ []) ⊎ Outside ivs)
unfolding check_intervals
intervals_none [] = (λ h. inl refl, λ h. refl)
intervals_none (iv ∷ ivs) = (
  λ h. inr (out_of_band-Outside (iv ∷ ivs) (ground (arith, h))),
  λ h. elim h [
    | inl e ↦ absurd (ground (arith, e))
    | inr o ↦ ground (arith, all_in_band-Outside o)
  ],
)

five_times-small :
    (n : ℤ) → pos_part n < 2 ^ 60 → neg_part n < 2 ^ 60 → five_times n ≡ n +ℤ n +ℤ n +ℤ n +ℤ n
unfolding five_times wrap64 ◌+ℤ◌
five_times-small (pos n) h k = ground (arith, h)
five_times-small (negsuc n) h k = ground (arith, k)

run_no_checkers : {F : Type 0} (b : BehaviorBeacon F) → run_checkers [] b ≡ []
unfolding run_checkers
run_no_checkers b = refl

run_checkers-none :
    {F : Type 0} (check : BehaviorBeacon F → Option Signal)
    (checkers : List (BehaviorBeacon F → Option Signal)) (b : BehaviorBeacon F)
    → (run_checkers (check ∷ checkers) b ≡ []) ↔ ((check b ≡ none) × (run_checkers checkers b ≡ []))
unfolding run_checkers
run_checkers-none check checkers b = elim (Option-cases (check b)) [
  | inl e ↦ (λ h. (e, ground (arith, e, h)), λ q. ground (arith, e, q.1))
  | inr (s, e) ↦ (λ h. absurd (ground (arith, e, h)), λ q. absurd (ground (arith, e, q.0)))
]

module _ {F : Type 0} (b : BehaviorBeacon F) where
  resource_quiet : (check_resource_block b ≡ none) ↔ (
      (b.resource_fetches.css ≢ pos 0)
      ⊎ ((b.resource_fetches.font ≢ pos 0) ⊎ (b.resource_fetches.image ≢ pos 0)))
  unfolding check_resource_block
  resource_quiet = ground arith

  intervals_quiet :
      (check_click_timing b ≡ none)
      ↔ ((b.mouse.click_intervals_ms ≡ []) ⊎ Outside b.mouse.click_intervals_ms)
  unfolding check_click_timing
  intervals_quiet = intervals_none b.mouse.click_intervals_ms

  visibility_quiet :
      pos_part b.visibility.visible_ms < 2 ^ 60
      → neg_part b.visibility.visible_ms < 2 ^ 60
      → let visible = b.visibility.visible_ms in
        (check_visibility b ≡ none) ↔ (
          (b.visibility.hidden_ms ≡ pos 0)
          ⊎ (b.visibility.hidden_ms ≤ℤ visible +ℤ visible +ℤ visible +ℤ visible +ℤ visible))
  unfolding check_visibility
  visibility_quiet h k = ground (arith, five_times-small b.visibility.visible_ms h k)

module _ {F : Type 0} (is_smooth : F → Bool) (float_value : F → DetailValue) where
  jitter_quiet :
      (b : BehaviorBeacon F)
      → (check_mouse_jitter is_smooth float_value b ≡ none)
        ↔ ((is_smooth b.mouse.jitter_index ≡ false) ⊎ (b.mouse.move_count ≤ℤ pos 10))
  unfolding check_mouse_jitter
  jitter_quiet b = ground arith

  all_quiet :
      (b : BehaviorBeacon F)
      → (score is_smooth float_value b ≡ []) ↔ (
          (check_resource_block b ≡ none)
          × (check_mouse_jitter is_smooth float_value b ≡ none)
          × (check_click_timing b ≡ none)
          × (check_visibility b ≡ none))
  unfolding score
  all_quiet b =
      let (to_a, from_a) =
        run_checkers-none check_resource_block
          (check_mouse_jitter is_smooth float_value ∷ check_click_timing ∷ check_visibility ∷ [])
          b in
      let (to_c, from_c) =
        run_checkers-none (check_mouse_jitter is_smooth float_value)
          (check_click_timing ∷ check_visibility ∷ []) b in
      let (to_d, from_d) = run_checkers-none check_click_timing (check_visibility ∷ []) b in
      let (to_f, from_f) = run_checkers-none check_visibility [] b in
      (
        λ h.
            let (a, more) = to_a h in
            let (c, rest) = to_c more in let (d, last) = to_d rest in (a, c, d, (to_f last).0),
        λ q.
            let (a, c, d, f) = q in
            from_a (a, from_c (c, from_d (d, from_f (f, run_no_checkers b)))),
      )

  -- A beacon raises nothing exactly if the page has fetched style sheets, fonts or images, the
  -- mouse was not smooth or moved at most ten times, there are no click intervals or one of them
  -- is outside 100 to 200 milliseconds, and the page was not hidden, or at most five times as long
  -- as it was visible; the visible time being below 2^60 milliseconds.
  pub score-quiet_iff :
      (b : BehaviorBeacon F)
      → pos_part b.visibility.visible_ms < 2 ^ 60
      → neg_part b.visibility.visible_ms < 2 ^ 60
      → (score is_smooth float_value b ≡ []) ↔ (
          ((b.resource_fetches.css ≢ pos 0)
            ⊎ ((b.resource_fetches.font ≢ pos 0) ⊎ (b.resource_fetches.image ≢ pos 0)))
          × ((is_smooth b.mouse.jitter_index ≡ false) ⊎ (b.mouse.move_count ≤ℤ pos 10))
          × ((b.mouse.click_intervals_ms ≡ []) ⊎ Outside b.mouse.click_intervals_ms)
          × ((b.visibility.hidden_ms ≡ pos 0)
              ⊎ (b.visibility.hidden_ms
                  ≤ℤ b.visibility.visible_ms +ℤ b.visibility.visible_ms +ℤ b.visibility.visible_ms
                    +ℤ b.visibility.visible_ms +ℤ b.visibility.visible_ms)))
  score-quiet_iff b h k =
      let (to, from) = all_quiet b in
      let (to_fetched, fetched) = resource_quiet b in
      let (to_rough, rough) = jitter_quiet b in
      let (to_spaced, spaced) = intervals_quiet b in
      let (to_seen, seen) = visibility_quiet b h k in
      (
        λ e. let (a, c, d, f) = to e in (to_fetched a, to_rough c, to_spaced d, to_seen f),
        λ q. let (a, c, d, f) = q in from (fetched a, rough c, spaced d, seen f),
      )
