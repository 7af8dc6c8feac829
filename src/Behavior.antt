-- ===== src/Behavior.antt =====
-- internal/signal/behavior with internal/types/beacon.go. `F` stands for float64; `is_smooth` is
-- the comparison of a jitter index with 0.05 and `float_value` a float64 in a signal's detail.
pub mod Ingest
pub mod Quiet
use anti_scrapling.Go.{
  Bool, true, false, not, ◌&&◌, ◌||◌, if◌then◌else◌, Option, none, some, List, [], ◌∷◌, ◌++◌, map,
  Bytes, codes, text_eq, ℤ, pos, ltb_ℤ, ◌+ℤ◌, wrap64, ℕ, Result, ok, err,
}
use anti_scrapling.Types.{Signal, DetailValue}
use anti_scrapling.Fingerprint.Navigator.{eq_ℤ}
use anti_scrapling.Fingerprint.Probes.{sub64}

pub record MouseMetrics (F : Type 0) : Type 0 where
  pub move_count : ℤ
  pub path_length : F
  pub avg_velocity : F
  pub jitter_index : F
  pub clicks : ℤ
  pub click_intervals_ms : List ℤ

pub record ScrollMetrics : Type 0 where
  pub events : ℤ
  pub max_y : ℤ

pub record VisibilityMetrics : Type 0 where
  pub hidden_ms : ℤ
  pub visible_ms : ℤ

pub record ResourceMetrics : Type 0 where
  pub css : ℤ
  pub image : ℤ
  pub font : ℤ
  pub script : ℤ
  pub xhr : ℤ

pub record BehaviorBeacon (F : Type 0) : Type 0 where
  pub session_id : Bytes
  pub timestamp : ℤ
  pub mouse : MouseMetrics F
  pub scroll : ScrollMetrics
  pub visibility : VisibilityMetrics
  pub resource_fetches : ResourceMetrics

-- The UTF-8 encoding of a dash in the reasons.
abbrev em_dash : Bytes
em_dash = 0xe2 ∷ 0x80 ∷ 0x94 ∷ []

-- click_timing.go
unfoldable pub all_in_band : List ℤ → Bool
all_in_band [] = true
all_in_band (iv ∷ ivs) =
    let rest = all_in_band ivs in if ltb_ℤ iv (pos 100) || ltb_ℤ (pos 200) iv then false else rest

unfoldable pub check_intervals : List ℤ → Option Signal
unfolding all_in_band
check_intervals [] = none
check_intervals (iv ∷ ivs) =
    if all_in_band (iv ∷ ivs)
    then some (record {
      name = codes "behavior_turnstile_clicker";
      score = pos 60;
      reason =
          codes "all click intervals within Scrapling randint(100,200) band "
          ++ (em_dash ++ codes " Turnstile auto-solver (L5.3)");
      detail = (codes "intervals", DetailValue.ints (iv ∷ ivs)) ∷ [];
    })
    else none

-- `n * 5` on `int`.
unfoldable pub five_times : ℤ → ℤ
unfolding wrap64 ◌+ℤ◌
five_times n = wrap64 (n +ℤ n +ℤ n +ℤ n +ℤ n)

module _ {F : Type 0} where
  unfoldable pub check_click_timing : BehaviorBeacon F → Option Signal
  check_click_timing b = check_intervals b.mouse.click_intervals_ms

  -- resource_block.go
  unfoldable pub check_resource_block : BehaviorBeacon F → Option Signal
  check_resource_block b =
      let rf = b.resource_fetches in
      if eq_ℤ rf.css (pos 0) && (eq_ℤ rf.font (pos 0) && eq_ℤ rf.image (pos 0))
      then some (record {
        name = codes "behavior_resource_block";
        score = pos 40;
        reason =
            codes "zero CSS/font/image fetches "
            ++ (em_dash ++ codes " Scrapling resource-type blocking (L5.1)");
        detail = [];
      })
      else none

  -- visibility.go
  unfoldable pub check_visibility : BehaviorBeacon F → Option Signal
  unfolding five_times
  check_visibility b =
      let hidden = b.visibility.hidden_ms in
      let visible = b.visibility.visible_ms in
      if eq_ℤ hidden (pos 0)
      then none
      else if ltb_ℤ (five_times visible) hidden
      then some (record {
        name = codes "behavior_hidden_dominant";
        score = pos 20;
        reason =
            codes "hidden time dominates visible time "
            ++ (em_dash ++ codes " headless or non-interactive session");
        detail =
            (codes "hidden_ms", DetailValue.int hidden)
            ∷ (codes "visible_ms", DetailValue.int visible)
            ∷ [];
      })
      else none

-- The signals of the checkers that raise one.
unfoldable pub run_checkers :
    {F : Type 0} → List (BehaviorBeacon F → Option Signal) → BehaviorBeacon F → List Signal
run_checkers [] b = []
run_checkers (check ∷ checkers) b =
    let rest = run_checkers checkers b in elim (check b) [ none ↦ rest | some s ↦ s ∷ rest ]

module _ {F : Type 0} (is_smooth : F → Bool) (float_value : F → DetailValue) where
  -- mouse_jitter.go
  unfoldable pub check_mouse_jitter : BehaviorBeacon F → Option Signal
  check_mouse_jitter b =
      if is_smooth b.mouse.jitter_index && ltb_ℤ (pos 10) b.mouse.move_count
      then some (record {
        name = codes "behavior_smooth_path";
        score = pos 30;
        reason =
            codes "mouse jitter index below human floor with significant move count "
            ++ (em_dash ++ codes " synthetic Bezier path");
        detail =
            (codes "jitter_index", float_value b.mouse.jitter_index)
            ∷ (codes "move_count", DetailValue.int b.mouse.move_count)
            ∷ [];
      })
      else none

  -- collector.go
  unfoldable pub score : BehaviorBeacon F → List Signal
  unfolding run_checkers
  score b =
      run_checkers
        (check_resource_block ∷ check_mouse_jitter ∷ check_click_timing ∷ check_visibility ∷ []) b
