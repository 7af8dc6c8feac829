-- ===== src/Headers/Referer.antt =====
-- internal/signal/headers/referer.go. `url_host` is the Host of `url.Parse`, `none` its error.
pub mod Sliding
pub mod Last
use anti_scrapling.Go.{
  ℕ, zero, suc, ◌+◌, ◌*◌, Bool, true, false, not, if◌then◌else◌, Option, none, some, List, [], ◌∷◌,
  ◌++◌, Bytes, codes, text_eq, contains, to_lower, last_colon, ltb, leb, take, Assoc, lookup, store,
}

-- The threshold is in hundredths.
pub record IpWindow : Type 0 where
  pub buf : List Bool
  pub pos : ℕ
  pub filled : Bool
  pub window_size : ℕ
  pub threshold : ℕ

unfoldable pub blank : ℕ → List Bool
blank zero = []
blank (suc n) = false ∷ blank n

unfoldable pub new_ip_window : ℕ → ℕ → IpWindow
unfolding blank
new_ip_window window_size threshold = record {
  buf = blank window_size;
  pos = 0;
  filled = false;
  window_size = window_size;
  threshold = threshold;
}

-- `buf[i] = x`
unfoldable pub set_at : ℕ → Bool → List Bool → List Bool
set_at i x [] = []
set_at zero x (b ∷ buf) = x ∷ buf
set_at (suc i) x (b ∷ buf) = b ∷ set_at i x buf

unfoldable pub count : List Bool → ℕ
count [] = 0
count (true ∷ bs) = 1 + count bs
count (false ∷ bs) = count bs

-- `observe` up to the count.
unfoldable pub advance : Bool → IpWindow → IpWindow
unfolding set_at
advance x w =
    let buf = set_at w.pos x w.buf in
    let wraps = leb w.window_size (w.pos + 1) in
    record w {
      buf = buf;
      pos = if wraps then 0 else w.pos + 1;
      filled = if wraps then true else w.filled;
    }

-- The answer of `observe`: the quotient of two numbers of at most 100 is above the threshold as
-- float64 exactly if it is as a fraction.
unfoldable pub exceeds : IpWindow → Bool
unfolding count
exceeds w =
    let n = if w.filled then w.window_size else w.pos in
    if ltb n 5 then false else ltb (n * w.threshold) (count (take n w.buf) * 100)

unfoldable pub observe : Bool → IpWindow → Bool × IpWindow
unfolding advance exceeds
observe x w = let w' = advance x w in (exceeds w', w')

pub record RefererTracker : Type 0 where
  pub windows : Assoc IpWindow
  pub window_size : ℕ
  pub threshold : ℕ

unfoldable pub new_referer_tracker : ℕ → ℕ → RefererTracker
new_referer_tracker window_size threshold = record {
  windows = [];
  window_size = window_size;
  threshold = threshold;
}

unfoldable pub window_of : RefererTracker → Bytes → IpWindow
unfolding lookup new_ip_window
window_of t ip = elim (lookup ip t.windows) [
  | none ↦ new_ip_window t.window_size t.threshold
  | some w ↦ w
]

-- `host[:strings.LastIndex(host, ":")]`, or all of it.
abbrev pub before_port : Bytes → Option (Bytes × Bytes) → Bytes
before_port host none = host
before_port host (some (before, after)) = before

module _ (lower : Bytes → Bytes) (url_host : Bytes → Option Bytes) where
  unfoldable pub is_google_referer : Bytes → Bool
  unfolding text_eq to_lower last_colon contains
  is_google_referer referer = if text_eq referer [] then false else elim (url_host referer) [
    | none ↦ false
    | some given ↦
        let host = to_lower lower given in
        let name = before_port host (last_colon host) in
        contains (codes "." ++ (name ++ codes ".")) (codes ".google.")
  ]

  -- `Observe`
  unfoldable pub observe_referer : Bytes → Bytes → RefererTracker → Bool × RefererTracker
  unfolding window_of observe is_google_referer store
  observe_referer ip referer t =
      let (answer, w) = observe (is_google_referer referer) (window_of t ip) in
      (answer, record t { windows = store ip w t.windows })
