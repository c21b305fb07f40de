-- ===== src/Rates/Windows.antt =====
-- The rules and windows of api/src/tabayyun/services/rate_limits.py. Instants count microseconds from
-- 0001-01-01T00:00:00Z, which is whole hours from the epoch that windows align to; the code's floats
-- are exact for windows of a minute and an hour.
use Prim.Native.Nat.{◌+◌, ◌-◌, ◌*◌, ◌/◌}
use native.Mathlib.Nat.{div-mul-le_self, lt-div-mul-add, le-div_iff_mul-le, div-lt_iff_lt-mul}
use tabayyun.Prelude.{ℕ, suc, ◌≡◌, ◌∙◌, ap, ◌≤◌, ◌<◌, String, List, [], ◌∷◌, max, arith}

abbrev pub second : ℕ
second = 1000000

abbrev pub minute : ℕ
minute = 60000000

abbrev pub hour : ℕ
hour = 3600000000

abbrev pub keep_for : ℕ
keep_for = 86400000000

pub record Rule : Type 0 where
  pub bucket : String
  pub limit : ℕ
  pub window : ℕ

abbrev pub rules : List Rule
rules =
    record { bucket = "auth.login"; limit = 20; window = minute }
    ∷ record { bucket = "auth.callback"; limit = 20; window = minute }
    ∷ record { bucket = "auth.backchannel"; limit = 60; window = minute }
    ∷ record { bucket = "auth.sessions"; limit = 30; window = minute }
    ∷ record { bucket = "admin.write"; limit = 60; window = minute }
    ∷ record { bucket = "admin.invite"; limit = 50; window = hour }
    ∷ record { bucket = "source.write"; limit = 60; window = minute }
    ∷ record { bucket = "source.fetch"; limit = 30; window = minute }
    ∷ []

unfoldable pub window_start : ℕ → ℕ → ℕ
window_start now window = now / window * window

-- `math.ceil((end - now).total_seconds())`, at least 1.
unfoldable pub seconds_left : ℕ → ℕ → ℕ
unfolding window_start
seconds_left now window =
    let end = window_start now window + window in max 1 ((end - now + (second - 1)) / second)

module _ (now window : ℕ) (positive : 0 < window) where
  -- A window holds the instant that it is of.
  pub window_start-holds :
      (window_start now window ≤ now) × (now < window_start now window + window)
  unfolding window_start
  window_start-holds = (div-mul-le_self now window, lt-div-mul-add positive)

div_unique : (k t window : ℕ) → k * window ≤ t → t < k * window + window → t / window ≡ k
div_unique k t window lo hi =
    let positive : 0 < window = omega (arith, lo, hi) in
    let below : t / window < suc k = (div-lt_iff_lt-mul positive).1 (omega (arith, hi)) in
    omega (arith, (le-div_iff_mul-le positive).1 lo, below)

-- An instant within a window is of that window.
window_start_unique :
    (k t window : ℕ) → k * window ≤ t → t < k * window + window → window_start t window ≡ k * window
unfolding window_start
window_start_unique k t window lo hi = ap (λ q. q * window) (div_unique k t window lo hi)

-- Whoever waits as long as `Retry-After` says is in the next window then, and not a second later than
-- it begins; the wait is a second at least and no longer than the window.
pub seconds_left-next :
    (now seconds : ℕ)
    → 0 < seconds
    → let window = seconds * second in
      let left = seconds_left now window in
      (window_start (now + left * second) window ≡ window_start now window + window)
      × (now + left * second < window_start now window + window + second)
      × (1 ≤ left)
      × (left ≤ seconds)
unfolding seconds_left window_start
seconds_left-next now seconds positive =
    let window = seconds * second in
    let start = window_start now window in
    let holds = window_start-holds now window (omega (arith, positive)) in
    let left = seconds_left now window in
    let reach : start + window ≤ now + left * second = omega (arith, holds) in
    let soon : now + left * second < start + window + second = omega (arith, holds) in
    let next : suc (now / window) * window ≡ start + window = omega arith in
    (
      window_start_unique (suc (now / window)) (now + left * second) window (omega (arith, reach))
            (omega (arith, soon, positive))
          ∙ next,
      soon,
      omega arith,
      omega (arith, holds, positive),
    )
