-- ===== src/Rates/Counter.antt =====
-- The counter of api/src/tabayyun/services/rate_limits.py. Each request is one statement, in a
-- transaction of its own, so requests count one after the other.
use Prim.Native.Nat.{◌+◌}
use tabayyun.Prelude.{
  ℕ, Bool, true, ◌&&◌, String, List, [], ◌∷◌, ◌++◌, ◌==◌, str_eq, if◌then◌else◌, ltb, leb, any,
  update, delete, count,
}
use tabayyun.Rates.Windows.{Rule, window_start, seconds_left, keep_for}

pub record RateLimit : Type 0 where
  pub bucket : String
  pub key : String
  pub window_start : ℕ
  pub hits : ℕ

pub record Decision : Type 0 where
  pub allowed : Bool
  pub hits : ℕ
  pub retry_after : ℕ

abbrev pub is_window : String → String → ℕ → RateLimit → Bool
is_window bucket key start r = str_eq r.bucket bucket && str_eq r.key key && r.window_start == start

-- The `hits` of a window, by its primary key.
unfoldable pub hits_of : (RateLimit → Bool) → List RateLimit → ℕ
hits_of here [] = 0
hits_of here (r ∷ rs) = let others = hits_of here rs in if here r then r.hits else others

-- `HIT_SQL`: INSERT .. ON CONFLICT DO UPDATE SET hits = hits + 1.
unfoldable pub add_hit : String → String → ℕ → List RateLimit → List RateLimit
add_hit bucket key start table =
    let here = is_window bucket key start in
    if any here table
    then update here (λ r. record r { hits = r.hits + 1 }) table
    else table ++ record { bucket = bucket; key = key; window_start = start; hits = 1 } ∷ []

abbrev pub unavailable : Decision
unavailable = record { allowed = true; hits = 0; retry_after = 0 }

-- `works` is whether the database answers.
unfoldable pub hit : (works : Bool) → Rule → String → ℕ → List RateLimit → Decision × List RateLimit
unfolding add_hit hits_of
hit works rule key now table =
    let start = window_start now rule.window in
    let after = add_hit rule.bucket key start table in
    let hits = hits_of (is_window rule.bucket key start) after in
    let allowed = leb hits rule.limit in
    if works
    then (
      record {
        allowed = allowed;
        hits = hits;
        retry_after = if allowed then 0 else seconds_left now rule.window;
      },
      after,
    )
    else (unavailable, table)

-- `prune`: how many windows went, and those left.
unfoldable pub prune : ℕ → List RateLimit → ℕ × List RateLimit
prune now table =
    let old : RateLimit → Bool = λ r. ltb (r.window_start + keep_for) now in
    (count old table, delete old table)
