-- ===== src/Tests/Counting.antt =====
-- Rate limits, at examples.
use Prim.Native.Nat.{◌-◌}
use tabayyun.Prelude.{ℕ, ◌≡◌, String, List, [], ◌∷◌, min, count}
use tabayyun.Rates.Windows.{Rule, minute}
use tabayyun.Rates.Counter.{RateLimit, is_window, hits_of}
use tabayyun.Rates.Budget.{is_of, granted, granted-budget}

abbrev rule : Rule
rule = record { bucket = "auth.login"; limit = 2; window = minute }

abbrev requests : List (String × ℕ)
requests = ("a", 5) ∷ ("b", 6) ∷ ("a", 7) ∷ ("a", 8) ∷ []

abbrev table : List RateLimit
table = record { bucket = "auth.login"; key = "a"; window_start = 0; hits = 1 } ∷ []

granted-budget_example :
    granted rule "a" 0 requests table
    ≡ min (count (is_of rule "a" 0) requests) (2 - hits_of (is_window "auth.login" "a" 0) table)
granted-budget_example = granted-budget rule "a" 0 requests table
