-- ===== src/Tests/Fetching.antt =====
-- Ranges, gaps and calls, at examples.
use tabayyun.Prelude.{
  ℕ, ◌≡◌, refl, Bool, true, false, ◌&&◌, not, List, [], ◌∷◌, arith, select, any, All, sort_by,
  insert_by,
}
use tabayyun.Fetch.Instants.{ns_to_datetime, ns_to_datetime_ceil, datetime_to_ns}
use tabayyun.Fetch.Coverage.{
  Range, Coverage, holds, gap_to, fill, missing_ranges, record_range, covered_ranges,
}
use tabayyun.Fetch.Gaps.{missing_ranges-holds}
use tabayyun.Fetch.Cached.{record_range-missing, record_range-fetched}
use tabayyun.Fetch.Plan.{Limits, PointRef, spans, plan_calls}
use tabayyun.Fetch.Spans.{Tiles, spans-Tiles}
use tabayyun.Fetch.Calls.{asks, lacks, plan_calls-lacks}
use tabayyun.Fetch.Bounds.{IsWithin, plan_calls-IsWithin}

abbrev covered : List Range
covered = (30, 40) ∷ (10, 20) ∷ (35, 50) ∷ []

-- Two gaps between the ranges, and one behind them.
gaps_of_covered : missing_ranges covered 0 60 ≡ (0, 10) ∷ (20, 30) ∷ (50, 60) ∷ []
unfolding missing_ranges fill gap_to select sort_by insert_by
gaps_of_covered = refl

missing_ranges-holds_example :
    any (holds 25) (missing_ranges covered 0 60)
    ≡ (holds 25 (0, 60) && not (any (holds 25) covered))
missing_ranges-holds_example = missing_ranges-holds covered 0 60 25

abbrev recorded : List Coverage
recorded = record_range 1 7 1000 2000 3 9 "raw" []

record_range-missing_example :
    (holds 2500 (1000, 2000) ≡ false)
    × (any (holds 2500) (missing_ranges (covered_ranges 7 "raw" []) 0 3000) ≡ true)
unfolding record_range covered_ranges missing_ranges fill gap_to select sort_by insert_by any
    datetime_to_ns ns_to_datetime ns_to_datetime_ceil
record_range-missing_example = record_range-missing 1 7 1000 2000 3 9 "raw" [] 0 3000 2500 refl

record_range-fetched_example : missing_ranges (covered_ranges 7 "raw" recorded) 1000 2000 ≡ []
record_range-fetched_example = record_range-fetched 1 7 1000 2000 3 9 "raw" []

spans-Tiles_example : Tiles 0 25 10 (spans 0 25 10)
spans-Tiles_example = spans-Tiles 25 10 (ground arith) 0

abbrev limits : Limits
limits = record { max_points = 1; max_span_ns = 10 }

abbrev point : ℕ → PointRef
point series_id = record { series_id = series_id; external_id = "tag" }

abbrev gaps : List (PointRef × List Range)
gaps = (point 1, (0, 25) ∷ []) ∷ (point 2, (0, 10) ∷ []) ∷ []

by_id : PointRef → PointRef → Bool
by_id p q = true

plan_calls-lacks_example :
    any (asks (point 2) 5) (plan_calls by_id gaps limits) ≡ any (lacks (point 2) 5) gaps
plan_calls-lacks_example =
    plan_calls-lacks (point 2) 5 by_id limits (ground arith) (ground arith) gaps

plan_calls-IsWithin_example : All (IsWithin limits) (plan_calls by_id gaps limits)
plan_calls-IsWithin_example = plan_calls-IsWithin limits (ground arith) (ground arith) by_id gaps
