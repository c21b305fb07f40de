-- ===== src/Fetch/Plan.antt =====
-- api/src/tabayyun/connectors/plan.py, and `Limits` of connectors/base.py.
use Prim.Native.Nat.{◌+◌, ◌-◌, ◌*◌}
use tabayyun.Prelude.{
  ℕ, zero, suc, Bool, ◌&&◌, String, List, [], ◌∷◌, ◌++◌, ◌==◌, str_eq, if◌then◌else◌, ltb, min,
  take, drop, length, sort_by,
}
use tabayyun.Fetch.Coverage.{Range, range_before}

-- `Limits`, less the rate of calls, a float that `Pacer` reads.
pub record Limits : Type 0 where
  pub max_points : ℕ
  pub max_span_ns : ℕ

abbrev pub second_ns : ℕ
second_ns = 1000000000

-- `Limits.of`, of a config's `max_points` and `max_span_s`.
unfoldable pub limits_of : ℕ → ℕ → Limits
limits_of max_points max_span_s = record {
  max_points = max_points;
  max_span_ns = max_span_s * second_ns;
}

-- `Limits.within`
unfoldable pub limits_within : Limits → Limits → Limits
limits_within self other = record {
  max_points = min self.max_points other.max_points;
  max_span_ns = min self.max_span_ns other.max_span_ns;
}

pub record PointRef : Type 0 where
  pub series_id : ℕ
  pub external_id : String

abbrev pub same_point : PointRef → PointRef → Bool
same_point p q = p.series_id == q.series_id && str_eq p.external_id q.external_id

abbrev pub same_range : Range → Range → Bool
same_range (a, b) (c, d) = a == c && b == d

-- `Call`
pub record Call : Type 0 where
  pub start_ns : ℕ
  pub end_ns : ℕ
  pub points : List PointRef

-- The loop of `spans`, of at most so many turns.
unfoldable pub cut : ℕ → ℕ → ℕ → ℕ → List Range
cut zero lo end_ns max_span_ns = []
cut (suc fuel) lo end_ns max_span_ns =
    let hi = min end_ns (lo + max_span_ns) in
    let rest = cut fuel hi end_ns max_span_ns in if ltb lo end_ns then (lo, hi) ∷ rest else []

-- A turn moves `lo` on by one at least.
unfoldable pub spans : ℕ → ℕ → ℕ → List Range
unfolding cut
spans start_ns end_ns max_span_ns = cut (end_ns - start_ns) start_ns end_ns max_span_ns

abbrev pub BySpan : Type 0
BySpan = List (Range × List PointRef)

-- `by_span[span].append(point)`, on a dict in the order of its insertions.
unfoldable pub append_point : Range → PointRef → BySpan → BySpan
append_point span point [] = (span, point ∷ []) ∷ []
append_point span point ((s, ps) ∷ rest) =
    let later = append_point span point rest in
    if same_range s span then (s, ps ++ point ∷ []) ∷ rest else (s, ps) ∷ later

unfoldable pub add_spans : PointRef → List Range → BySpan → BySpan
add_spans point [] by_span = by_span
add_spans point (s ∷ ss) by_span = add_spans point ss (append_point s point by_span)

unfoldable pub add_ranges : Limits → PointRef → List Range → BySpan → BySpan
unfolding spans add_spans append_point
add_ranges limits point [] by_span = by_span
add_ranges limits point ((lo, hi) ∷ ranges) by_span =
    add_ranges limits point ranges (add_spans point (spans lo hi limits.max_span_ns) by_span)

unfoldable pub add_gaps : Limits → List (PointRef × List Range) → BySpan → BySpan
unfolding add_ranges
add_gaps limits [] by_span = by_span
add_gaps limits ((point, ranges) ∷ gaps) by_span =
    add_gaps limits gaps (add_ranges limits point ranges by_span)

-- The slices of `max_points` of a list, of at most so many turns.
unfoldable pub chunk_calls : ℕ → ℕ → Range → List PointRef → List Call
chunk_calls zero max_points span points = []
chunk_calls (suc fuel) max_points span [] = []
chunk_calls (suc fuel) max_points span (p ∷ ps) =
    record { start_ns = span.0; end_ns = span.1; points = take max_points (p ∷ ps) }
    ∷ chunk_calls fuel max_points span (drop max_points (p ∷ ps))

module _ (by_id : PointRef → PointRef → Bool) where
  unfoldable pub calls_of : Limits → BySpan → List Call
  unfolding chunk_calls
  calls_of limits [] = []
  calls_of limits ((span, points) ∷ rest) =
      chunk_calls (length points) limits.max_points span (sort_by by_id points)
      ++ calls_of limits rest

  -- `by_id` is the order on (`external_id`, `str(series_id)`).
  unfoldable pub plan_calls : List (PointRef × List Range) → Limits → List Call
  unfolding add_gaps calls_of
  plan_calls gaps limits =
      calls_of limits (sort_by (λ a b. range_before a.0 b.0) (add_gaps limits gaps []))

-- `settled_end`: the end, but never past `now - settle`.
unfoldable pub settled_end : ℕ → ℕ → ℕ → ℕ
settled_end end_ns now_ns settle_ns = min end_ns (now_ns - settle_ns)
