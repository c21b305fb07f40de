-- ===== src/Fetch/Bounds.antt =====
-- The bounds of `plan_calls` (api/src/tabayyun/connectors/plan.py): no call asks for more than the
-- limits allow.
use Prim.Native.Nat.{◌+◌}
use tabayyun.Prelude.{
  ℕ, zero, suc, ◌≤◌, ◌<◌, Bool, List, [], ◌∷◌, arith, drop, length, sort_by, Bool-cases, inl, inr,
  All, All-append, length-take, All-sort_by,
}
use tabayyun.Fetch.Coverage.{Range, range_before}
use tabayyun.Fetch.Plan.{
  Limits, PointRef, Call, BySpan, same_range, spans, append_point, add_spans, add_ranges, add_gaps,
  chunk_calls, calls_of, plan_calls,
}
use tabayyun.Fetch.Spans.{Tiles, spans-Tiles}

module _ (limits : Limits) where
  -- A filled span within the limit.
  abbrev pub IsShort : ℕ → ℕ → Type 0
  IsShort lo hi = (lo < hi) × (hi ≤ lo + limits.max_span_ns)

  -- A call within the limits, that asks for something.
  abbrev pub IsWithin : Call → Type 0
  IsWithin call =
      IsShort call.start_ns call.end_ns
      × (0 < length call.points)
      × (length call.points ≤ limits.max_points)

  abbrev AllShort : BySpan → Type 0
  AllShort = All (λ e. IsShort e.0.0 e.0.1)

  Tiles-IsShort :
      (lo end_ns : ℕ) (rs : List Range)
      → Tiles lo end_ns limits.max_span_ns rs
      → All (λ r. IsShort r.0 r.1) rs
  Tiles-IsShort lo end_ns [] h = tt
  Tiles-IsShort lo end_ns ((a, b) ∷ rs) h = ((h.1, h.3), Tiles-IsShort b end_ns rs h.4)

  append_point-AllShort :
      (span : Range) (p : PointRef) (d : BySpan)
      → IsShort span.0 span.1
      → AllShort d
      → AllShort (append_point span p d)
  unfolding append_point
  append_point-AllShort span p [] h k = (h, tt)
  append_point-AllShort span p ((s, ps) ∷ d) h k = elim (Bool-cases (same_range s span)) [
    | inl e ↦ rw e k
    | inr e ↦ rw e (k.0, append_point-AllShort span p d h k.1)
  ]

  add_spans-AllShort :
      (p : PointRef) (ss : List Range) (d : BySpan)
      → All (λ r. IsShort r.0 r.1) ss
      → AllShort d
      → AllShort (add_spans p ss d)
  unfolding add_spans
  add_spans-AllShort p [] d h k = k
  add_spans-AllShort p (s ∷ ss) d h k =
      add_spans-AllShort p ss (append_point s p d) h.1 (append_point-AllShort s p d h.0 k)

  module _ (positive : 0 < limits.max_span_ns) where
    add_ranges-AllShort :
        (p : PointRef) (rs : List Range) (d : BySpan)
        → AllShort d
        → AllShort (add_ranges limits p rs d)
    unfolding add_ranges
    add_ranges-AllShort p [] d k = k
    add_ranges-AllShort p ((lo, hi) ∷ rs) d k =
        let ss = spans lo hi limits.max_span_ns in
        let short = Tiles-IsShort lo hi ss (spans-Tiles hi limits.max_span_ns positive lo) in
        add_ranges-AllShort p rs (add_spans p ss d) (add_spans-AllShort p ss d short k)

    add_gaps-AllShort :
        (gaps : List (PointRef × List Range)) (d : BySpan)
        → AllShort d
        → AllShort (add_gaps limits gaps d)
    unfolding add_gaps
    add_gaps-AllShort [] d k = k
    add_gaps-AllShort ((p, rs) ∷ gaps) d k =
        add_gaps-AllShort gaps (add_ranges limits p rs d) (add_ranges-AllShort p rs d k)

  module _ (some_points : 0 < limits.max_points) where
    chunk_calls-IsWithin :
        (fuel : ℕ) (span : Range) (ps : List PointRef)
        → IsShort span.0 span.1
        → All IsWithin (chunk_calls fuel limits.max_points span ps)
    unfolding chunk_calls
    chunk_calls-IsWithin zero span ps h = tt
    chunk_calls-IsWithin (suc fuel) span [] h = tt
    chunk_calls-IsWithin (suc fuel) span (p ∷ ps) h =
        let n = length-take limits.max_points (p ∷ ps) in
        (
          (h, ground (arith, n), ground (arith, n)),
          chunk_calls-IsWithin fuel span (drop limits.max_points (p ∷ ps)) h,
        )

    calls_of-IsWithin :
        (by_id : PointRef → PointRef → Bool) (d : BySpan)
        → AllShort d
        → All IsWithin (calls_of by_id limits d)
    unfolding calls_of
    calls_of-IsWithin by_id [] h = tt
    calls_of-IsWithin by_id ((span, ps) ∷ d) h =
        All-append IsWithin (chunk_calls (length ps) limits.max_points span (sort_by by_id ps))
          (calls_of by_id limits d) (chunk_calls-IsWithin (length ps) span (sort_by by_id ps) h.0)
          (calls_of-IsWithin by_id d h.1)

    -- With positive limits, each call asks for one point at least and for `max_points` at most, over a
    -- span that is not empty and not longer than `max_span_ns`.
    pub plan_calls-IsWithin :
        0 < limits.max_span_ns
        → (by_id : PointRef → PointRef → Bool) (gaps : List (PointRef × List Range))
        → All IsWithin (plan_calls by_id gaps limits)
    unfolding plan_calls
    plan_calls-IsWithin positive by_id gaps =
        calls_of-IsWithin by_id (sort_by (λ a b. range_before a.0 b.0) (add_gaps limits gaps [])) (
          All-sort_by (λ a b. range_before a.0 b.0) (λ e. IsShort e.0.0 e.0.1)
            (add_gaps limits gaps []) (add_gaps-AllShort positive gaps [] tt))
