-- ===== src/Fetch/Calls.antt =====
-- `plan_calls` (api/src/tabayyun/connectors/plan.py): the calls ask for what the gaps lack, within the
-- limits.
use tabayyun.Prelude.{
  ℕ, zero, suc, ◌≡◌, refl, ap, ◌∙◌, ◌≤◌, ◌<◌, Bool, ◌&&◌, ◌||◌, List, [], ◌∷◌, arith, any, take,
  drop, length, sort_by, Bool-cases, inl, inr, any-append, take-append-drop, length-drop,
  any-sort_by, length-sort_by,
}
use tabayyun.Fetch.Coverage.{Range, holds, range_before}
use tabayyun.Fetch.Plan.{
  Limits, PointRef, Call, BySpan, same_point, same_range, spans, append_point, add_spans,
  add_ranges, add_gaps, chunk_calls, calls_of, plan_calls,
}
use tabayyun.Fetch.Spans.{spans-holds}

module _ (point : PointRef) (t : ℕ) where
  -- A call asks for the point at the instant.
  abbrev pub asks : Call → Bool
  asks call = holds t (call.start_ns, call.end_ns) && any (same_point point) call.points

  -- The point lacks the instant.
  abbrev pub lacks : PointRef × List Range → Bool
  lacks (p, ranges) = same_point point p && any (holds t) ranges

  abbrev planned : Range × List PointRef → Bool
  planned (span, points) = holds t span && any (same_point point) points

  any-append_point :
      (span : Range) (p : PointRef) (d : BySpan)
      → any planned (append_point span p d) ≡ (any planned d || holds t span && same_point point p)
  unfolding any append_point
  any-append_point span p [] = ground arith
  any-append_point (a, b) p (((c, d), ps) ∷ rest) = elim (Bool-cases (same_range (c, d) (a, b))) [
    | inl e ↦ rw e (ground (arith, any-append (same_point point) ps (p ∷ [])))
    | inr e ↦ rw e (ground (arith, any-append_point (a, b) p rest))
  ]

  any-add_spans :
      (p : PointRef) (ss : List Range) (d : BySpan)
      → any planned (add_spans p ss d) ≡ (any planned d || any (holds t) ss && same_point point p)
  unfolding any add_spans
  any-add_spans p [] d = ground arith
  any-add_spans p (s ∷ ss) d =
      ground (arith, any-add_spans p ss (append_point s p d), any-append_point s p d)

  module _ (limits : Limits) (positive : 0 < limits.max_span_ns) where
    any-add_ranges :
        (p : PointRef) (rs : List Range) (d : BySpan)
        → any planned (add_ranges limits p rs d)
          ≡ (any planned d || any (holds t) rs && same_point point p)
    unfolding any add_ranges
    any-add_ranges p [] d = ground arith
    any-add_ranges p ((lo, hi) ∷ rs) d =
        let ss = spans lo hi limits.max_span_ns in
        ground (
          arith,
          any-add_ranges p rs (add_spans p ss d),
          any-add_spans p ss d,
          spans-holds hi limits.max_span_ns positive t lo,
        )

    any-add_gaps :
        (gaps : List (PointRef × List Range)) (d : BySpan)
        → any planned (add_gaps limits gaps d) ≡ (any planned d || any lacks gaps)
    unfolding any add_gaps
    any-add_gaps [] d = ground arith
    any-add_gaps ((p, rs) ∷ gaps) d =
        ground (arith, any-add_gaps gaps (add_ranges limits p rs d), any-add_ranges p rs d)

  any-chunk_calls :
      (fuel max_points : ℕ) (span : Range) (ps : List PointRef)
      → 0 < max_points
      → length ps ≤ fuel
      → any asks (chunk_calls fuel max_points span ps) ≡ planned (span, ps)
  unfolding any chunk_calls
  any-chunk_calls zero max_points span [] h k = ground arith
  any-chunk_calls zero max_points span (p ∷ ps) h k = absurd (omega (arith, k))
  any-chunk_calls (suc fuel) max_points span [] h k = ground arith
  any-chunk_calls (suc fuel) max_points span (p ∷ ps) h k =
      let now = take max_points (p ∷ ps) in
      let later = drop max_points (p ∷ ps) in
      let whole = ap (any (same_point point)) (take-append-drop max_points (p ∷ ps)) in
      ground (
        arith,
        any-chunk_calls fuel max_points span later h,
        length-drop max_points (p ∷ ps),
        any-append (same_point point) now later,
        whole,
      )

  module _ (by_id : PointRef → PointRef → Bool) (limits : Limits)
      (some_points : 0 < limits.max_points) where
    any-calls_of : (d : BySpan) → any asks (calls_of by_id limits d) ≡ any planned d
    unfolding any calls_of
    any-calls_of [] = refl
    any-calls_of ((span, ps) ∷ d) = ground (
      arith,
      any-append asks (chunk_calls (length ps) limits.max_points span (sort_by by_id ps))
          (calls_of by_id limits d),
      any-calls_of d,
      any-chunk_calls (length ps) limits.max_points span (sort_by by_id ps) some_points,
      length-sort_by by_id ps,
      any-sort_by by_id (same_point point) ps,
    )

    -- With positive limits, the calls ask for a point at an instant exactly where a gap of the point
    -- holds that instant.
    pub plan_calls-lacks :
        0 < limits.max_span_ns
        → (gaps : List (PointRef × List Range))
        → any asks (plan_calls by_id gaps limits) ≡ any lacks gaps
    unfolding plan_calls any
    plan_calls-lacks positive gaps =
        let d = add_gaps limits gaps [] in
        any-calls_of (sort_by (λ a b. range_before a.0 b.0) d)
        ∙ any-sort_by (λ a b. range_before a.0 b.0) planned d
        ∙ any-add_gaps limits positive gaps []
