-- ===== src/Fetch/Spans.antt =====
-- `spans` (api/src/tabayyun/connectors/plan.py) against its description.
use Prim.Native.Nat.{◌+◌, ◌-◌}
use tabayyun.Prelude.{
  ℕ, zero, suc, ◌≡◌, refl, ◌≤◌, ◌<◌, List, [], ◌∷◌, ltb, min, arith, any, Bool-cases, inl, inr,
}
use tabayyun.Fetch.Coverage.{Range, holds}
use tabayyun.Fetch.Plan.{cut, spans}

-- Spans of at most `max_span_ns`, none of them empty, each from where the one before it ends, from
-- `lo` to `end_ns`.
abbrev pub Tiles : ℕ → ℕ → ℕ → List Range → Type 0
Tiles lo end_ns max_span_ns [] = end_ns ≤ lo
Tiles lo end_ns max_span_ns ((a, b) ∷ rest) =
    (a ≡ lo) × (a < b) × (b ≤ end_ns) × (b ≤ a + max_span_ns) × Tiles b end_ns max_span_ns rest

module _ (end_ns max_span_ns : ℕ) (positive : 0 < max_span_ns) where
  cut-Tiles :
      (fuel lo : ℕ)
      → end_ns ≤ lo + fuel
      → Tiles lo end_ns max_span_ns (cut fuel lo end_ns max_span_ns)
  unfolding cut
  cut-Tiles zero lo h = omega (arith, h)
  cut-Tiles (suc fuel) lo h = elim (Bool-cases (ltb lo end_ns)) [
    | inl e ↦ rw e (
      refl,
      ground arith,
      omega arith,
      omega arith,
      cut-Tiles fuel (min end_ns (lo + max_span_ns)) (ground arith),
    )
    | inr e ↦ rw e (ground arith)
  ]

  Tiles-holds :
      (t lo : ℕ) (rs : List Range)
      → Tiles lo end_ns max_span_ns rs
      → any (holds t) rs ≡ holds t (lo, end_ns)
  unfolding any
  Tiles-holds t lo [] h = ground arith
  Tiles-holds t lo ((a, b) ∷ rs) h = ground (arith, Tiles-holds t b rs h.4)

  -- With a positive limit, the spans of a range follow one another without a gap from its start to its
  -- end, each as long as the limit at most.
  pub spans-Tiles :
      (start_ns : ℕ) → Tiles start_ns end_ns max_span_ns (spans start_ns end_ns max_span_ns)
  unfolding spans
  spans-Tiles start_ns = cut-Tiles (end_ns - start_ns) start_ns (omega arith)

  pub spans-holds :
      (t start_ns : ℕ)
      → any (holds t) (spans start_ns end_ns max_span_ns) ≡ holds t (start_ns, end_ns)
  spans-holds t start_ns =
      Tiles-holds t start_ns (spans start_ns end_ns max_span_ns) (spans-Tiles start_ns)
