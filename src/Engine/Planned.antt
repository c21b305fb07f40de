-- ===== src/Engine/Planned.antt =====
-- The calls that a claimed fetch plans (api/src/tabayyun/services/fetches.py).
use Prim.Native.Nat.{◌*◌}
use tabayyun.Prelude.{
  ℕ, ◌≡◌, refl, ap, ◌∙◌, ◌<◌, Bool, true, false, ◌&&◌, not, Option, some, String, List, [], ◌∷◌,
  ◌==◌, ==_refl, str_eq_iff, any, any-false_of_imp, any-sort_by, any_at_first, first, first_holds,
  select, sort_by, arith, Outcome, ok, Bool-cases, Option-cases, Outcome-cases, inl, inr,
}
use tabayyun.Fetch.Instants.{datetime_to_ns}
use tabayyun.Fetch.Coverage.{Range, holds, covered_ranges}
use tabayyun.Fetch.Gaps.{missing_ranges-holds}
use tabayyun.Fetch.Cached.{any-covered_ranges}
use tabayyun.Fetch.Plan.{
  PointRef, Call, same_point, limits_within, limits_of, second_ns, plan_calls,
}
use tabayyun.Fetch.Calls.{asks, lacks, plan_calls-lacks}
use tabayyun.Engine.Tables.{Source, Series, SourceFetch, Store, is_data}
use tabayyun.Engine.Prepare.{
  may_start, Connector, Loaded, JobPlan, is_wanted, missing_of, point_of, is_empty_list, gaps_of,
  gaps, calls_for, plan_claimed, credentials_of, prepare,
}
use tabayyun.Engine.Call.{is_asked}
use tabayyun.Engine.Covers.{is_cached}
use tabayyun.Engine.Calls.{asks_for}

-- What the models of the configs ask of every connector: positive limits. Its settle time is known.
pub record Builds (build : Source → Option String → Outcome String Connector) (settle_s : ℕ)
    : Type 0 where
  pub points :
      (s : Source) (c : Option String) (k : Connector) → build s c ≡ ok k → 0 < k.limits.max_points
  pub span :
      (s : Source) (c : Option String) (k : Connector) → build s c ≡ ok k → 0 < k.limits.max_span_ns
  pub config_points :
      (s : Source) (c : Option String) (k : Connector) → build s c ≡ ok k → 0 < k.max_points
  pub config_span :
      (s : Source) (c : Option String) (k : Connector) → build s c ≡ ok k → 0 < k.max_span_s
  pub settle :
      (s : Source) (c : Option String) (k : Connector) → build s c ≡ ok k → k.settle_s ≡ settle_s

any-select :
    {A : Type 0} (p q : A → Bool) (xs : List A)
    → any (λ x. p x && q x) xs ≡ true
    → any q (select p xs) ≡ true
unfolding any select
any-select p q [] h = h
any-select p q (x ∷ xs) h = elim (Bool-cases (p x)) [
  | inl e ↦ rw e (ground (arith, any-select p q xs))
  | inr e ↦ rw e (ground (arith, any-select p q xs))
]

not_empty : (p : Range → Bool) (rs : List Range) → any p rs ≡ true → is_empty_list rs ≡ false
unfolding any
not_empty p [] h = cc
not_empty p (r ∷ rs) h = refl

module _ (t : ℕ) (s : Series) where
  asks_for-asks : (call : Call) → asks (point_of s) t call ≡ true → asks_for t s.id call ≡ true
  asks_for-asks call h = elim (Bool-cases (is_asked s.id call.points)) [
    | inl e ↦ ground (arith, e)
    | inr e ↦
        let none_such =
          any-false_of_imp (same_point (point_of s)) (λ p. p.series_id == s.id)
            (λ p k. ground (arith, k)) call.points e in
        ground (arith, h, none_such)
  ]

  calls_asked :
      (calls : List Call)
      → any (asks (point_of s) t) calls ≡ true
      → any (asks_for t s.id) calls ≡ true
  calls_asked calls h = elim (Bool-cases (any (asks_for t s.id) calls)) [
    | inl e ↦ e
    | inr e ↦
        let none_such =
          any-false_of_imp (asks (point_of s) t) (asks_for t s.id) asks_for-asks calls e in
        absurd (cc)
  ]

  module _ (fetch : SourceFetch) (store : Store) where
    abbrev same_series : Series → Bool
    same_series r = same_point (point_of s) (point_of r)

    -- An instant of the window that is not cached is in a gap.
    gap_of :
        (r : Series)
        → same_series r ≡ true
        → holds t (datetime_to_ns fetch.window_start, datetime_to_ns fetch.window_end) ≡ true
        → is_cached t s.id store.coverage ≡ false
        → any (holds t) (missing_of fetch store r) ≡ true
    unfolding missing_of
    gap_of r same inside fresh =
        let id : r.id ≡ s.id = ground arith in
        missing_ranges-holds (covered_ranges r.id "raw" store.coverage)
          (datetime_to_ns fetch.window_start) (datetime_to_ns fetch.window_end) t
        ∙ rw (id, any-covered_ranges t s.id "raw" store.coverage) (ground (arith, inside, fresh))

    gaps_of-lacks :
        (rs : List Series)
        → any same_series rs ≡ true
        → holds t (datetime_to_ns fetch.window_start, datetime_to_ns fetch.window_end) ≡ true
        → is_cached t s.id store.coverage ≡ false
        → any (lacks (point_of s) t) (gaps_of fetch store rs) ≡ true
    unfolding gaps_of any
    gaps_of-lacks [] h inside fresh = absurd (cc)
    gaps_of-lacks (r ∷ rs) h inside fresh = elim (Bool-cases (same_series r)) [
      | inl e ↦
          let gap = gap_of r e inside fresh in
          let some_gap = not_empty (holds t) (missing_of fetch store r) gap in
          elim (Bool-cases fetch.force) [
            | inl f ↦ rw f (ground (arith, e, inside))
            | inr f ↦ rw (f, some_gap) (ground (arith, e, gap))
          ]
      | inr e ↦
          let rest = gaps_of-lacks rs (ground (arith, h, e)) inside fresh in ground (arith, rest)
    ]

module _ (by_external : Series → Series → Bool) (by_id : PointRef → PointRef → Bool)
    (load : Source → Loaded) (build : Source → Option String → Outcome String Connector) where
  -- What a plan was made from.
  pub record Planned (fetch : SourceFetch) (store : Store) (plan : JobPlan) : Type 0 where
    pub source : Source
    pub credentials : Option String
    pub connector : Connector
    pub built : build source credentials ≡ ok connector
    pub calls : plan.calls ≡ calls_for by_external by_id true fetch connector store
    pub settle : plan.settle_ns ≡ connector.settle_s * second_ns

  plan_claimed-Planned :
      (fetch : SourceFetch) (source : Source) (store : Store) (plan : JobPlan)
      → plan_claimed by_external by_id load build true fetch source store ≡ ok plan
      → Planned fetch store plan
  unfolding plan_claimed
  plan_claimed-Planned fetch source store plan e =
      elim (Bool-cases (not source.enabled && is_data fetch.trigger)) [
        | inl k ↦ absurd (cc (rw k at e))
        | inr k ↦ elim (Outcome-cases (credentials_of by_external by_id load build source)) [
          | inr (x, l) ↦ absurd (cc (rw (k, l) at e))
          | inl (c, l) ↦ elim (Outcome-cases (build source c)) [
            | inr (x, m) ↦ absurd (cc (rw (k, l, m) at e))
            | inl (connector, m) ↦
                let made = rw (k, l, m) at e in
                record {
                  source = source;
                  credentials = c;
                  connector = connector;
                  built = m;
                  calls = ground (arith, made);
                  settle = ground (arith, made);
                }
          ]
        ]
      ]

  pub prepare-Planned :
      (fetch : SourceFetch) (fetch_id now : ℕ) (store after : Store) (plan : JobPlan)
      → first (λ f. f.id == fetch_id) store.fetches ≡ some fetch
      → prepare by_external by_id load build true fetch_id now store ≡ ok (some plan, after)
      → Planned fetch store plan × (after.coverage ≡ store.coverage)
  unfolding prepare
  prepare-Planned fetch fetch_id now store after plan there e =
      elim (Bool-cases (not (may_start fetch.status))) [
        | inl k ↦ absurd (cc (rw (there, k, prepare) at e))
        | inr k ↦ elim (Option-cases (first (λ s. s.id == fetch.source_id) store.sources)) [
          | inl l ↦ absurd (cc (rw (there, k, l, prepare) at e))
          | inr (source, l) ↦
              elim (Outcome-cases
                (plan_claimed by_external by_id load build true fetch source store)) [
                  | inr (x, m) ↦ absurd (cc (rw (there, k, l, m, prepare) at e))
                  | inl (made, m) ↦
                      let done = rw (there, k, l, m, prepare) at e in
                      let same : made ≡ plan = ground (arith, done) in
                      (
                        plan_claimed-Planned fetch source store plan (m ∙ ap ok same),
                        ground (arith, done),
                      )
                ]
        ]
      ]

  -- The calls ask for every instant of the window that is not cached.
  pub Planned-asks :
      (settle_s t : ℕ) (s : Series) (fetch : SourceFetch) (store : Store) (plan : JobPlan)
      → Builds build settle_s
      → Planned fetch store plan
      → first (λ r. is_wanted fetch r && r.id == s.id) store.series ≡ some s
      → holds t (datetime_to_ns fetch.window_start, datetime_to_ns fetch.window_end) ≡ true
      → is_cached t s.id store.coverage ≡ false
      → any (asks_for t s.id) plan.calls ≡ true
  unfolding calls_for gaps limits_within limits_of
  Planned-asks settle_s t s fetch store plan b p there inside fresh =
      let k = p.connector in
      let limits = limits_within k.limits (limits_of k.max_points k.max_span_s) in
      let wanted = select (is_wanted fetch) store.series in
      let q = same_series t s fetch store in
      let mine : any (λ r. is_wanted fetch r && q r) store.series ≡ true =
        any_at_first (λ r. is_wanted fetch r && r.id == s.id) (λ r. is_wanted fetch r && q r)
          store.series s there
          (ground (
            arith,
            first_holds (λ r. is_wanted fetch r && r.id == s.id) store.series s there,
            ==_refl s.id,
            (str_eq_iff s.external_id s.external_id).1 refl,
          )) in
      let listed =
        any-sort_by by_external q wanted ∙ any-select (is_wanted fetch) q store.series mine in
      let lacking =
        gaps_of-lacks t s fetch store (sort_by by_external wanted) listed inside fresh in
      let asked =
        plan_calls-lacks (point_of s) t by_id limits
          (ground (
            arith,
            b.points p.source p.credentials k p.built,
            b.config_points p.source p.credentials k p.built,
          ))
          (ground (
            arith,
            b.span p.source p.credentials k p.built,
            b.config_span p.source p.credentials k p.built,
          ))
          (gaps by_external by_id fetch store) in
      rw p.calls (
        calls_asked t s (plan_calls by_id (gaps by_external by_id fetch store) limits)
          (asked ∙ lacking))
