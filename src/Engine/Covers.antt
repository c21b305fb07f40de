-- ===== src/Engine/Covers.antt =====
-- What a call records as cached (`_run_call` of api/src/tabayyun/services/fetches.py).
use tabayyun.Prelude.{
  ℕ, ◌≡◌, refl, ◌∙◌, Bool, true, false, ◌&&◌, not, List, [], ◌∷◌, ◌==◌, if◌then◌else◌, any, arith,
  Bool-cases, inl, inr,
}
use tabayyun.Fetch.Coverage.{Coverage, holds, record_range}
use tabayyun.Fetch.Cached.{caches, caches-record_range, caches-record_range_other}
use tabayyun.Fetch.Plan.{PointRef}
use tabayyun.Engine.Call.{is_failed, is_asked, get_or, record_points}

-- The cache holds an instant of a series.
abbrev pub is_cached : (t series_id : ℕ) → List Coverage → Bool
is_cached t series_id table = any (caches t series_id "raw") table

module _ (t series_id org_id start_ns end_ns now : ℕ) (failed : List ℕ)
    (series_rows : List (ℕ × ℕ)) where
  -- One record, of whichever series.
  record_kept :
      (other rows : ℕ) (table : List Coverage)
      → is_cached t series_id table ≡ true
      → is_cached t series_id (record_range org_id other start_ns end_ns rows now "raw" table)
        ≡ true
  record_kept other rows table h = elim (Bool-cases (other == series_id)) [
    | inl e ↦
        let same : other ≡ series_id = ground arith in
        rw same (
          caches-record_range t series_id "raw" org_id start_ns end_ns rows now table
            (ground (arith, h)))
    | inr e ↦
        caches-record_range_other t series_id "raw" org_id start_ns end_ns rows now other table e
        ∙ h
  ]

  pub record_points_kept :
      (ps : List PointRef) (table : List Coverage)
      → is_cached t series_id table ≡ true
      → is_cached t series_id (record_points org_id start_ns end_ns now failed series_rows ps table)
        ≡ true
  unfolding record_points
  record_points_kept [] table h = h
  record_points_kept (p ∷ ps) table h = elim (Bool-cases (is_failed failed p.series_id)) [
    | inl e ↦ rw e (record_points_kept ps table h)
    | inr e ↦
        let rows = get_or p.series_id series_rows in
        rw e (
          record_points_kept ps
            (record_range org_id p.series_id start_ns end_ns rows now "raw" table)
            (record_kept p.series_id rows table h))
  ]

  -- A point that was asked for and did not fail has the range.
  pub record_points_new :
      (ps : List PointRef) (table : List Coverage)
      → is_asked series_id ps ≡ true
      → is_failed failed series_id ≡ false
      → holds t (start_ns, end_ns) ≡ true
      → is_cached t series_id (record_points org_id start_ns end_ns now failed series_rows ps table)
        ≡ true
  unfolding record_points any
  record_points_new [] table h f k = absurd (cc)
  record_points_new (p ∷ ps) table h f k = elim (Bool-cases (p.series_id == series_id)) [
    | inl e ↦
        let same : p.series_id ≡ series_id = ground arith in
        let rows = get_or p.series_id series_rows in
        let mine : is_cached t series_id
              (record_range org_id p.series_id start_ns end_ns rows now "raw" table)
            ≡ true =
          rw same (
            caches-record_range t series_id "raw" org_id start_ns end_ns
              (get_or series_id series_rows) now table (ground (arith, k))) in
        let free : is_failed failed p.series_id ≡ false = rw same f in
        rw free (
          record_points_kept ps
            (record_range org_id p.series_id start_ns end_ns rows now "raw" table) mine)
    | inr e ↦
        let rows = get_or p.series_id series_rows in
        record_points_new ps
          (if is_failed failed p.series_id
            then table
            else record_range org_id p.series_id start_ns end_ns rows now "raw" table)
          (ground (arith, h)) f k
  ]

  -- Of a series that failed, or that was not asked for, nothing is recorded.
  pub record_points_other :
      (ps : List PointRef) (table : List Coverage)
      → (is_asked series_id ps && not (is_failed failed series_id)) ≡ false
      → is_cached t series_id (record_points org_id start_ns end_ns now failed series_rows ps table)
        ≡ is_cached t series_id table
  unfolding record_points any
  record_points_other [] table h = refl
  record_points_other (p ∷ ps) table h = elim (Bool-cases (is_failed failed p.series_id)) [
    | inl e ↦ rw e (record_points_other ps table (ground (arith, h)))
    | inr e ↦
        let rows = get_or p.series_id series_rows in
        let other : (p.series_id == series_id) ≡ false =
          elim (Bool-cases (p.series_id == series_id)) [
            | inl k ↦
                let same : p.series_id ≡ series_id = ground arith in
                let free : is_failed failed series_id ≡ false = rw (← same) e in
                absurd (ground (arith, h))
            | inr k ↦ k
          ] in
        rw e (
          record_points_other ps
            (record_range org_id p.series_id start_ns end_ns rows now "raw" table)
            (ground (arith, h))
          ∙ caches-record_range_other t series_id "raw" org_id start_ns end_ns rows now p.series_id
              table other)
  ]
