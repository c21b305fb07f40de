-- ===== src/Fetch/Cached.antt =====
-- The `coverage` table between `record` and `missing_ranges` (api/src/tabayyun/services/coverage.py):
-- what was recorded is never asked for again.
use tabayyun.Prelude.{
  ◌==◌, ℕ, ◌≡◌, refl, ap, ◌∙◌, Bool, true, false, ◌&&◌, ◌||◌, not, String, List, [], ◌∷◌, map,
  ==_refl, str_eq_iff, ==_refl, ltb, arith, select, any, update, sort_by, any-sort_by, any-append,
  Bool-cases, inl, inr,
}
use tabayyun.Fetch.Instants.{ns_to_datetime, ns_to_datetime_ceil, datetime_to_ns}
use tabayyun.Fetch.Coverage.{
  Range, Coverage, holds, is_key, is_of, range_of, new_row, widen, record_range, covered_ranges,
  missing_ranges,
}
use tabayyun.Fetch.Gaps.{Apart, missing_ranges-holds, missing_ranges-Apart}

module _ (t series_id : ℕ) (layer : String) where
  -- A row of the series that holds the instant.
  abbrev pub caches : Coverage → Bool
  caches c = is_of series_id layer c && holds t (range_of c)

  any-map_range :
      (cs : List Coverage) → any (holds t) (map range_of cs) ≡ any (λ c. holds t (range_of c)) cs
  unfolding any
  any-map_range [] = refl
  any-map_range (c ∷ cs) = ground (arith, any-map_range cs)

  any-select_of :
      (cs : List Coverage)
      → any (λ c. holds t (range_of c)) (select (is_of series_id layer) cs) ≡ any caches cs
  unfolding any select
  any-select_of [] = refl
  any-select_of (c ∷ cs) = elim (Bool-cases (is_of series_id layer c)) [
    | inl e ↦ rw e (ground (arith, any-select_of cs))
    | inr e ↦ rw e (ground (arith, any-select_of cs))
  ]

  pub any-covered_ranges :
      (table : List Coverage)
      → any (holds t) (covered_ranges series_id layer table) ≡ any caches table
  unfolding covered_ranges
  any-covered_ranges table =
      let order : Coverage → Coverage → Bool = λ a b. ltb a.range_start b.range_start in
      let mine = select (is_of series_id layer) table in
      any-map_range (sort_by order mine)
      ∙ any-sort_by order (λ c. holds t (range_of c)) mine
      ∙ any-select_of table

  module _ (org_id start_ns end_ns rows now : ℕ) where
    -- An update in place keeps what a row holds, and the row of the key holds the new range too.
    any-update_kept :
        (table : List Coverage)
        → any caches table ≡ true
        → any caches (
            update
              (is_key series_id layer (ns_to_datetime start_ns))
              (widen org_id series_id start_ns end_ns rows now layer)
              table)
          ≡ true
    unfolding any update datetime_to_ns ns_to_datetime_ceil
    any-update_kept [] h = h
    any-update_kept (c ∷ cs) h = ground (arith, any-update_kept cs)

    any-update_new :
        (table : List Coverage)
        → any (is_key series_id layer (ns_to_datetime start_ns)) table ≡ true
        → holds t (start_ns, end_ns) ≡ true
        → any caches (
            update
              (is_key series_id layer (ns_to_datetime start_ns))
              (widen org_id series_id start_ns end_ns rows now layer)
              table)
          ≡ true
    unfolding any update datetime_to_ns ns_to_datetime ns_to_datetime_ceil
    any-update_new [] k h = absurd (cc)
    any-update_new (c ∷ cs) k h = ground (arith, any-update_new cs)

    caches-new_row :
        holds t (start_ns, end_ns) ≡ true
        → caches (new_row org_id series_id start_ns end_ns rows now layer) ≡ true
    unfolding datetime_to_ns ns_to_datetime ns_to_datetime_ceil
    caches-new_row h = ground (arith, (str_eq_iff layer layer).1 refl, ==_refl series_id)

    pub caches-record_range :
        (table : List Coverage)
        → (any caches table || holds t (start_ns, end_ns)) ≡ true
        → any caches (record_range org_id series_id start_ns end_ns rows now layer table) ≡ true
    unfolding record_range any
    caches-record_range table h =
        let row = new_row org_id series_id start_ns end_ns rows now layer in
        elim (Bool-cases (any (is_key series_id layer (ns_to_datetime start_ns)) table)) [
          | inl e ↦ rw e (ground (arith, any-update_kept table, any-update_new table e))
          | inr e ↦ rw e (ground (arith, any-append caches table (row ∷ []), caches-new_row))
        ]

    any-update_other :
        (other : ℕ) (table : List Coverage)
        → (other == series_id) ≡ false
        → any caches (
            update
              (is_key other layer (ns_to_datetime start_ns))
              (widen org_id other start_ns end_ns rows now layer)
              table)
          ≡ any caches table
    unfolding any update
    any-update_other other [] h = refl
    any-update_other other (c ∷ cs) h = ground (arith, any-update_other other cs h)

    -- A record of another series leaves the rows of this one as they are.
    pub caches-record_range_other :
        (other : ℕ) (table : List Coverage)
        → (other == series_id) ≡ false
        → any caches (record_range org_id other start_ns end_ns rows now layer table)
          ≡ any caches table
    unfolding record_range any
    caches-record_range_other other table h =
        let key = is_key other layer (ns_to_datetime start_ns) in
        let row = new_row org_id other start_ns end_ns rows now layer in
        elim (Bool-cases (any key table)) [
          | inl e ↦ rw e (any-update_other other table h)
          | inr e ↦ rw e (ground (arith, any-append caches table (row ∷ [])))
        ]

module _ (org_id series_id start_ns end_ns rows now : ℕ) (layer : String)
    (table : List Coverage) where
  abbrev after : List Coverage
  after = record_range org_id series_id start_ns end_ns rows now layer table

  -- What a window still lacks of a series after a range was recorded was not in that range, and was
  -- lacking before.
  pub record_range-missing :
      (lo hi t : ℕ)
      → any (holds t) (missing_ranges (covered_ranges series_id layer after) lo hi) ≡ true
      → (holds t (start_ns, end_ns) ≡ false)
        × (any (holds t) (missing_ranges (covered_ranges series_id layer table) lo hi) ≡ true)
  record_range-missing lo hi t h =
      let old = covered_ranges series_id layer table in
      let new = covered_ranges series_id layer after in
      let kept = caches-record_range t series_id layer org_id start_ns end_ns rows now table in
      let was =
        missing_ranges-holds old lo hi t
        ∙ ap (λ b. holds t (lo, hi) && not b) (any-covered_ranges t series_id layer table) in
      let is =
        missing_ranges-holds new lo hi t
        ∙ ap (λ b. holds t (lo, hi) && not b) (any-covered_ranges t series_id layer after) in
      (ground (arith, was, is, kept), ground (arith, was, is, kept))

  none_of_Apart :
      (from end : ℕ) (rs : List Range)
      → Apart from end rs
      → ((t : ℕ) → any (holds t) rs ≡ false)
      → rs ≡ []
  unfolding any
  none_of_Apart from end [] h k = refl
  none_of_Apart from end ((lo, hi) ∷ rs) h k = absurd (ground (arith, k lo, h.1))

  -- A range that was recorded has no gap left: it is not fetched again.
  pub record_range-fetched :
      missing_ranges (covered_ranges series_id layer after) start_ns end_ns ≡ []
  unfolding any
  record_range-fetched =
      let new = covered_ranges series_id layer after in
      none_of_Apart start_ns end_ns (missing_ranges new start_ns end_ns)
        (missing_ranges-Apart new start_ns end_ns)
        (λ t. ground (
          arith,
          missing_ranges-holds new start_ns end_ns t,
          any-covered_ranges t series_id layer after,
          caches-record_range t series_id layer org_id start_ns end_ns rows now table,
        ))
