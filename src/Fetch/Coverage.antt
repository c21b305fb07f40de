-- ===== src/Fetch/Coverage.antt =====
-- api/src/tabayyun/services/coverage.py: the `coverage` table and the gaps of a window.
use tabayyun.Prelude.{
  ℕ, Bool, ◌&&◌, ◌||◌, String, List, [], ◌∷◌, ◌++◌, map, ◌==◌, str_eq, if◌then◌else◌, ltb, leb, max,
  select, any, update, sort_by,
}
use tabayyun.Fetch.Instants.{ns_to_datetime, ns_to_datetime_ceil, datetime_to_ns}

abbrev pub Range : Type 0
Range = ℕ × ℕ

-- A half-open range holds an instant.
abbrev pub holds : ℕ → Range → Bool
holds t (lo, hi) = leb lo t && ltb t hi

abbrev pub is_filled : Range → Bool
is_filled (lo, hi) = ltb lo hi

-- The order of pairs.
abbrev pub range_before : Range → Range → Bool
range_before (a, b) (c, d) = ltb a c || a == c && ltb b d

unfoldable pub gap_to : ℕ → ℕ → List Range
gap_to cursor end_ns = if ltb cursor end_ns then (cursor, end_ns) ∷ [] else []

-- The loop of `missing_ranges`, from the cursor on.
unfoldable pub fill : ℕ → List Range → ℕ → List Range
fill end_ns [] cursor = gap_to cursor end_ns
fill end_ns ((lo, hi) ∷ rest) cursor =
    let next = if leb hi cursor then cursor else max cursor hi in
    let later = fill end_ns rest next in
    if leb hi cursor
    then later
    else if leb end_ns lo
    then gap_to cursor end_ns
    else gap_to cursor lo ++ (if leb end_ns next then [] else later)

unfoldable pub missing_ranges : List Range → ℕ → ℕ → List Range
unfolding fill
missing_ranges covered start_ns end_ns =
    if leb end_ns start_ns
    then []
    else fill end_ns (sort_by range_before (select is_filled covered)) start_ns

-- A row of `coverage`, with the key (`series_id`, `layer`, `range_start`).
pub record Coverage : Type 0 where
  pub series_id : ℕ
  pub org_id : ℕ
  pub layer : String
  pub range_start : ℕ
  pub range_end : ℕ
  pub rows : ℕ
  pub written_at : ℕ

abbrev pub is_key : ℕ → String → ℕ → Coverage → Bool
is_key series_id layer range_start c =
    c.series_id == series_id && str_eq c.layer layer && c.range_start == range_start

module _ (org_id series_id start_ns end_ns rows now : ℕ) (layer : String) where
  abbrev pub new_row : Coverage
  new_row = record {
    series_id = series_id;
    org_id = org_id;
    layer = layer;
    range_start = ns_to_datetime start_ns;
    range_end = ns_to_datetime_ceil end_ns;
    rows = rows;
    written_at = now;
  }

  abbrev pub widen : Coverage → Coverage
  widen c = record c {
    range_end = max c.range_end (ns_to_datetime_ceil end_ns);
    rows = rows;
    written_at = now;
  }

  -- `record`: INSERT .. ON CONFLICT DO UPDATE.
  unfoldable pub record_range : List Coverage → List Coverage
  unfolding any update
  record_range table =
      let key = is_key series_id layer (ns_to_datetime start_ns) in
      if any key table then update key widen table else table ++ new_row ∷ []

abbrev pub is_of : ℕ → String → Coverage → Bool
is_of series_id layer c = c.series_id == series_id && str_eq c.layer layer

abbrev pub range_of : Coverage → Range
range_of c = (datetime_to_ns c.range_start, datetime_to_ns c.range_end)

unfoldable pub covered_ranges : ℕ → String → List Coverage → List Range
covered_ranges series_id layer table =
    map range_of
      (sort_by (λ a b. ltb a.range_start b.range_start) (select (is_of series_id layer) table))
