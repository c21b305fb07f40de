-- ===== src/Series/Describe.antt =====
-- The import of metadata into the series of a source (`_describe` of
-- api/src/tabayyun/services/fetches.py). `describe` is what the connector answers on some points.
use Prim.Native.Nat.{zero, suc, ◌+◌}
use tabayyun.Prelude.{
  ℕ, Bool, true, false, ◌&&◌, not, Option, none, some, String, List, [], ◌∷◌, ◌++◌, ◌==◌,
  if◌then◌else◌, any, all, first, update, length, map, str_eq, take, drop, Outcome, ok, err, Tx,
}
use tabayyun.Fetch.Plan.{PointRef}
use tabayyun.Engine.Tables.{internal_error}
use tabayyun.Engine.Prepare.{Stop, stop}
use tabayyun.Engine.Call.{put}
use tabayyun.Series.Tables.{Double, nan, Json, object, other, Blob, Series, Store}
use tabayyun.Series.Uploads.{same_number}
use tabayyun.Series.Values.{text_or}
use tabayyun.Series.Import.{PointMetadata, Applied, same_dict, get_key}
use tabayyun.Series.Apply.{apply}

pub record PointDescription : Type 0 where
  pub series_id : ℕ
  pub metadata : Option PointMetadata
  pub error : Option String

-- The entry of a series in the dict `per_series`.
pub data SeriesResult : Type 0 where
  applied : Applied → SeriesResult
  not_applied : (error : String) → SeriesResult

-- The counts and `per_series`.
pub record ImportResult : Type 0 where
  pub updated : ℕ
  pub unchanged : ℕ
  pub failed : ℕ
  pub per_series : List (ℕ × SeriesResult)

-- `{d.series_id for d in got} == {r.series_id for r in part}`
unfoldable pub same_points : List PointDescription → List PointRef → Bool
unfolding any all
same_points got part =
    all (λ d. any (λ r. r.series_id == d.series_id) part) got
    && all (λ r. any (λ d. r.series_id == d.series_id) got) part

-- The loop over the slices of `chunk` points, on fuel.
module _ (describe : List PointRef → Outcome Stop (List PointDescription)) (chunk : ℕ) where
  unfoldable pub describe_points : (fuel : ℕ) → List PointRef → Outcome Stop (List PointDescription)
  unfolding same_points
  describe_points zero refs = ok []
  describe_points (suc fuel) [] = ok []
  describe_points (suc fuel) (r ∷ refs) =
      let part = take chunk (r ∷ refs) in
      let rest = describe_points fuel (drop chunk (r ∷ refs)) in
      elim (describe part) [
        | err e ↦ err e
        | ok got ↦
            if not (same_points got part)
            then err (stop "connector described other points than it was asked for")
            else elim rest [ err e ↦ err e | ok more ↦ ok (got ++ more) ]
      ]

abbrev pub is_series : ℕ → Series → Bool
is_series id s = s.id == id

abbrev pub same_column : {A : Type 0} → (A → A → Bool) → Option A → Option A → Bool
same_column same none none = true
same_column same (some a) (some b) = same a b
same_column same _ _ = false

-- Whether a limit is the value that it was; no import sets NaN, so NaN was there before.
abbrev pub same_limit : Option Double → Option Double → Bool
same_limit (some nan) (some nan) = true
same_limit a b = same_column same_number a b

abbrev pub same_json : Json → Json → Bool
same_json (object a) (object b) = same_dict a b
same_json (other a) (other b) = str_eq a b
same_json _ _ = false

-- Whether the blob has the item.
abbrev pub has_entry : Blob → String × Json → Bool
has_entry blob (k, v) = elim (get_key k blob) [ none ↦ false | some w ↦ same_json v w ]

-- Whether the object has no net change when the session flushes it, in what an import assigns.
unfoldable pub same_row : Series → Series → Bool
unfolding same_dict get_key all
same_row s y =
    same_column str_eq s.unit y.unit
    && same_limit s.physical_min y.physical_min
    && same_limit s.physical_max y.physical_max
    && same_limit s.operational_min y.operational_min
    && same_limit s.operational_max y.operational_max
    && same_column str_eq s.asset_path y.asset_path
    && all (has_entry y.metadata) s.metadata
    && all (has_entry s.metadata) y.metadata

-- The flush of a loaded row: an UPDATE of a changed row sets `updated_at` (`onupdate` of db/models.py).
unfoldable pub flushed : (db_now : ℕ) → (loaded : Series) → Series → Series
unfolding same_row
flushed db_now s y = if same_row s y then y else record y { updated_at = db_now }

-- The same, of a row by its id among the rows as they were loaded.
abbrev pub flushed_from : (db_now : ℕ) → (loaded : List Series) → Series → Series
flushed_from db_now loaded y = elim (first (is_series y.id) loaded) [
  | none ↦ y
  | some s ↦ flushed db_now s y
]

abbrev pub count_failed : ℕ → String → ImportResult → ImportResult
count_failed id error r = record r {
  failed = r.failed + 1;
  per_series = put id (not_applied error) r.per_series;
}

abbrev pub changes_something : Applied → Bool
changes_something a = elim a.changed [ [] ↦ false | c ∷ cs ↦ true ]

abbrev pub count_applied : ℕ → Applied → ImportResult → ImportResult
count_applied id a r = record r {
  updated = if changes_something a then r.updated + 1 else r.updated;
  unchanged = if changes_something a then r.unchanged else r.unchanged + 1;
  per_series = put id (applied a) r.per_series;
}

module _ (json_bytes : Blob → ℕ) (dict_of : String → Option (List (String × String)))
    (quoted : String → String) (isoformat : ℕ → String) (source_type : String) (overwrite : Bool)
    (now : ℕ) where
  -- One turn of the loop over the descriptions; nothing where `apply` raises.
  unfoldable pub import_one :
      PointDescription → ImportResult → Store → Option (ImportResult × Store)
  unfolding apply first update put
  import_one d r store = elim d.metadata [
    | none ↦ some (count_failed d.series_id (text_or d.error "series not found") r, store)
    | some meta ↦ elim (first (is_series d.series_id) store.series) [
      | none ↦ some (count_failed d.series_id (text_or d.error "series not found") r, store)
      | some s ↦ elim (apply json_bytes dict_of quoted isoformat s meta source_type overwrite now) [
        | none ↦ none
        | some (a, y) ↦ some (
          count_applied d.series_id a r,
          record store { series = update (is_series d.series_id) (λ x. y) store.series },
        )
      ]
    ]
  ]

  unfoldable pub import_all :
      List PointDescription → ImportResult → Store → Option (ImportResult × Store)
  unfolding import_one
  import_all [] r store = some (r, store)
  import_all (d ∷ ds) r store = elim (import_one d r store) [
    | none ↦ none
    | some (r', after) ↦ import_all ds r' after
  ]

  -- An error of the connector, or of the code, leaves the series as they were. `db_now` is `now()` of the
  -- database in the transaction.
  unfoldable pub describe_source :
      (describe : List PointRef → Outcome Stop (List PointDescription))
      → (chunk : ℕ) → List PointRef
      → (db_now : ℕ) → Tx Stop Store ImportResult
  unfolding describe_points import_all flushed first
  describe_source describe chunk refs db_now store =
      elim (describe_points describe chunk (length refs) refs) [
        | err e ↦ err e
        | ok descriptions ↦
            elim (import_all descriptions
              (record { updated = 0; unchanged = 0; failed = 0; per_series = [] }) store) [
                | none ↦ err (stop internal_error)
                | some (r, after) ↦ ok (
                  r,
                  record after { series = map (flushed_from db_now store.series) after.series },
                )
              ]
      ]
