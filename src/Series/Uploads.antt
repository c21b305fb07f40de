-- ===== src/Series/Uploads.antt =====
-- Series of uploads (api/src/tabayyun/services/series.py). `now()` of the database is `db_now`.
use Prim.Native.Nat.{◌+◌}
use tabayyun.Prelude.{
  ℕ, Bool, true, false, not, ◌&&◌, ◌||◌, Option, none, some, String, [], ◌∷◌, ◌++◌, ◌==◌, str_eq,
  if◌then◌else◌, any, first, update, ok, err, Tx,
}
use tabayyun.Authz.Roles.{Scope}
use tabayyun.Db.{Host}
use tabayyun.Series.Tables.{Double, real, Series, Source, Store, MetadataError}
use tabayyun.Series.Limits.{validate_limits}
use tabayyun.Series.Values.{Overrides, values_of, limits_in, over, merged, keys_of}

abbrev pub uploads_source_name : String
uploads_source_name = "Uploads"

-- What ends the completion of a run: `MetadataError`, or an error of SQLAlchemy.
pub data Fault : Type 0 where
  invalid : MetadataError → Fault
  database : String → Fault

abbrev pub is_stored : ℕ → String → Series → Bool
is_stored source_id external_id s = s.source_id == source_id && str_eq s.external_id external_id

abbrev pub source_id_of : Option Source → Option ℕ
source_id_of none = none
source_id_of (some s) = some s.id

module _ (scope : Scope) where
  abbrev pub is_uploads : Source → Bool
  is_uploads s = s.workspace_id == scope.workspace_id && str_eq s.name uploads_source_name

  abbrev pub uploads_source_id : Store → Option ℕ
  uploads_source_id store = source_id_of (first is_uploads store.sources)

  unfoldable pub find_upload_series : (external_id : String) → Store → Option Series
  unfolding first
  find_upload_series external_id store = elim (uploads_source_id store) [
    | none ↦ none
    | some source_id ↦ first (is_stored source_id external_id) store.series
  ]

module _ ⦃host : Host⦄ (scope : Scope) where
  -- The first insert: ON CONFLICT DO NOTHING.
  unfoldable pub add_source : Store → Store
  unfolding any
  add_source store =
      let row : Source = record {
        id = host.uuid4 store.drawn;
        org_id = scope.org_id;
        workspace_id = scope.workspace_id;
        source_type = "upload";
        name = uploads_source_name;
      } in
      record store {
        sources =
            if any (is_uploads scope) store.sources
            then store.sources
            else store.sources ++ row ∷ [];
        drawn = store.drawn + 1;
      }

  -- A row as the second insert makes it, with the defaults of the table.
  abbrev pub new_series : ℕ → String → (db_now : ℕ) → (drawn : ℕ) → Series
  new_series source_id external_id db_now drawn = record {
    id = host.uuid4 drawn;
    org_id = scope.org_id;
    workspace_id = scope.workspace_id;
    source_id = source_id;
    external_id = external_id;
    name = external_id;
    unit = none;
    kind = "measurement";
    expected_interval_ns = none;
    physical_min = none;
    physical_max = none;
    operational_min = none;
    operational_max = none;
    resolution = none;
    non_negative = none;
    asset_path = none;
    metadata = [];
    updated_at = db_now;
  }

  unfoldable pub add_series : ℕ → String → (db_now : ℕ) → Store → Store
  unfolding any
  add_series source_id external_id db_now store = record store {
    series =
        if any (is_stored source_id external_id) store.series
        then store.series
        else store.series ++ new_series source_id external_id db_now store.drawn ∷ [];
    drawn = store.drawn + 1;
  }

-- Whether a field that was passed differs from the stored one.
abbrev pub differs : {A : Type 0} → (A → A → Bool) → Option A → Option A → Bool
differs same none old = false
differs same (some new) none = true
differs same (some new) (some old) = not (same new old)

-- `==` on doubles.
abbrev pub same_number : Double → Double → Bool
same_number (real a) (real b) = a == b
same_number _ _ = false

-- The series with the upload's metadata.
unfoldable pub saved : Overrides → (now : ℕ) → Series → Series
saved o now s =
    let changed =
      differs str_eq o.unit s.unit
      || differs same_number o.physical_min s.physical_min
      || differs same_number o.physical_max s.physical_max in
    if changed
    then record s {
      unit = over o.unit s.unit;
      physical_min = over o.physical_min s.physical_min;
      physical_max = over o.physical_max s.physical_max;
      updated_at = now;
    }
    else s

-- The part behind the inserts, on the row that is locked.
unfoldable pub save_upload :
    (external_id : String) → Overrides → (now : ℕ) → ℕ → Tx Fault Store Series
unfolding values_of validate_limits saved first update
save_upload external_id overrides now source_id store =
    elim (first (is_stored source_id external_id) store.series) [
      | none ↦ err (database "No row was found when one was required")
      | some s ↦
          elim (validate_limits (limits_in (merged (values_of (some s)) overrides))
            (keys_of overrides)) [
              | err e ↦ err (invalid e)
              | ok done ↦ ok (
                saved overrides now s,
                record store {
                  series = update (λ t. t.id == s.id) (λ t. saved overrides now s) store.series;
                },
              )
            ]
    ]

module _ ⦃host : Host⦄ (scope : Scope) where
  unfoldable pub upsert_upload_series :
      (external_id : String) → Overrides → (now db_now : ℕ) → Tx Fault Store Series
  unfolding add_source add_series save_upload
  upsert_upload_series external_id overrides now db_now store =
      let sourced = add_source scope store in
      elim (uploads_source_id scope sourced) [
        | none ↦ err (database "null value in column \"source_id\"")
        | some source_id ↦
            save_upload external_id overrides now source_id
              (add_series scope source_id external_id db_now sourced)
      ]
