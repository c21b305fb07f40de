-- ===== src/Series/Patch.antt =====
-- Updates of series (`patch_series` of api/src/tabayyun/services/series.py). `json_bytes` is how long a
-- blob is as compact JSON.
use tabayyun.Prelude.{
  ℕ, Bool, ◌&&◌, Option, none, some, String, List, [], ◌∷◌, ◌==◌, if◌then◌else◌, leb, first, update,
  map, Outcome, ok, err,
}
use tabayyun.Authz.Roles.{Scope}
use tabayyun.Series.Tables.{Double, Blob, Series, MetadataError, Change}
use tabayyun.Series.Limits.{Limits, limits_of, validate_limits}

-- `MAX_METADATA_BYTES`
abbrev pub max_metadata_bytes : ℕ
max_metadata_bytes = 8192

-- `validate_metadata_blob` of an object.
unfoldable pub validate_blob : (json_bytes : Blob → ℕ) → Blob → Outcome MetadataError (Unit {0})
validate_blob json_bytes blob =
    if leb (json_bytes blob) max_metadata_bytes
    then ok tt
    else err (record { field = "metadata"; message = "larger than 8192 bytes" })

-- A value sent for `metadata`: an object, or any other JSON but null.
pub data Given : Type 0 where
  blob : Blob → Given
  not_object : Given

-- A key of the dict `changes` with its value; `none` is null.
pub data Edit : Type 0 where
  set_name set_unit set_kind set_asset_path : Option String → Edit
  set_expected_interval_ns set_resolution : Option ℕ → Edit
  set_physical_min set_physical_max set_operational_min set_operational_max : Option Double → Edit
  set_non_negative : Option Bool → Edit
  set_metadata : Option Given → Edit
  set_unknown : (field : String) → Edit

abbrev pub field_of : Edit → String
field_of (set_name v) = "name"
field_of (set_unit v) = "unit"
field_of (set_kind v) = "kind"
field_of (set_asset_path v) = "asset_path"
field_of (set_expected_interval_ns v) = "expected_interval_ns"
field_of (set_resolution v) = "resolution"
field_of (set_physical_min v) = "physical_min"
field_of (set_physical_max v) = "physical_max"
field_of (set_operational_min v) = "operational_min"
field_of (set_operational_max v) = "operational_max"
field_of (set_non_negative v) = "non_negative"
field_of (set_metadata v) = "metadata"
field_of (set_unknown field) = field

abbrev pub cannot_be_null : String → MetadataError
cannot_be_null field = record { field = field; message = "cannot be null" }

-- The checks of the loop on one key.
unfoldable pub check_edit : Edit → Outcome MetadataError (Unit {0})
check_edit (set_unknown field) = err (record { field = field; message = "not an editable field" })
check_edit (set_name none) = err (cannot_be_null "name")
check_edit (set_kind none) = err (cannot_be_null "kind")
check_edit (set_metadata none) = err (cannot_be_null "metadata")
check_edit _ = ok tt

-- The loop over the keys.
unfoldable pub check_edits : List Edit → Outcome MetadataError (Unit {0})
unfolding check_edit
check_edits [] = ok tt
check_edits (e ∷ es) = elim (check_edit e) [ err m ↦ err m | ok done ↦ check_edits es ]

-- `if "metadata" in changes: validate_metadata_blob(..)`; the keys differ.
unfoldable pub check_metadata :
    (json_bytes : Blob → ℕ) → List Edit → Outcome MetadataError (Unit {0})
unfolding validate_blob
check_metadata json_bytes [] = ok tt
check_metadata json_bytes (set_metadata (some (blob b)) ∷ es) = validate_blob json_bytes b
check_metadata json_bytes (set_metadata (some not_object) ∷ es) =
    err (record { field = "metadata"; message = "must be a JSON object" })
check_metadata json_bytes (_ ∷ es) = check_metadata json_bytes es

-- The limits of `{**_values(series), **changes}`.
unfoldable pub edited_limits : List Edit → Limits → Limits
edited_limits [] v = v
edited_limits (set_physical_min x ∷ es) v = edited_limits es (record v { physical_min = x })
edited_limits (set_physical_max x ∷ es) v = edited_limits es (record v { physical_max = x })
edited_limits (set_operational_min x ∷ es) v = edited_limits es (record v { operational_min = x })
edited_limits (set_operational_max x ∷ es) v = edited_limits es (record v { operational_max = x })
edited_limits (_ ∷ es) v = edited_limits es v

-- `setattr`; what `check_edits` and `check_metadata` refuse sets nothing.
unfoldable pub edit : Edit → Series → Series
edit (set_name (some x)) s = record s { name = x }
edit (set_unit x) s = record s { unit = x }
edit (set_kind (some x)) s = record s { kind = x }
edit (set_asset_path x) s = record s { asset_path = x }
edit (set_expected_interval_ns x) s = record s { expected_interval_ns = x }
edit (set_resolution x) s = record s { resolution = x }
edit (set_physical_min x) s = record s { physical_min = x }
edit (set_physical_max x) s = record s { physical_max = x }
edit (set_operational_min x) s = record s { operational_min = x }
edit (set_operational_max x) s = record s { operational_max = x }
edit (set_non_negative x) s = record s { non_negative = x }
edit (set_metadata (some (blob b))) s = record s { metadata = b }
edit _ s = s

unfoldable pub edit_all : List Edit → Series → Series
unfolding edit
edit_all [] s = s
edit_all (e ∷ es) s = edit_all es (edit e s)

-- The checks in their order.
unfoldable pub check_changes :
    (json_bytes : Blob → ℕ) → List Edit → Series → Outcome MetadataError (Unit {0})
unfolding check_edits check_metadata edited_limits validate_limits
check_changes json_bytes changes s = elim (check_edits changes) [
  | err e ↦ err e
  | ok done ↦ elim (check_metadata json_bytes changes) [
    | err e ↦ err e
    | ok fits ↦ validate_limits (edited_limits changes (limits_of s)) (map field_of changes)
  ]
]

abbrev pub is_at : ℕ → ℕ → Series → Bool
is_at workspace_id series_id s = s.id == series_id && s.workspace_id == workspace_id

unfoldable pub patch_series :
    (json_bytes : Blob → ℕ)
    → Scope
    → (series_id : ℕ) → List Edit
    → (now : ℕ) → Change (Option Series)
unfolding check_changes edit_all first update
patch_series json_bytes scope series_id changes now store =
    let at = is_at scope.workspace_id series_id in
    elim (first at store.series) [
      | none ↦ ok (none, store)
      | some s ↦
          let patched : Series = record (edit_all changes s) { updated_at = now } in
          elim (check_changes json_bytes changes s) [
            | err e ↦ err e
            | ok done ↦
                ok (some patched, record store { series = update at (λ t. patched) store.series })
          ]
    ]
