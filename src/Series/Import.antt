-- ===== src/Series/Import.antt =====
-- Metadata imported from a connector (api/src/tabayyun/services/source_metadata.py). `dict_of` is what
-- `dict()` makes of JSON that is no object, and nothing where it raises; `quoted` is a text as JSON and
-- `isoformat` an instant.
use tabayyun.Prelude.{
  ℕ, Bool, false, not, ◌&&◌, Option, none, some, String, List, [], ◌∷◌, ◌++◌, str_eq, if◌then◌else◌,
  ltb, all, is_empty, chars, strip, ok, err,
}
use Prim.Native.String.{◌++◌ as append_text}
use tabayyun.Series.Tables.{Double, is_finite, object, other, Blob, Series}
use tabayyun.Series.Limits.{Limits, validate_limits}
use tabayyun.Series.Values.{over, key_if}
use tabayyun.Series.Uploads.{same_number, differs}

abbrev pub max_unit : ℕ
max_unit = 32

abbrev pub max_asset_path : ℕ
max_asset_path = 512

-- `extra` holds the JSON of its values; `none` is null.
pub record PointMetadata : Type 0 where
  pub unit : Option String
  pub description : Option String
  pub physical_min : Option Double
  pub physical_max : Option Double
  pub operational_min : Option Double
  pub operational_max : Option Double
  pub asset_path : Option String
  pub extra : List (String × Option String)

-- A dict over `COLUMNS`: `wanted`, or the columns of a series as `current`.
pub record Columns : Type 0 where
  pub unit : Option String
  pub limits : Limits
  pub asset_path : Option String

pub record Applied : Type 0 where
  pub changed : List String
  pub skipped : List String

-- A text cleaned, or the reason to skip it.
unfoldable pub clean_text :
    (name reason : String) → (most : ℕ) → Option String → Option String × List String
unfolding strip chars is_empty
clean_text name reason most none = (none, [])
clean_text name reason most (some text) =
    let kept = strip text in
    if is_empty kept
    then (none, [])
    else if ltb most (chars kept)
    then (none, append_text name reason ∷ [])
    else (some kept, [])

unfoldable pub clean_limit : (name : String) → Option Double → Option Double × List String
clean_limit name none = (none, [])
clean_limit name (some x) =
    if not (is_finite x)
    then (none, append_text name ": not a finite number" ∷ [])
    else (some x, [])

-- `_candidates`
unfoldable pub candidates : PointMetadata → Columns × List String
unfolding clean_text clean_limit
candidates meta =
    let (unit, a) = clean_text "unit" ": longer than 32 characters" max_unit meta.unit in
    let (pmin, b) = clean_limit "physical_min" meta.physical_min in
    let (pmax, c) = clean_limit "physical_max" meta.physical_max in
    let (omin, d) = clean_limit "operational_min" meta.operational_min in
    let (omax, e) = clean_limit "operational_max" meta.operational_max in
    let (path, f) =
      clean_text "asset_path" ": longer than 512 characters" max_asset_path meta.asset_path in
    (
      record {
        unit = unit;
        limits = record {
          physical_min = pmin;
          physical_max = pmax;
          operational_min = omin;
          operational_max = omax;
        };
        asset_path = path;
      },
      a ++ b ++ c ++ d ++ e ++ f,
    )

-- A candidate that is wanted: always, or for an empty column.
abbrev pub want : {A : Type 0} → (overwrite : Bool) → Option A → Option A → Option A
want overwrite none value = value
want overwrite (some old) value = if overwrite then value else none

unfoldable pub wanted_limits : (overwrite : Bool) → Limits → Limits → Limits
wanted_limits overwrite current v = record {
  physical_min = want overwrite current.physical_min v.physical_min;
  physical_max = want overwrite current.physical_max v.physical_max;
  operational_min = want overwrite current.operational_min v.operational_min;
  operational_max = want overwrite current.operational_max v.operational_max;
}

-- `{**current, **wanted}` on the limits.
unfoldable pub merged_limits : Limits → Limits → Limits
merged_limits current wanted = record {
  physical_min = over wanted.physical_min current.physical_min;
  physical_max = over wanted.physical_max current.physical_max;
  operational_min = over wanted.operational_min current.operational_min;
  operational_max = over wanted.operational_max current.operational_max;
}

-- `[n for n in wanted if n in LIMIT_FIELDS]`
abbrev pub limit_keys : Limits → List String
limit_keys v = key_if "physical_min" v.physical_min (
    key_if "physical_max" v.physical_max
      (key_if "operational_min" v.operational_min (key_if "operational_max" v.operational_max [])))

abbrev pub no_limits : Limits
no_limits = record {
  physical_min = none;
  physical_max = none;
  operational_min = none;
  operational_max = none;
}

-- The limits that are left of the wanted ones, and why they were dropped.
unfoldable pub fitting_limits : (current wanted : Limits) → Limits × List String
unfolding validate_limits merged_limits
fitting_limits current wanted =
    elim (validate_limits (merged_limits current wanted) (limit_keys wanted)) [
      | ok done ↦ (wanted, [])
      | err e ↦ (no_limits, append_text "limits: " e.message ∷ [])
    ]

abbrev pub name_if : String → Bool → List String
name_if name changes = if changes then name ∷ [] else []

-- The columns whose value changes, in the order of `wanted`.
unfoldable pub changed_columns : Columns → Series → List String
changed_columns w s =
    let number = differs same_number in
    name_if "unit" (differs str_eq w.unit s.unit)
    ++ name_if "physical_min" (number w.limits.physical_min s.physical_min)
    ++ name_if "physical_max" (number w.limits.physical_max s.physical_max)
    ++ name_if "operational_min" (number w.limits.operational_min s.operational_min)
    ++ name_if "operational_max" (number w.limits.operational_max s.operational_max)
    ++ name_if "asset_path" (differs str_eq w.asset_path s.asset_path)

-- The loop of `setattr`; an equal value changes nothing.
unfoldable pub set_columns : Columns → Series → Series
set_columns w s = record s {
  unit = over w.unit s.unit;
  physical_min = over w.limits.physical_min s.physical_min;
  physical_max = over w.limits.physical_max s.physical_max;
  operational_min = over w.limits.operational_min s.operational_min;
  operational_max = over w.limits.operational_max s.operational_max;
  asset_path = over w.asset_path s.asset_path;
}

-- `dict[key] = value`
unfoldable pub put_key : {V : Type 0} → String → V → List (String × V) → List (String × V)
put_key k v [] = (k, v) ∷ []
put_key k v ((j, w) ∷ d) =
    let rest = put_key k v d in if str_eq j k then (k, v) ∷ d else (j, w) ∷ rest

unfoldable pub get_key : {V : Type 0} → String → List (String × V) → Option V
get_key k [] = none
get_key k ((j, v) ∷ d) = let rest = get_key k d in if str_eq j k then some v else rest

unfoldable pub known : List (String × Option String) → List (String × String)
known [] = []
known ((k, none) ∷ extra) = known extra
known ((k, some v) ∷ extra) = (k, v) ∷ known extra

-- `if meta.description`
unfoldable pub with_description :
    (quoted : String → String) → Option String → List (String × String) → List (String × String)
unfolding put_key is_empty
with_description quoted none fields = fields
with_description quoted (some d) fields =
    if is_empty d then fields else put_key "description" (quoted d) fields

-- `_blob`
unfoldable pub blob_of :
    (quoted : String → String)
    → (isoformat : ℕ → String) → PointMetadata
    → (now : ℕ) → List (String × String)
unfolding known put_key with_description
blob_of quoted isoformat meta now =
    let blob = known meta.extra in
    put_key "imported_at" (quoted (isoformat now)) (with_description quoted meta.description blob)

-- Whether the dict has the item.
abbrev pub has_item : List (String × String) → String × String → Bool
has_item d (k, v) = elim (get_key k d) [ none ↦ false | some w ↦ str_eq v w ]

-- `_canonical(a) == _canonical(b)`
unfoldable pub same_dict : (a b : List (String × String)) → Bool
unfolding get_key all
same_dict a b = all (has_item b) a && all (has_item a) b

abbrev pub not_imported_at : String × String → Bool
not_imported_at (k, v) = not (str_eq k "imported_at")

-- `dict(stored.get(source_type) or {})`
unfoldable pub previous_of :
    (dict_of : String → Option (List (String × String)))
    → (source_type : String) → Blob
    → Option (List (String × String))
unfolding get_key
previous_of dict_of source_type stored = elim (get_key source_type stored) [
  | none ↦ some []
  | some (object fields) ↦ some fields
  | some (other text) ↦ dict_of text
]
