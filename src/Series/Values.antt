-- ===== src/Series/Values.antt =====
-- What is known of a series with what an upload states on top (api/src/tabayyun/services/series.py).
use tabayyun.Prelude.{
  ℕ, Bool, Option, none, some, String, List, [], ◌∷◌, if◌then◌else◌, is_empty, Outcome, ok, err,
}
use tabayyun.Series.Tables.{Double, Blob, Series, MetadataError}
use tabayyun.Series.Limits.{Limits, validate_limits}

-- The dict of `upload_overrides`: a field that was not passed is missing.
pub record Overrides : Type 0 where
  pub unit : Option String
  pub physical_min : Option Double
  pub physical_max : Option Double

-- The dict of `_values` with what is put on top; a missing key reads as null.
pub record Values : Type 0 where
  pub name : Option String
  pub unit : Option String
  pub kind : Option String
  pub expected_interval_ns : Option ℕ
  pub physical_min : Option Double
  pub physical_max : Option Double
  pub operational_min : Option Double
  pub operational_max : Option Double
  pub resolution : Option ℕ
  pub non_negative : Option Bool
  pub asset_path : Option String
  pub metadata : Option Blob

-- `_values`
unfoldable pub values_of : Option Series → Values
values_of none = record {
  name = none;
  unit = none;
  kind = none;
  expected_interval_ns = none;
  physical_min = none;
  physical_max = none;
  operational_min = none;
  operational_max = none;
  resolution = none;
  non_negative = none;
  asset_path = none;
  metadata = none;
}
values_of (some s) = record {
  name = some s.name;
  unit = s.unit;
  kind = some s.kind;
  expected_interval_ns = s.expected_interval_ns;
  physical_min = s.physical_min;
  physical_max = s.physical_max;
  operational_min = s.operational_min;
  operational_max = s.operational_max;
  resolution = s.resolution;
  non_negative = s.non_negative;
  asset_path = s.asset_path;
  metadata = some s.metadata;
}

abbrev pub limits_in : Values → Limits
limits_in v = record {
  physical_min = v.physical_min;
  physical_max = v.physical_max;
  operational_min = v.operational_min;
  operational_max = v.operational_max;
}

-- The value at a key of `{**old, **new}`.
abbrev pub over : {A : Type 0} → Option A → Option A → Option A
over none old = old
over (some new) old = some new

-- `{**values, **overrides}`
abbrev pub merged : Values → Overrides → Values
merged v o = record v {
  unit = over o.unit v.unit;
  physical_min = over o.physical_min v.physical_min;
  physical_max = over o.physical_max v.physical_max;
}

abbrev pub key_if : {A : Type 0} → String → Option A → List String → List String
key_if key none keys = keys
key_if key (some v) keys = key ∷ keys

-- `list(overrides)`
abbrev pub keys_of : Overrides → List String
keys_of o =
    key_if "unit" o.unit
      (key_if "physical_min" o.physical_min (key_if "physical_max" o.physical_max []))

unfoldable pub merged_for_run : Option Series → Overrides → Outcome MetadataError Values
unfolding values_of validate_limits
merged_for_run stored overrides =
    let values = merged (values_of stored) overrides in
    elim (validate_limits (limits_in values) (keys_of overrides)) [
      | ok done ↦ ok values
      | err e ↦ err e
    ]

pub record SeriesMetaIn : Type 0 where
  pub id : String
  pub name : String
  pub unit : Option String
  pub kind : String
  pub expected_interval_ns : Option ℕ
  pub physical_min : Option Double
  pub physical_max : Option Double
  pub resolution : Option ℕ
  pub non_negative : Option Bool

-- `value or default` of a text.
abbrev pub text_or : Option String → String → String
text_or none default = default
text_or (some s) default = if is_empty s then default else s

unfoldable pub meta_for_core : (external_id : String) → Values → SeriesMetaIn
unfolding is_empty
meta_for_core external_id v = record {
  id = external_id;
  name = text_or v.name external_id;
  unit = v.unit;
  kind = text_or v.kind "measurement";
  expected_interval_ns = v.expected_interval_ns;
  physical_min = v.physical_min;
  physical_max = v.physical_max;
  resolution = v.resolution;
  non_negative = v.non_negative;
}
