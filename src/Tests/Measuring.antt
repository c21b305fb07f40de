-- ===== src/Tests/Measuring.antt =====
-- Runs of the code on series (api/src/tabayyun/services/series.py, services/source_metadata.py).
use tabayyun.Prelude.{ℕ, ◌≡◌, refl, false, ◌↔◌, Option, none, some, String, List, [], ◌∷◌, ok}
use tabayyun.Authz.Roles.{Scope}
use tabayyun.Series.Tables.{Blob, object, Series, Store}
use tabayyun.Series.Tables.{real, nan}
use tabayyun.Series.Limits.{Limits, limits_of, validate_limits}
use tabayyun.Series.Bands.{AllNested, IsNested, HasBands, validate_limits_iff}
use tabayyun.Series.Patch.{set_physical_max, patch_series}
use tabayyun.Series.Import.{PointMetadata, Applied}
use tabayyun.Series.Apply.{apply}
use tabayyun.Prelude.{map, Outcome, ok}
use tabayyun.Fetch.Plan.{PointRef}
use tabayyun.Engine.Prepare.{Stop}
use tabayyun.Prelude.{if◌then◌else◌}
use tabayyun.Series.Describe.{
  same_row, flushed, PointDescription, ImportResult, applied, describe_source,
}
use tabayyun.Series.Filled.{IsImported, apply-IsImported}
use tabayyun.Series.Reach.{stay, step, patched, imported, Reach-AllNested}

abbrev banded : Limits
banded = record {
  physical_min = some (real 10);
  physical_max = some (real 90);
  operational_min = some (real 20);
  operational_max = some nan;
}

validate_limits_iff_example : (validate_limits banded [] ≡ ok tt) ↔ IsNested banded
validate_limits_iff_example = validate_limits_iff banded []

abbrev measured : Series
measured = record {
  id = 7;
  org_id = 1;
  workspace_id = 2;
  source_id = 3;
  external_id = "ti-101";
  name = "ti-101";
  unit = some "bar";
  kind = "measurement";
  expected_interval_ns = none;
  physical_min = some (real 10);
  physical_max = none;
  operational_min = some (real 20);
  operational_max = none;
  resolution = none;
  non_negative = none;
  asset_path = none;
  metadata = [];
  updated_at = 0;
}

abbrev known : PointMetadata
known = record {
  unit = some "degC";
  description = none;
  physical_min = some (real 5);
  physical_max = some (real 90);
  operational_min = none;
  operational_max = some nan;
  asset_path = some " plant/a ";
  extra = ("ExcDev", some "1") ∷ [];
}

abbrev no_dict : String → Option (List (String × String))
no_dict text = none

abbrev plain : String → String
plain text = text

abbrev at_time : ℕ → String
at_time now = "now"

abbrev size : Blob → ℕ
size blob = 100

abbrev filled : Series
filled = record measured {
  physical_max = some (real 90);
  asset_path = some "plant/a";
  metadata = ("opc_ua", object (("ExcDev", "1") ∷ ("imported_at", "now") ∷ [])) ∷ [];
}

abbrev result : Applied
result = record {
  changed = "physical_max" ∷ "asset_path" ∷ "metadata" ∷ [];
  skipped = "operational_max: not a finite number" ∷ [];
}

apply-filled :
    apply size no_dict plain at_time measured known "opc_ua" false 9 ≡ some (result, filled)
unfolding apply
apply-filled = refl

apply-IsImported_example :
    IsImported false "opc_ua" measured (flushed 12 measured filled)
    × ((flushed 12 measured filled).updated_at
        ≡ (if same_row measured (flushed 12 measured filled) then 0 else 12))
apply-IsImported_example =
    apply-IsImported size no_dict plain at_time measured known "opc_ua" false 9 12 result filled
      apply-filled

abbrev scope : Scope
scope = record { org_id = 1; workspace_id = 2 }

abbrev before : Store
before = record { sources = []; series = measured ∷ []; drawn = 0 }

abbrev after : Store
after = record before { series = record filled { updated_at = 12 } ∷ [] }

abbrev lowered : Store
lowered = record before {
  series = record filled { physical_max = some (real 80); updated_at = 11 } ∷ [];
}

measured-valid : validate_limits (limits_of measured) [] ≡ ok tt
unfolding validate_limits
measured-valid = refl

measured-HasBands : HasBands measured
measured-HasBands = (validate_limits_iff (limits_of measured) []).0 measured-valid

-- A connector that knows the points it is asked for.
abbrev knows : List PointRef → Outcome Stop (List PointDescription)
knows refs =
    ok (map (λ r. record { series_id = r.series_id; metadata = some known; error = none }) refs)

abbrev asked : List PointRef
asked = record { series_id = 7; external_id = "ti-101" } ∷ []

abbrev imported_one : ImportResult
imported_one = record {
  updated = 1;
  unchanged = 0;
  failed = 0;
  per_series = (7, applied result) ∷ [];
}

describe_one :
    describe_source size no_dict plain at_time "opc_ua" false 9 knows 100 asked 12 before
    ≡ ok (imported_one, after)
unfolding describe_source
describe_one = refl

patch_lowered :
    patch_series size scope 7 (set_physical_max (some (real 80)) ∷ []) 11 after
    ≡ ok (some (record filled { physical_max = some (real 80); updated_at = 11 }), lowered)
unfolding patch_series
patch_lowered = refl

Reach-AllNested_example : AllNested lowered
Reach-AllNested_example =
    Reach-AllNested before lowered
      (step before after lowered
        (imported size no_dict plain at_time "opc_ua" false 9 knows 100 asked 12 before after
          imported_one describe_one)
        (step after lowered lowered
          (patched size scope 7 (set_physical_max (some (real 80)) ∷ []) 11 after lowered _
            patch_lowered)
          (stay lowered)))
      (measured-HasBands, tt)
