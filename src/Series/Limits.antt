-- ===== src/Series/Limits.antt =====
-- The bands of a series (`validate_limits` of api/src/tabayyun/services/series.py).
use tabayyun.Prelude.{
  ℕ, Bool, false, Option, some, String, List, if◌then◌else◌, str_eq, leb, ltb, any, Outcome, ok,
  err,
}
use tabayyun.Series.Tables.{Double, real, Series, MetadataError}

pub record Limits : Type 0 where
  pub physical_min : Option Double
  pub physical_max : Option Double
  pub operational_min : Option Double
  pub operational_max : Option Double

abbrev pub limits_of : Series → Limits
limits_of s = record {
  physical_min = s.physical_min;
  physical_max = s.physical_max;
  operational_min = s.operational_min;
  operational_max = s.operational_max;
}

-- The error with `blame(*fields)` of two fields.
unfoldable pub blame : List String → String → String → (message : String) → MetadataError
unfolding any
blame changed a b message = record {
  field = if any (str_eq a) changed then a else b;
  message = message;
}

-- Whether both values are there and a comparison holds of them; none holds of NaN.
abbrev pub both : (ℕ → ℕ → Bool) → Option Double → Option Double → Bool
both test (some (real a)) (some (real b)) = test a b
both test _ _ = false

unfoldable pub validate_limits : Limits → (changed : List String) → Outcome MetadataError (Unit {0})
unfolding blame
validate_limits v changed =
    if both (λ min max. leb max min) v.physical_min v.physical_max
    then err (blame changed "physical_max" "physical_min" "physical_min must be below physical_max")
    else if both (λ min max. leb max min) v.operational_min v.operational_max
    then err (
        blame changed "operational_max" "operational_min"
          "operational_min must be below operational_max")
    else if both ltb v.operational_min v.physical_min
    then err (blame changed "operational_min" "physical_min" "operational band below physical_min")
    else if both (λ o p. ltb p o) v.operational_max v.physical_max
    then err (blame changed "operational_max" "physical_max" "operational band above physical_max")
    else if both (λ o p. ltb p o) v.operational_min v.physical_max
    then err (blame changed "operational_min" "physical_max" "operational band above physical_max")
    else if both ltb v.operational_max v.physical_min
    then err (blame changed "operational_max" "physical_min" "operational band below physical_min")
    else ok tt
