-- ===== src/Series/Apply.antt =====
-- `apply` (api/src/tabayyun/services/source_metadata.py).
use tabayyun.Prelude.{
  ℕ, Bool, not, Option, none, some, String, List, [], ◌∷◌, ◌++◌, select, ok, err,
}
use Prim.Native.String.{◌++◌ as append_text}
use tabayyun.Series.Tables.{object, Blob, Series}
use tabayyun.Series.Limits.{limits_of}
use tabayyun.Series.Patch.{validate_blob}
use tabayyun.Series.Import.{
  PointMetadata, Columns, Applied, candidates, want, wanted_limits, fitting_limits, changed_columns,
  name_if, set_columns, put_key, blob_of, same_dict, not_imported_at, previous_of,
}

-- The columns that the import sets, and what it skips.
unfoldable pub wanted_columns : (overwrite : Bool) → PointMetadata → Series → Columns × List String
unfolding candidates wanted_limits fitting_limits
wanted_columns overwrite meta s =
    let (offered, dropped) = candidates meta in
    let (limits, why) =
      fitting_limits (limits_of s) (wanted_limits overwrite (limits_of s) offered.limits) in
    (
      record {
        unit = want overwrite s.unit offered.unit;
        limits = limits;
        asset_path = want overwrite s.asset_path offered.asset_path;
      },
      dropped ++ why,
    )

module _ (json_bytes : Blob → ℕ) (dict_of : String → Option (List (String × String)))
    (quoted : String → String) (isoformat : ℕ → String) where
  -- The blob: what it adds to the result, and the series with it.
  unfoldable pub store_blob :
      (source_type : String)
      → PointMetadata
      → (now : ℕ) → (previous : List (String × String)) → Applied
      → Series
      → Applied × Series
  unfolding blob_of put_key validate_blob same_dict select
  store_blob source_type meta now previous result s =
      let blob = blob_of quoted isoformat meta now in
      let candidate = put_key source_type (object blob) s.metadata in
      let same = same_dict (select not_imported_at previous) (select not_imported_at blob) in
      elim (validate_blob json_bytes candidate) [
        | err e ↦ (
          record {
            changed = result.changed;
            skipped = result.skipped ++ append_text "metadata: " e.message ∷ [];
          },
          s,
        )
        | ok done ↦ (
          record {
            changed = result.changed ++ name_if "metadata" (not same);
            skipped = result.skipped;
          },
          record s { metadata = candidate },
        )
      ]

  -- Nothing where `dict()` raises, which ends the import of all series.
  unfoldable pub apply :
      Series
      → PointMetadata
      → (source_type : String) → (overwrite : Bool) → (now : ℕ) → Option (Applied × Series)
  unfolding wanted_columns changed_columns set_columns previous_of store_blob
  apply s meta source_type overwrite now =
      let (wanted, skipped) = wanted_columns overwrite meta s in
      let result : Applied = record { changed = changed_columns wanted s; skipped = skipped } in
      elim (previous_of dict_of source_type s.metadata) [
        | none ↦ none
        | some previous ↦
            some (store_blob source_type meta now previous result (set_columns wanted s))
      ]
