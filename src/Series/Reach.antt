-- ===== src/Series/Reach.antt =====
-- What the bands of all series have in common, whatever is uploaded, patched and imported
-- (api/src/tabayyun/services/series.py, services/source_metadata.py).
use tabayyun.Prelude.{
  Outcome, ℕ, ◌≡◌, refl, sym, subst, Bool, true, false, Option, none, some, String, List, [], ◌∷◌,
  ◌++◌, ◌==◌, first, update, any, All, All-append, All-update, first-All, ok, Outcome-cases,
  Option-cases, inl, inr, map, if◌then◌else◌,
}
use tabayyun.Authz.Roles.{Scope}
use tabayyun.Db.{Host}
use tabayyun.Series.Tables.{Blob, Series, Store}
use tabayyun.Series.Limits.{limits_of, validate_limits}
use tabayyun.Series.Bands.{IsNested, HasBands, AllNested, validate_limits_iff}
use tabayyun.Series.Values.{Overrides, values_of, limits_in, merged, keys_of}
use tabayyun.Series.Uploads.{
  saved, is_stored, add_source, add_series, new_series, save_upload, uploads_source_id,
  upsert_upload_series,
}
use tabayyun.Fetch.Plan.{PointRef}
use tabayyun.Engine.Prepare.{Stop}
use tabayyun.Series.Import.{no_limits}
use tabayyun.Series.Describe.{PointDescription, ImportResult, describe_source}
use tabayyun.Series.Imported.{describe_source-AllNested}
use tabayyun.Series.Patch.{
  Edit, set_name, set_unit, set_kind, set_asset_path, set_expected_interval_ns, set_resolution,
  set_physical_min, set_physical_max, set_operational_min, set_operational_max, set_non_negative,
  set_metadata, set_unknown, blob, not_object, field_of, check_edits, check_metadata, check_changes,
  edited_limits, edit, edit_all, is_at, patch_series,
}

pub no_limits-IsNested : IsNested no_limits
no_limits-IsNested = record {
  physical = λ a b e f. absurd (cc);
  operational = λ a b e f. absurd (cc);
  min_above = λ a b e f. absurd (cc);
  max_below = λ a b e f. absurd (cc);
  min_below = λ a b e f. absurd (cc);
  max_above = λ a b e f. absurd (cc);
}

-- The limits of a patched series.
limits_of-edit_all :
    (es : List Edit) (s : Series) → limits_of (edit_all es s) ≡ edited_limits es (limits_of s)
unfolding edit_all edited_limits edit
limits_of-edit_all [] s = refl
limits_of-edit_all (set_name none ∷ es) s = limits_of-edit_all es s
limits_of-edit_all (set_name (some x) ∷ es) s = limits_of-edit_all es (record s { name = x })
limits_of-edit_all (set_unit x ∷ es) s = limits_of-edit_all es (record s { unit = x })
limits_of-edit_all (set_kind none ∷ es) s = limits_of-edit_all es s
limits_of-edit_all (set_kind (some x) ∷ es) s = limits_of-edit_all es (record s { kind = x })
limits_of-edit_all (set_asset_path x ∷ es) s = limits_of-edit_all es (record s { asset_path = x })
limits_of-edit_all (set_expected_interval_ns x ∷ es) s =
    limits_of-edit_all es (record s { expected_interval_ns = x })
limits_of-edit_all (set_resolution x ∷ es) s = limits_of-edit_all es (record s { resolution = x })
limits_of-edit_all (set_physical_min x ∷ es) s =
    limits_of-edit_all es (record s { physical_min = x })
limits_of-edit_all (set_physical_max x ∷ es) s =
    limits_of-edit_all es (record s { physical_max = x })
limits_of-edit_all (set_operational_min x ∷ es) s =
    limits_of-edit_all es (record s { operational_min = x })
limits_of-edit_all (set_operational_max x ∷ es) s =
    limits_of-edit_all es (record s { operational_max = x })
limits_of-edit_all (set_non_negative x ∷ es) s =
    limits_of-edit_all es (record s { non_negative = x })
limits_of-edit_all (set_metadata none ∷ es) s = limits_of-edit_all es s
limits_of-edit_all (set_metadata (some (blob b)) ∷ es) s =
    limits_of-edit_all es (record s { metadata = b })
limits_of-edit_all (set_metadata (some not_object) ∷ es) s = limits_of-edit_all es s
limits_of-edit_all (set_unknown f ∷ es) s = limits_of-edit_all es s

-- Changes that pass their checks leave the bands nested.
check_changes-HasBands :
    (json_bytes : Blob → ℕ) (changes : List Edit) (s : Series)
    → check_changes json_bytes changes s ≡ ok tt
    → HasBands (edit_all changes s)
unfolding check_changes
check_changes-HasBands json_bytes changes s h = elim (Outcome-cases (check_edits changes)) [
  | inr (e, k) ↦ absurd (cc (rw (k, check_changes) at h))
  | inl (done, k) ↦ elim (Outcome-cases (check_metadata json_bytes changes)) [
    | inr (e, l) ↦ absurd (cc (rw (k, l, check_changes) at h))
    | inl (fits, l) ↦ subst IsNested (sym (limits_of-edit_all changes s)) (
        (validate_limits_iff (edited_limits changes (limits_of s)) (map field_of changes)).0
          (rw (k, l, check_changes) at h))
  ]
]

patch_series-AllNested :
    (json_bytes : Blob → ℕ) (scope : Scope) (series_id : ℕ) (changes : List Edit) (now : ℕ)
    (s t : Store) (r : Option Series)
    → patch_series json_bytes scope series_id changes now s ≡ ok (r, t)
    → AllNested s
    → AllNested t
unfolding patch_series
patch_series-AllNested json_bytes scope series_id changes now s t r h n =
    let at = is_at scope.workspace_id series_id in
    elim (Option-cases (first at s.series)) [
      | inl e ↦ let same : s ≡ t = cc (rw (e, patch_series) at h) in subst AllNested same n
      | inr (x, e) ↦ elim (Outcome-cases (check_changes json_bytes changes x)) [
        | inr (m, k) ↦ absurd (cc (rw (e, k, patch_series) at h))
        | inl (done, k) ↦
            let patched : Series = record (edit_all changes x) { updated_at = now } in
            let same : record s { series = update at (λ y. patched) s.series } ≡ t =
              cc (rw (e, k, patch_series) at h) in
            subst AllNested same (
              All-update HasBands at (λ y. patched) s.series
                (λ y i b. check_changes-HasBands json_bytes changes x k) n)
      ]
    ]

if-HasBands : (b : Bool) (x y : Series) → HasBands x → HasBands y → HasBands (if b then x else y)
if-HasBands true x y hx hy = hx
if-HasBands false x y hx hy = hy

saved-HasBands :
    (o : Overrides) (now : ℕ) (s : Series)
    → IsNested (limits_in (merged (values_of (some s)) o))
    → HasBands s
    → HasBands (saved o now s)
unfolding saved values_of
saved-HasBands o now s n h = if-HasBands _ _ s n h

save_upload-AllNested :
    (external_id : String) (o : Overrides) (now source_id : ℕ) (s t : Store) (r : Series)
    → save_upload external_id o now source_id s ≡ ok (r, t)
    → AllNested s
    → AllNested t
unfolding save_upload
save_upload-AllNested external_id o now source_id s t r h n =
    elim (Option-cases (first (is_stored source_id external_id) s.series)) [
      | inl e ↦ absurd (cc (rw (e, save_upload) at h))
      | inr (x, e) ↦
          let v = limits_in (merged (values_of (some x)) o) in
          elim (Outcome-cases (validate_limits v (keys_of o))) [
            | inr (m, k) ↦ absurd (cc (rw (e, k, save_upload) at h))
            | inl (done, k) ↦
                let kept =
                  saved-HasBands o now x ((validate_limits_iff v (keys_of o)).0 k)
                    (first-All HasBands (is_stored source_id external_id) s.series x n e) in
                let is_same = λ (y : Series). y.id == x.id in
                let same : record s { series = update is_same (λ y. saved o now x) s.series } ≡ t =
                  cc (rw (e, k, save_upload) at h) in
                subst AllNested same
                  (All-update HasBands is_same (λ y. saved o now x) s.series (λ y i b. kept) n)
          ]
    ]

if-All :
    (b : Bool) (xs : List Series) (x : Series)
    → All HasBands xs
    → HasBands x
    → All HasBands (if b then xs else xs ++ x ∷ [])
if-All true xs x h hx = h
if-All false xs x h hx = All-append HasBands xs (x ∷ []) h (hx, tt)

upsert_upload_series-AllNested :
    ⦃host : Host⦄ (scope : Scope) (external_id : String) (o : Overrides) (now db_now : ℕ)
    (s t : Store) (r : Series)
    → upsert_upload_series scope external_id o now db_now s ≡ ok (r, t)
    → AllNested s
    → AllNested t
unfolding upsert_upload_series add_source add_series
upsert_upload_series-AllNested scope external_id o now db_now s t r h n =
    let sourced = add_source scope s in
    elim (Option-cases (uploads_source_id scope sourced)) [
      | inl e ↦ absurd (cc (rw (e, upsert_upload_series) at h))
      | inr (source_id, e) ↦
          save_upload-AllNested external_id o now source_id
            (add_series scope source_id external_id db_now sourced) t r
            (rw (e, upsert_upload_series) at h)
            (if-All (any (is_stored source_id external_id) s.series) s.series
              (new_series scope source_id external_id db_now sourced.drawn) n no_limits-IsNested)
    ]

-- One operation on the stored series: a patch, an upload that is saved, or an import into those of a source.
pub data Step : Store → Store → Type 0 where
  patched :
      (json_bytes : Blob → ℕ) (scope : Scope) (series_id : ℕ) (changes : List Edit) (now : ℕ)
      (s t : Store) (r : Option Series)
      → patch_series json_bytes scope series_id changes now s ≡ ok (r, t)
      → Step s t
  uploaded :
      (host : Host) (scope : Scope) (external_id : String) (o : Overrides) (now db_now : ℕ)
      (s t : Store) (r : Series)
      → upsert_upload_series ⦃host = host⦄ scope external_id o now db_now s ≡ ok (r, t)
      → Step s t
  imported :
      (json_bytes : Blob → ℕ) (dict_of : String → Option (List (String × String)))
      (quoted : String → String) (isoformat : ℕ → String) (source_type : String) (overwrite : Bool)
      (now : ℕ) (describe : List PointRef → Outcome Stop (List PointDescription)) (chunk : ℕ)
      (refs : List PointRef) (db_now : ℕ) (s t : Store) (r : ImportResult)
      → describe_source json_bytes dict_of quoted isoformat source_type overwrite now describe chunk
          refs db_now s
        ≡ ok (r, t)
      → Step s t

Step-AllNested : (s t : Store) → Step s t → AllNested s → AllNested t
Step-AllNested s t (patched json_bytes scope series_id changes now _ _ r h) n =
    patch_series-AllNested json_bytes scope series_id changes now s t r h n
Step-AllNested s t (uploaded host scope external_id o now db_now _ _ r h) n =
    upsert_upload_series-AllNested ⦃host = host⦄ scope external_id o now db_now s t r h n
Step-AllNested s t
      (imported json_bytes dict_of quoted isoformat source_type overwrite now describe chunk refs
        db_now _ _ r h)
      n =
    describe_source-AllNested json_bytes dict_of quoted isoformat source_type overwrite now describe
      chunk refs db_now s t r h n

-- The stores that operations lead to, one after the other.
pub data Reach : Store → Store → Type 0 where
  stay : (s : Store) → Reach s s
  step : (s t u : Store) → Step s t → Reach t u → Reach s u

-- Whatever is patched, uploaded and imported, in whatever order, and whoever does it: if the limits that are
-- numbers are nested in every stored series, they still are behind it. A limit that is NaN bounds nothing,
-- whoever passes it.
pub Reach-AllNested : (s t : Store) → Reach s t → AllNested s → AllNested t
Reach-AllNested s t (stay _) n = n
Reach-AllNested s t (step _ u _ one rest) n = Reach-AllNested u t rest (Step-AllNested s u one n)
