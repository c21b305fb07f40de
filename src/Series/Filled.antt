-- ===== src/Series/Filled.antt =====
-- What an import does to a series (`apply` of api/src/tabayyun/services/source_metadata.py).
use tabayyun.Prelude.{
  ℕ, ◌≡◌, ◌≢◌, refl, sym, subst, ap, ◌∙◌, Bool, true, false, Option, none, some, String, List, [],
  ◌∷◌, str_eq, str_eq_iff, if◌then◌else◌, Outcome-cases, Option-cases, Bool-cases, ◌⊎◌, inl, inr,
  is_some,
}
use tabayyun.Series.Tables.{Double, Json, object, Blob, Series}
use tabayyun.Series.Limits.{Limits, limits_of, validate_limits}
use tabayyun.Series.Bands.{IsNested, HasBands, validate_limits_iff}
use tabayyun.Series.Values.{over}
use tabayyun.Series.Patch.{validate_blob}
use tabayyun.Series.Import.{
  PointMetadata, Columns, Applied, want, wanted_limits, merged_limits, limit_keys, no_limits,
  fitting_limits, candidates, set_columns, changed_columns, put_key, get_key, blob_of, previous_of,
}
use tabayyun.Series.Describe.{same_row, flushed}
use tabayyun.Series.Apply.{wanted_columns, store_blob, apply}

-- A column that has a value still has one, and the same one unless the import may overwrite.
abbrev pub Fills : {A : Type 0} → (overwrite : Bool) → (old new : Option A) → Type 0
Fills overwrite old new =
    (a : _) → old ≡ some a → (is_some new ≡ true) × (overwrite ≡ false → new ≡ some a)

-- An import touches the columns that it may fill, one key of the metadata and `updated_at`, and nothing else.
pub record IsImported (overwrite : Bool) (source_type : String) (s y : Series) : Type 0 where
  pub unit : Fills overwrite s.unit y.unit
  pub physical_min : Fills overwrite s.physical_min y.physical_min
  pub physical_max : Fills overwrite s.physical_max y.physical_max
  pub operational_min : Fills overwrite s.operational_min y.operational_min
  pub operational_max : Fills overwrite s.operational_max y.operational_max
  pub asset_path : Fills overwrite s.asset_path y.asset_path
  pub metadata :
      (key : String) → key ≢ source_type → get_key key y.metadata ≡ get_key key s.metadata
  pub nested : HasBands s → HasBands y
  pub others : y ≡ record s {
    unit = y.unit;
    physical_min = y.physical_min;
    physical_max = y.physical_max;
    operational_min = y.operational_min;
    operational_max = y.operational_max;
    asset_path = y.asset_path;
    metadata = y.metadata;
    updated_at = y.updated_at;
  }

want-Fills :
    {A : Type 0} (overwrite : Bool) (old new : Option A)
    → Fills overwrite old (over (want overwrite old new) old)
want-Fills overwrite none new a e = absurd (cc)
want-Fills true (some b) none a e = (refl, λ f. e)
want-Fills true (some b) (some c) a e = (refl, λ f. absurd (cc))
want-Fills false (some b) new a e = (refl, λ f. e)

stays-Fills : {A : Type 0} (overwrite : Bool) (old : Option A) → Fills overwrite old old
stays-Fills overwrite none a e = absurd (cc)
stays-Fills overwrite (some b) a e = (refl, λ f. e)

-- The wanted limits stay all or none.
fitting_limits-cases :
    (current wanted : Limits)
    → ((fitting_limits current wanted).0 ≡ wanted) ⊎ ((fitting_limits current wanted).0 ≡ no_limits)
unfolding fitting_limits
fitting_limits-cases current wanted =
    elim (Outcome-cases (validate_limits (merged_limits current wanted) (limit_keys wanted))) [
      | inl (done, k) ↦ inl (rw (k, fitting_limits) refl)
      | inr (e, k) ↦ inr (rw (k, fitting_limits) refl)
    ]

fitting_limits-IsNested :
    (current wanted : Limits)
    → IsNested current
    → IsNested (merged_limits current (fitting_limits current wanted).0)
unfolding fitting_limits merged_limits
fitting_limits-IsNested current wanted n =
    elim (Outcome-cases (validate_limits (merged_limits current wanted) (limit_keys wanted))) [
      | inl (done, k) ↦
          let nested =
            (validate_limits_iff (merged_limits current wanted) (limit_keys wanted)).0 k in
          rw (k, fitting_limits) nested
      | inr (e, k) ↦ rw (k, fitting_limits) n
    ]

str_eq-false : (a b : String) → b ≢ a → str_eq a b ≡ false
str_eq-false a b n = elim (Bool-cases (str_eq a b)) [
  | inl e ↦ absurd (n (sym ((str_eq_iff a b).0 e)))
  | inr e ↦ e
]

-- A key beside the one that is put.
get_key-put_key :
    {V : Type 0} (k j : String) (v : V) (d : List (String × V))
    → k ≢ j
    → get_key k (put_key j v d) ≡ get_key k d
unfolding get_key put_key
get_key-put_key k j v [] n = rw (str_eq-false j k n) refl
get_key-put_key k j v ((i, w) ∷ d) n = elim (Bool-cases (str_eq i j)) [
  | inl e ↦
      let same : str_eq i k ≡ str_eq j k = ap (λ x. str_eq x k) ((str_eq_iff i j).0 e) in
      rw (e, same, str_eq-false j k n) refl
  | inr e ↦ rw e (ap (λ r. if str_eq i k then some w else r) (get_key-put_key k j v d n))
]

module _ (json_bytes : Blob → ℕ) (dict_of : String → Option (List (String × String)))
    (quoted : String → String) (isoformat : ℕ → String) where
  -- Storing the blob changes the metadata at its key, or nothing.
  store_blob-cases :
      (source_type : String) (meta : PointMetadata) (now : ℕ) (previous : List (String × String))
      (result : Applied) (s : Series)
      → let fields = blob_of quoted isoformat meta now in
        let after =
          (store_blob json_bytes dict_of quoted isoformat source_type meta now previous result
            s).1 in
        (after ≡ s)
        ⊎ (after ≡ record s { metadata = put_key source_type (object fields) s.metadata })
  unfolding store_blob
  store_blob-cases source_type meta now previous result s =
      let candidate = put_key source_type (object (blob_of quoted isoformat meta now)) s.metadata in
      elim (Outcome-cases (validate_blob json_bytes candidate)) [
        | inl (done, k) ↦ inr (rw (k, store_blob) refl)
        | inr (e, k) ↦ inl (rw (k, store_blob) refl)
      ]

set_columns-IsImported :
    (overwrite : Bool) (source_type : String) (meta : PointMetadata) (s : Series)
    → IsImported overwrite source_type s (set_columns (wanted_columns overwrite meta s).0 s)
unfolding wanted_columns set_columns wanted_limits merged_limits
set_columns-IsImported overwrite source_type meta s =
    let offered = (candidates meta).0 in
    let current = limits_of s in
    let wanted = wanted_limits overwrite current offered.limits in
    let nested = fitting_limits-IsNested current wanted in
    let w : Columns = record {
      unit = want overwrite s.unit offered.unit;
      limits = (fitting_limits current wanted).0;
      asset_path = want overwrite s.asset_path offered.asset_path;
    } in
    let limit =
      λ (get : Limits → Option Double)
          (full : Fills overwrite (get current) (over (get wanted) (get current)))
          (none_left : over (get no_limits) (get current) ≡ get current).
        elim (fitting_limits-cases current wanted)
          as (λ c.
            Fills overwrite (get current)
              (over (get (fitting_limits current wanted).0) (get current))) [
                | inl e ↦ rw e full
                | inr e ↦ rw (e, none_left) (stays-Fills overwrite (get current))
              ] in
    record {
      unit = want-Fills overwrite s.unit offered.unit;
      physical_min =
          limit (λ v. v.physical_min)
            (want-Fills overwrite s.physical_min offered.limits.physical_min) refl;
      physical_max =
          limit (λ v. v.physical_max)
            (want-Fills overwrite s.physical_max offered.limits.physical_max) refl;
      operational_min =
          limit (λ v. v.operational_min)
            (want-Fills overwrite s.operational_min offered.limits.operational_min) refl;
      operational_max =
          limit (λ v. v.operational_max)
            (want-Fills overwrite s.operational_max offered.limits.operational_max) refl;
      asset_path = want-Fills overwrite s.asset_path offered.asset_path;
      metadata = λ key n. refl;
      nested = nested;
      others = refl;
    }

put_key-IsImported :
    (overwrite : Bool) (source_type : String) (v : Json) (s y : Series)
    → IsImported overwrite source_type s y
    → IsImported overwrite source_type s (record y { metadata = put_key source_type v y.metadata })
put_key-IsImported overwrite source_type v s y i = record {
  unit = i.unit;
  physical_min = i.physical_min;
  physical_max = i.physical_max;
  operational_min = i.operational_min;
  operational_max = i.operational_max;
  asset_path = i.asset_path;
  metadata = λ key n. get_key-put_key key source_type v y.metadata n ∙ i.metadata key n;
  nested = i.nested;
  others = ap (λ (z : Series). record z { metadata = put_key source_type v y.metadata }) i.others;
}

at_time-IsImported :
    (overwrite : Bool) (source_type : String) (db_now : ℕ) (s y : Series)
    → IsImported overwrite source_type s y
    → IsImported overwrite source_type s (record y { updated_at = db_now })
at_time-IsImported overwrite source_type db_now s y i = record {
  unit = i.unit;
  physical_min = i.physical_min;
  physical_max = i.physical_max;
  operational_min = i.operational_min;
  operational_max = i.operational_max;
  asset_path = i.asset_path;
  metadata = i.metadata;
  nested = i.nested;
  others = ap (λ (z : Series). record z { updated_at = db_now }) i.others;
}

module _ (json_bytes : Blob → ℕ) (dict_of : String → Option (List (String × String)))
    (quoted : String → String) (isoformat : ℕ → String) where
  -- The series in memory, before it is flushed.
  pub apply-IsImported_loaded :
      (s : Series) (meta : PointMetadata) (source_type : String) (overwrite : Bool) (now : ℕ)
      (a : Applied) (y : Series)
      → apply json_bytes dict_of quoted isoformat s meta source_type overwrite now ≡ some (a, y)
      → IsImported overwrite source_type s y × (y.updated_at ≡ s.updated_at)
  unfolding apply set_columns
  apply-IsImported_loaded s meta source_type overwrite now a y h =
      let (w, skipped) = wanted_columns overwrite meta s in
      let set = set_columns w s in
      let Loaded =
        λ (z : Series). IsImported overwrite source_type s z × (z.updated_at ≡ s.updated_at) in
      let imported = set_columns-IsImported overwrite source_type meta s in
      let result : Applied = record { changed = changed_columns w s; skipped = skipped } in
      elim (Option-cases (previous_of dict_of source_type s.metadata)) [
        | inl e ↦ absurd (cc (rw (e, apply) at h))
        | inr (previous, e) ↦
            let after =
              store_blob json_bytes dict_of quoted isoformat source_type meta now previous result
                set in
            let same : after ≡ (a, y) = cc (rw (e, apply) at h) in
            elim (store_blob-cases json_bytes dict_of quoted isoformat source_type meta now previous
              result set) [
                | inl k ↦ subst Loaded (sym k ∙ ap (λ r. r.1) same) (imported, refl)
                | inr k ↦ subst Loaded (sym k ∙ ap (λ r. r.1) same) (
                  put_key-IsImported overwrite source_type
                      (object (blob_of quoted isoformat meta now)) s set imported,
                  refl,
                )
              ]
      ]

  -- An import that goes through, once its series is flushed, has kept the value of every column that had one,
  -- unless it may overwrite, and has cleared none; of the metadata it has touched no other key than the
  -- source's type, and of the other fields none but `updated_at`, which is the database's time if a column or
  -- the metadata changed and stays otherwise; and nested bands have stayed nested.
  pub apply-IsImported :
      (s : Series) (meta : PointMetadata) (source_type : String) (overwrite : Bool) (now db_now : ℕ)
      (a : Applied) (y : Series)
      → apply json_bytes dict_of quoted isoformat s meta source_type overwrite now ≡ some (a, y)
      → let z = flushed db_now s y in
        IsImported overwrite source_type s z
        × (z.updated_at ≡ (if same_row s z then s.updated_at else db_now))
  unfolding flushed same_row
  apply-IsImported s meta source_type overwrite now db_now a y h =
      let (i, stays) = apply-IsImported_loaded s meta source_type overwrite now a y h in
      elim (Bool-cases (same_row s y)) [
        | inl k ↦ rw (k, flushed) (i, rw k stays)
        | inr k ↦ rw (k, flushed) (at_time-IsImported overwrite source_type db_now s y i, rw k refl)
      ]
