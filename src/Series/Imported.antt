-- ===== src/Series/Imported.antt =====
-- Nested bands through the import into the series of a source (`_describe` of
-- api/src/tabayyun/services/fetches.py).
use tabayyun.Prelude.{
  ℕ, ◌≡◌, subst, Bool, Option, some, String, List, [], ◌∷◌, first, update, length, first-All,
  All-update, All, map, Bool-cases, Outcome, ok, Outcome-cases, Option-cases, inl, inr,
}
use tabayyun.Fetch.Plan.{PointRef}
use tabayyun.Engine.Prepare.{Stop}
use tabayyun.Series.Tables.{Blob, Series, Store}
use tabayyun.Series.Bands.{HasBands, AllNested}
use tabayyun.Series.Apply.{apply}
use tabayyun.Series.Filled.{apply-IsImported_loaded}
use tabayyun.Series.Describe.{
  PointDescription, ImportResult, is_series, describe_points, import_one, import_all,
  describe_source, same_row, flushed, flushed_from,
}

flushed_from-HasBands :
    (db_now : ℕ) (loaded : List Series) (y : Series)
    → HasBands y
    → HasBands (flushed_from db_now loaded y)
unfolding flushed
flushed_from-HasBands db_now loaded y n = elim (Option-cases (first (is_series y.id) loaded)) [
  | inl e ↦ rw (e, flushed_from) n
  | inr (s, e) ↦ elim (Bool-cases (same_row s y)) [
    | inl k ↦ rw (e, flushed_from, k, flushed) n
    | inr k ↦ rw (e, flushed_from, k, flushed) n
  ]
]

flush-All :
    (db_now : ℕ) (loaded ys : List Series)
    → All HasBands ys
    → All HasBands (map (flushed_from db_now loaded) ys)
flush-All db_now loaded [] n = tt
flush-All db_now loaded (y ∷ ys) n =
    (flushed_from-HasBands db_now loaded y n.0, flush-All db_now loaded ys n.1)

module _ (json_bytes : Blob → ℕ) (dict_of : String → Option (List (String × String)))
    (quoted : String → String) (isoformat : ℕ → String) (source_type : String) (overwrite : Bool)
    (now : ℕ) where
  import_one-AllNested :
      (d : PointDescription) (r r' : ImportResult) (s t : Store)
      → import_one json_bytes dict_of quoted isoformat source_type overwrite now d r s
        ≡ some (r', t)
      → AllNested s
      → AllNested t
  unfolding import_one
  import_one-AllNested d r r' s t h n = elim (Option-cases d.metadata) [
    | inl e ↦ let same : s ≡ t = cc (rw (e, import_one) at h) in subst AllNested same n
    | inr (meta, e) ↦
        let is_it = is_series d.series_id in
        elim (Option-cases (first is_it s.series)) [
          | inl f ↦ let same : s ≡ t = cc (rw (e, f, import_one) at h) in subst AllNested same n
          | inr (x, f) ↦
              elim (Option-cases
                (apply json_bytes dict_of quoted isoformat x meta source_type overwrite now)) [
                  | inl k ↦ absurd (cc (rw (e, f, k, import_one) at h))
                  | inr ((a, y), k) ↦
                      let same : record s { series = update is_it (λ z. y) s.series } ≡ t =
                        cc (rw (e, f, k, import_one) at h) in
                      let imported =
                        apply-IsImported_loaded json_bytes dict_of quoted isoformat x meta
                          source_type overwrite now a y k in
                      subst AllNested same (
                        All-update HasBands is_it (λ z. y) s.series
                          (λ z l b. imported.0.nested (first-All HasBands is_it s.series x n f)) n)
                ]
        ]
  ]

  import_all-AllNested :
      (ds : List PointDescription) (r r' : ImportResult) (s t : Store)
      → import_all json_bytes dict_of quoted isoformat source_type overwrite now ds r s
        ≡ some (r', t)
      → AllNested s
      → AllNested t
  unfolding import_all
  import_all-AllNested [] r r' s t h n = let same : s ≡ t = cc (h) in subst AllNested same n
  import_all-AllNested (d ∷ ds) r r' s t h n =
      elim (Option-cases
        (import_one json_bytes dict_of quoted isoformat source_type overwrite now d r s)) [
          | inl e ↦ absurd (cc (rw (e, import_all) at h))
          | inr ((r1, u), e) ↦
              import_all-AllNested ds r1 r' u t (rw (e, import_all) at h)
                (import_one-AllNested d r r1 s u e n)
        ]

  pub describe_source-AllNested :
      (describe : List PointRef → Outcome Stop (List PointDescription)) (chunk : ℕ)
      (refs : List PointRef) (db_now : ℕ) (s t : Store) (r : ImportResult)
      → describe_source json_bytes dict_of quoted isoformat source_type overwrite now describe chunk
          refs db_now s
        ≡ ok (r, t)
      → AllNested s
      → AllNested t
  unfolding describe_source
  describe_source-AllNested describe chunk refs db_now s t r h n =
      elim (Outcome-cases (describe_points describe chunk (length refs) refs)) [
        | inr (x, e) ↦ absurd (cc (rw (e, describe_source) at h))
        | inl (ds, e) ↦
            let start : ImportResult = record {
              updated = 0;
              unchanged = 0;
              failed = 0;
              per_series = [];
            } in
            elim (Option-cases (
              import_all json_bytes dict_of quoted isoformat source_type overwrite now ds start
                s)) [
                  | inl k ↦ absurd (cc (rw (e, k, describe_source) at h))
                  | inr ((r1, u), k) ↦
                      let same : record u { series = map (flushed_from db_now s.series) u.series }
                          ≡ t =
                        cc (rw (e, k, describe_source) at h) in
                      subst AllNested same (
                        flush-All db_now s.series u.series
                          (import_all-AllNested ds start r1 s u k n))
                ]
      ]
