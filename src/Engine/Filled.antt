-- ===== src/Engine/Filled.antt =====
-- A fetch that succeeds fills its window (api/src/tabayyun/services/fetches.py).
use Prim.Native.Nat.{◌-◌, ◌*◌}
use tabayyun.Prelude.{
  ℕ, ◌≡◌, refl, ap, ◌∙◌, ◌<◌, Bool, true, false, ◌&&◌, ◌||◌, Option, none, some, String, str_eq,
  ◌⊎◌, List, [], ◌∷◌, ◌==◌, any, first, arith, Outcome, Bool-cases, Outcome-cases, inl, inr,
}
use tabayyun.Fetch.Instants.{datetime_to_ns}
use tabayyun.Fetch.Coverage.{holds, covered_ranges, missing_ranges}
use tabayyun.Fetch.Gaps.{missing_ranges-holds}
use tabayyun.Fetch.Cached.{any-covered_ranges}
use tabayyun.Fetch.Plan.{PointRef, second_ns}
use tabayyun.Engine.Tables.{Source, Series, SourceFetch, FetchStatus, Store, budget_spent}
use tabayyun.Engine.Prepare.{Stop, Connector, Loaded, is_wanted, prepare}
use tabayyun.Engine.Call.{FetchOutcome, Turn}
use tabayyun.Engine.Execute.{
  new_outcome, run_calls, ended_with, note_points, outcome_of, finish, execute_fetch,
}
use tabayyun.Engine.Covers.{is_cached}
use tabayyun.Engine.Calls.{asks_for, run_calls_cached}
use tabayyun.Engine.Planned.{Builds, prepare-Planned, Planned-asks}

finish-coverage :
    (fetch_id now : ℕ) (o : FetchOutcome) (s : Store)
    → (finish fetch_id now o s).coverage ≡ s.coverage
unfolding finish
finish-coverage fetch_id now o s = ground arith

-- Only a loop that ran to its end without a failed point counts as success.
outcome_of-succeeded :
    (with_points : ℕ → String → String) (why : Option Stop) (o : FetchOutcome)
    → (note_points with_points (ended_with why o)).status ≡ FetchStatus.succeeded
    → (why ≡ none) × (o.point_errors ≡ [])
unfolding note_points
outcome_of-succeeded with_points none o e = go o.point_errors refl
  where
    go :
        (errors : List (ℕ × String))
        → o.point_errors ≡ errors
        → (◌≡◌ {A = Option Stop} none none) × (o.point_errors ≡ [])
    go [] k = (refl, k)
    go (x ∷ xs) k = absurd (cc (rw k at e))
outcome_of-succeeded with_points (some x) o e =
    absurd (go o.point_errors refl (Bool-cases (x.retryable || str_eq x.message budget_spent)))
  where
    go :
        (errors : List (ℕ × String))
        → o.point_errors ≡ errors
        → ((x.retryable || str_eq x.message budget_spent) ≡ true)
          ⊎ ((x.retryable || str_eq x.message budget_spent) ≡ false)
        → ⊥
    go [] k (inl b) = cc (rw (k, b) at e)
    go [] k (inr b) = cc (rw (k, b) at e)
    go (y ∷ ys) k (inl b) = cc (rw (k, b) at e)
    go (y ∷ ys) k (inr b) = cc (rw (k, b) at e)

module _ (by_external : Series → Series → Bool) (by_id : PointRef → PointRef → Bool)
    (load : Source → Loaded) (build : Source → Option String → Outcome String Connector)
    (with_points : ℕ → String → String) (has_cache : Bool) (turns : ℕ → Turn)
    (fetch_id started ended settle_s : ℕ) (store after : Store) (fetch : SourceFetch)
    (s : Series) where
  -- A fetch that ends as succeeded, of whatever calls, leaves no gap in its window: of each series
  -- that it is over, every instant of the window that had settled at each of its calls is cached. The
  -- connectors have positive limits, as their configs are checked to have, and one settle time.
  pub execute_fetch-filled :
      (outcome : FetchOutcome) (t : ℕ)
      → Builds build settle_s
      → first (λ f. f.id == fetch_id) store.fetches ≡ some fetch
      → first (λ r. is_wanted fetch r && r.id == s.id) store.series ≡ some s
      → holds t (datetime_to_ns fetch.window_start, datetime_to_ns fetch.window_end) ≡ true
      → ((n : ℕ) → t < datetime_to_ns (turns n).now - settle_s * second_ns)
      → execute_fetch by_external by_id load build with_points has_cache turns fetch_id started
          ended store
        ≡ (some outcome, after)
      → outcome.status ≡ FetchStatus.succeeded
      → any (holds t) (
          missing_ranges
            (covered_ranges s.id "raw" after.coverage)
            (datetime_to_ns fetch.window_start)
            (datetime_to_ns fetch.window_end))
        ≡ false
  unfolding execute_fetch
  execute_fetch-filled outcome t b there mine inside settled e good =
      elim (Outcome-cases (prepare by_external by_id load build true fetch_id started store)) [
        | inr (x, k) ↦ absurd (cc (rw (k, execute_fetch) at e))
        | inl ((none, same), k) ↦ absurd (cc (rw (k, execute_fetch) at e))
        | inl ((some plan, claimed), k) ↦
            let ran =
              run_calls has_cache turns plan fetch_id 0 plan.calls (new_outcome FetchStatus.running)
                claimed in
            let ended_as = rw (k, execute_fetch) at e in
            let same_outcome : outcome_of with_points ran ≡ outcome = ground (arith, ended_as) in
            let same_after : finish fetch_id ended (outcome_of with_points ran) ran.store ≡ after =
              ap (λ p. p.1) ended_as in
            let (why, quiet) =
              outcome_of-succeeded with_points ran.why ran.outcome
                (ap (λ o. o.status) same_outcome ∙ good) in
            let (planned, kept) =
              prepare-Planned by_external by_id load build fetch fetch_id started store claimed plan
                there k in
            let settles : plan.settle_ns ≡ settle_s * second_ns =
              planned.settle
              ∙ ap (λ n. n * second_ns)
                  (b.settle planned.source planned.credentials planned.connector planned.built) in
            let (fills, before) =
              run_calls_cached t s.id plan fetch_id has_cache turns (λ n. rw settles (settled n)) 0
                plan.calls (new_outcome FetchStatus.running) claimed why quiet in
            let asked : (is_cached t s.id claimed.coverage || any (asks_for t s.id) plan.calls)
                ≡ true =
              elim (Bool-cases (is_cached t s.id store.coverage)) [
                | inl h ↦ rw (kept, h) refl
                | inr h ↦
                    let wanted =
                      Planned-asks by_external by_id load build settle_s t s fetch store plan b
                        planned mine inside h in
                    ground (arith, wanted)
              ] in
            let cached : is_cached t s.id after.coverage ≡ true =
              rw
                (
                  ← same_after,
                  finish-coverage fetch_id ended (outcome_of with_points ran) ran.store,
                )
                (fills asked) in
            missing_ranges-holds (covered_ranges s.id "raw" after.coverage)
              (datetime_to_ns fetch.window_start) (datetime_to_ns fetch.window_end) t
            ∙ rw (any-covered_ranges t s.id "raw" after.coverage) (ground (arith, cached))
      ]
