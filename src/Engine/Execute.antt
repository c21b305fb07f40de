-- ===== src/Engine/Execute.antt =====
-- Executing a fetch to its end (`execute_fetch` and `finish` of
-- api/src/tabayyun/services/fetches.py). `turns n` is what the call number n meets.
use Prim.Native.Nat.{◌+◌}
use tabayyun.Prelude.{
  ℕ, Bool, true, false, Option, none, some, String, List, [], ◌∷◌, ◌==◌, str_eq, if◌then◌else◌,
  first, update, length, Outcome, ok, err, ◌||◌,
}
use tabayyun.Fetch.Plan.{PointRef, Call}
use tabayyun.Engine.Tables.{
  FetchStatus, Source, Series, SourceFetch, FetchResult, point_errors, Store, budget_spent,
}
use tabayyun.Engine.Health.{next_health, is_succeeded}
use tabayyun.Engine.Prepare.{Stop, stop, Connector, Loaded, JobPlan, prepare}
use tabayyun.Engine.Call.{FetchOutcome, Turn, done, stopped, run_call}

abbrev pub new_outcome : FetchStatus → FetchOutcome
new_outcome status = record {
  status = status;
  calls = 0;
  rows = 0;
  error = none;
  retryable = false;
  series_rows = [];
  point_errors = [];
  outcome = none;
}

pub record AfterCalls : Type 0 where
  pub why : Option Stop
  pub outcome : FetchOutcome
  pub store : Store

-- `outcome.calls += 1; outcome.rows += rows`
abbrev pub counted : ℕ → FetchOutcome → FetchOutcome
counted rows o = record o { calls = o.calls + 1; rows = o.rows + rows }

-- The loop over the calls, from the call number n on.
module _ (has_cache : Bool) (turns : ℕ → Turn) (plan : JobPlan) (fetch_id : ℕ) where
  unfoldable pub run_calls : ℕ → List Call → FetchOutcome → Store → AfterCalls
  run_calls n [] outcome store = record { why = none; outcome = outcome; store = store }
  run_calls n (call ∷ calls) outcome store =
      let after = run_call has_cache plan fetch_id call (turns n) outcome store in
      if (turns n).spent
      then record { why = some (stop budget_spent); outcome = outcome; store = store }
      else elim after.result [
        | stopped e ↦ record { why = some e; outcome = after.outcome; store = after.store }
        | done rows ↦ run_calls (n + 1) calls (counted rows after.outcome) after.store
      ]

-- The status of the outcome behind the loop.
abbrev pub ended_with : Option Stop → FetchOutcome → FetchOutcome
ended_with none o = record o { status = FetchStatus.succeeded }
ended_with (some e) o = record o {
  status =
      if e.retryable || str_eq e.message budget_spent
      then FetchStatus.partial
      else FetchStatus.failed;
  error = some e.message;
  retryable = e.retryable;
}

-- `with_points` is the message on the points that failed: their number and the first one's error.
unfoldable pub note_points : (with_points : ℕ → String → String) → FetchOutcome → FetchOutcome
note_points with_points o = elim o.point_errors [
  | [] ↦ o
  | (series_id, message) ∷ rest ↦
      let noted : FetchOutcome = record o { outcome = some (point_errors o.point_errors) } in
      if is_succeeded o.status
      then record noted {
        status = FetchStatus.partial;
        error = some (with_points (length o.point_errors) message);
      }
      else noted
]

abbrev pub or_kept : Option FetchResult → Option FetchResult → Option FetchResult
or_kept none kept = kept
or_kept (some r) kept = some r

abbrev pub ended_fetch : FetchOutcome → (now : ℕ) → SourceFetch → SourceFetch
ended_fetch outcome now f = record f {
  status = outcome.status;
  error = outcome.error;
  finished_at = some now;
  outcome = or_kept outcome.outcome f.outcome;
}

unfoldable pub finish : (fetch_id now : ℕ) → FetchOutcome → Store → Store
finish fetch_id now outcome store = elim (first (λ f. f.id == fetch_id) store.fetches) [
  | none ↦ store
  | some f ↦
      let fetch = ended_fetch outcome now f in
      record store {
        fetches = update (λ f. f.id == fetch_id) (λ f. fetch) store.fetches;
        sources =
            update (λ s. s.id == f.source_id)
              (λ s. record s { health = next_health s.health fetch now outcome.retryable })
              store.sources;
      }
]

-- The outcome of the calls.
abbrev pub outcome_of : (with_points : ℕ → String → String) → AfterCalls → FetchOutcome
outcome_of with_points after = note_points with_points (ended_with after.why after.outcome)

module _ (by_external : Series → Series → Bool) (by_id : PointRef → PointRef → Bool)
    (load : Source → Loaded) (build : Source → Option String → Outcome String Connector)
    (with_points : ℕ → String → String) (has_cache : Bool) where
  -- `started` and `ended` are what the clock says to `prepare` and to `finish`.
  unfoldable pub execute_fetch :
      (turns : ℕ → Turn) → (fetch_id started ended : ℕ) → Store → Option FetchOutcome × Store
  execute_fetch turns fetch_id started ended store =
      elim (prepare by_external by_id load build true fetch_id started store) [
        | err e ↦
            let outcome : FetchOutcome = record (new_outcome FetchStatus.failed) {
              error = some e.message;
            } in
            (some outcome, finish fetch_id ended outcome store)
        | ok (none, same) ↦ (none, same)
        | ok (some plan, claimed) ↦
            let after =
              run_calls has_cache turns plan fetch_id 0 plan.calls (new_outcome FetchStatus.running)
                claimed in
            let outcome = outcome_of with_points after in
            (some outcome, finish fetch_id ended outcome after.store)
      ]
