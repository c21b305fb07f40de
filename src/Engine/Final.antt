-- ===== src/Engine/Final.antt =====
-- How the calls of a fetch end (api/src/tabayyun/services/fetches.py).
use Prim.Native.Nat.{◌+◌}
use tabayyun.Prelude.{
  ℕ, ◌≡◌, ◌≢◌, refl, Bool, true, false, ◌&&◌, ◌||◌, not, Option, none, some, String, str_eq, List,
  [], ◌∷◌, ◌==◌, is_some, first, first_holds, first-update_self, arith, Bool-cases, Option-cases,
  inl, inr,
}
use tabayyun.Fetch.Plan.{Call}
use tabayyun.Engine.Tables.{SourceFetch, FetchStatus, Store, budget_spent}
use tabayyun.Engine.Health.{is_succeeded}
use tabayyun.Engine.Prepare.{Stop, JobPlan}
use tabayyun.Engine.Call.{
  FetchOutcome, Turn, Collected, collect, ended, or_else, record_call, write_tables, finish_call,
  run_call, is_none_list, with_errors,
}
use tabayyun.Engine.Execute.{counted, run_calls, ended_with, note_points, ended_fetch, finish}
use tabayyun.Engine.Calls.{CallEnd-cases}

-- The row of the fetch.
abbrev pub row_of : ℕ → Store → Option SourceFetch
row_of fetch_id s = first (λ f. f.id == fetch_id) s.fetches

abbrev pub Found : ℕ → Store → Type 0
Found fetch_id s = (f : SourceFetch) × (row_of fetch_id s ≡ some f)

-- The row of the fetch is there and has the status.
abbrev pub HasStatus : FetchStatus → ℕ → Store → Type 0
HasStatus status fetch_id s = (f : SourceFetch) × (row_of fetch_id s ≡ some f) × (f.status ≡ status)

module _ (has_cache : Bool) (plan : JobPlan) (fetch_id : ℕ) where
  -- No call loses the row of the fetch or changes its status.
  finish_call-HasStatus :
      (status : FetchStatus) (call : Call) (turn : Turn) (c : Collected) (o : FetchOutcome)
      (s : Store)
      → HasStatus status fetch_id s
      → HasStatus status fetch_id (finish_call has_cache plan fetch_id call turn c o s).store
  unfolding finish_call record_call
  finish_call-HasStatus status call turn c o s (f, e, st) =
      elim (Bool-cases (not has_cache && not (is_none_list c.tables))) [
        | inl k ↦ rw k (f, e, st)
        | inr k ↦ elim (Option-cases (write_tables turn c.failed c.tables 0 o.series_rows).2) [
          | inr (why, w) ↦ rw (k, w) (f, e, st)
          | inl w ↦
              let rows = (write_tables turn c.failed c.tables 0 o.series_rows).0 in
              let bump : SourceFetch → SourceFetch =
                λ r. record r { calls = r.calls + 1; rows = r.rows + rows } in
              rw (k, w)
                (
                  bump f,
                  first-update_self (λ r. r.id == fetch_id) bump (λ r h. h) s.fetches f e,
                  st,
                )
        ]
      ]

  run_call-HasStatus :
      (status : FetchStatus) (call : Call) (turn : Turn) (o : FetchOutcome) (s : Store)
      → HasStatus status fetch_id s
      → HasStatus status fetch_id (run_call has_cache plan fetch_id call turn o s).store
  unfolding run_call first
  run_call-HasStatus status call turn o s found =
      let start : Collected = record { tables = []; failed = []; errors = o.point_errors } in
      let (c, why) = collect call.points turn.batches start in
      elim (Option-cases (or_else why (ended turn.ending))) [
        | inr (x, k) ↦ rw (k, run_call) found
        | inl k ↦
            rw (k, run_call)
              (finish_call-HasStatus status call turn c (with_errors c.errors o) s found)
      ]

  pub run_calls-HasStatus :
      (status : FetchStatus) (turns : ℕ → Turn) (n : ℕ) (calls : List Call) (o : FetchOutcome)
      (s : Store)
      → HasStatus status fetch_id s
      → HasStatus status fetch_id (run_calls has_cache turns plan fetch_id n calls o s).store
  unfolding run_calls first run_call
  run_calls-HasStatus status turns n [] o s found = found
  run_calls-HasStatus status turns n (call ∷ calls) o s found =
      let a = run_call has_cache plan fetch_id call (turns n) o s in
      let later = run_call-HasStatus status call (turns n) o s found in
      elim (Bool-cases (turns n).spent) [
        | inl k ↦ rw k found
        | inr k ↦ elim (CallEnd-cases a.result) [
          | inr (x, j) ↦ rw (k, j) later
          | inl (rows, j) ↦
              rw (k, j)
                (run_calls-HasStatus status turns (n + 1) calls (counted rows a.outcome) a.store
                  later)
        ]
      ]

  pub run_calls-Found :
      (turns : ℕ → Turn) (n : ℕ) (calls : List Call) (o : FetchOutcome) (s : Store)
      → Found fetch_id s
      → Found fetch_id (run_calls has_cache turns plan fetch_id n calls o s).store
  run_calls-Found turns n calls o s (f, e) =
      let (after, found, same) = run_calls-HasStatus f.status turns n calls o s (f, e, refl) in
      (after, found)

-- What is left of a fetch that was executed: an end that is stored in its row, and that a retry can
-- take up where one is wanted.
pub record IsEnded (o : FetchOutcome) (row : SourceFetch) (now : ℕ) : Type 0 where
  pub not_queued : o.status ≢ FetchStatus.queued
  pub not_running : o.status ≢ FetchStatus.running
  pub status : row.status ≡ o.status
  pub error : row.error ≡ o.error
  pub finished : row.finished_at ≡ some now
  pub retried : o.retryable ≡ true → row.status ≡ FetchStatus.partial
  pub explained :
      (o.status ≡ FetchStatus.succeeded → o.error ≡ none)
      × (o.status ≢ FetchStatus.succeeded → is_some o.error ≡ true)

-- The outcome alone.
pub record IsFinal (o : FetchOutcome) : Type 0 where
  pub not_queued : o.status ≢ FetchStatus.queued
  pub not_running : o.status ≢ FetchStatus.running
  pub retried : o.retryable ≡ true → o.status ≡ FetchStatus.partial
  pub explained :
      (o.status ≡ FetchStatus.succeeded → o.error ≡ none)
      × (o.status ≢ FetchStatus.succeeded → is_some o.error ≡ true)

pub finish-IsEnded :
    (fetch_id now : ℕ) (o : FetchOutcome) (s : Store)
    → Found fetch_id s
    → IsFinal o
    → (row : SourceFetch) × (row_of fetch_id (finish fetch_id now o s) ≡ some row)
      × IsEnded o row now
unfolding finish
finish-IsEnded fetch_id now o s (f, e) final =
    let row = ended_fetch o now f in
    let mine = first_holds (λ r. r.id == fetch_id) s.fetches f e in
    (
      row,
      rw (e, finish)
          (first-update_self (λ r. r.id == fetch_id) (λ r. row) (λ r h. mine) s.fetches f e),
      record {
        not_queued = final.not_queued;
        not_running = final.not_running;
        status = refl;
        error = refl;
        finished = refl;
        retried = final.retried;
        explained = final.explained;
      },
    )

-- The loop leaves the error and the mark of the outcome to what comes behind it.
abbrev Unmarked : FetchOutcome → Type 0
Unmarked o = (o.error ≡ none) × (o.retryable ≡ false)

module _ (has_cache : Bool) (plan : JobPlan) (fetch_id : ℕ) where
  finish_call-Unmarked :
      (call : Call) (turn : Turn) (c : Collected) (o : FetchOutcome) (s : Store)
      → Unmarked o
      → Unmarked (finish_call has_cache plan fetch_id call turn c o s).outcome
  unfolding finish_call
  finish_call-Unmarked call turn c o s h = ground arith

  run_call-Unmarked :
      (call : Call) (turn : Turn) (o : FetchOutcome) (s : Store)
      → Unmarked o
      → Unmarked (run_call has_cache plan fetch_id call turn o s).outcome
  unfolding run_call with_errors
  run_call-Unmarked call turn o s h =
      let start : Collected = record { tables = []; failed = []; errors = o.point_errors } in
      let (c, why) = collect call.points turn.batches start in
      elim (Option-cases (or_else why (ended turn.ending))) [
        | inr (x, k) ↦ rw (k, run_call) h
        | inl k ↦ rw (k, run_call) (finish_call-Unmarked call turn c (with_errors c.errors o) s h)
      ]

  pub run_calls-Unmarked :
      (turns : ℕ → Turn) (n : ℕ) (calls : List Call) (o : FetchOutcome) (s : Store)
      → Unmarked o
      → Unmarked (run_calls has_cache turns plan fetch_id n calls o s).outcome
  unfolding run_calls run_call
  run_calls-Unmarked turns n [] o s h = h
  run_calls-Unmarked turns n (call ∷ calls) o s h =
      let a = run_call has_cache plan fetch_id call (turns n) o s in
      let later = run_call-Unmarked call (turns n) o s h in
      elim (Bool-cases (turns n).spent) [
        | inl k ↦ rw k h
        | inr k ↦ elim (CallEnd-cases a.result) [
          | inr (x, j) ↦ rw (k, j) later
          | inl (rows, j) ↦
              rw (k, j)
                (run_calls-Unmarked turns (n + 1) calls (counted rows a.outcome) a.store later)
        ]
      ]

stopped-IsFinal : (e : Stop) (o : FetchOutcome) → IsFinal (ended_with (some e) o)
stopped-IsFinal e o = elim (Bool-cases (e.retryable || str_eq e.message budget_spent)) [
  | inl k ↦ rw k (record {
    not_queued = λ h. cc;
    not_running = λ h. cc;
    retried = λ h. refl;
    explained = (λ h. cc, λ h. refl);
  })
  | inr k ↦ rw k (record {
    not_queued = λ h. cc;
    not_running = λ h. cc;
    retried = λ h. ground (arith, k);
    explained = (λ h. cc, λ h. refl);
  })
]

note_points-IsFinal :
    (with_points : ℕ → String → String) (o : FetchOutcome)
    → IsFinal o
    → IsFinal (note_points with_points o)
unfolding note_points
note_points-IsFinal with_points o final = go o.point_errors refl
  where
    go :
        (errors : List (ℕ × String)) → o.point_errors ≡ errors → IsFinal (note_points with_points o)
    go [] k = rw (k, note_points) final
    go ((id, m) ∷ es) k = elim (Bool-cases (is_succeeded o.status)) [
      | inl j ↦
          rw (k, j, note_points)
            (record {
              not_queued = λ h. cc;
              not_running = λ h. cc;
              retried = λ h. refl;
              explained = (λ h. cc, λ h. refl);
            })
      | inr j ↦
          rw (k, j, note_points)
            (record {
              not_queued = final.not_queued;
              not_running = final.not_running;
              retried = final.retried;
              explained = final.explained;
            })
    ]

pub outcome_of-IsFinal :
    (with_points : ℕ → String → String) (why : Option Stop) (o : FetchOutcome)
    → Unmarked o
    → IsFinal (note_points with_points (ended_with why o))
outcome_of-IsFinal with_points none o (clean, calm) =
    note_points-IsFinal with_points (ended_with none o) (record {
      not_queued = λ h. cc;
      not_running = λ h. cc;
      retried = λ h. absurd (cc);
      explained = (λ h. clean, λ h. absurd (h refl));
    })
outcome_of-IsFinal with_points (some e) o h =
    note_points-IsFinal with_points (ended_with (some e) o) (stopped-IsFinal e o)
