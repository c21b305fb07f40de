-- ===== src/Engine/Ended.antt =====
-- How a fetch ends (`execute_fetch` of api/src/tabayyun/services/fetches.py).
use tabayyun.Prelude.{
  ℕ, ◌≡◌, refl, ◌⊎◌, Bool, true, false, Option, none, some, String, ◌==◌, first, first_holds,
  first-update_self, update, Outcome, ok, err, Option-cases, Outcome-cases, inl, inr,
}
use tabayyun.Fetch.Plan.{PointRef}
use tabayyun.Engine.Tables.{Source, Series, SourceFetch, FetchStatus, Store}
use tabayyun.Engine.Prepare.{
  Stop, stop, Connector, Loaded, JobPlan, may_start, claimed, plan_claimed, prepare,
}
use tabayyun.Engine.Call.{FetchOutcome, Turn}
use tabayyun.Engine.Execute.{new_outcome, run_calls, outcome_of, execute_fetch}
use tabayyun.Engine.Final.{
  row_of, HasStatus, run_calls-HasStatus, IsEnded, IsFinal, finish-IsEnded, run_calls-Unmarked,
  outcome_of-IsFinal,
}

abbrev pub may_execute : Option SourceFetch → Bool
may_execute none = false
may_execute (some f) = may_start f.status

module _ (by_external : Series → Series → Bool) (by_id : PointRef → PointRef → Bool)
    (load : Source → Loaded) (build : Source → Option String → Outcome String Connector)
    (with_points : ℕ → String → String) (has_cache : Bool) (turns : ℕ → Turn)
    (fetch_id started ended_at : ℕ) (store : Store) where
  abbrev executed : Option FetchOutcome × Store
  executed =
      execute_fetch by_external by_id load build with_points has_cache turns fetch_id started
        ended_at store

  abbrev planned : Outcome Stop (Option JobPlan × Store)
  planned = prepare by_external by_id load build true fetch_id started store

  pub prepare-starts :
      (fetch : SourceFetch)
      → row_of fetch_id store ≡ some fetch
      → may_start fetch.status ≡ true
      → ((e : Stop) × (planned ≡ err e))
        ⊎ ((plan : JobPlan) × (s : Store) × (planned ≡ ok (some plan, s))
            × HasStatus FetchStatus.running fetch_id s)
  unfolding prepare
  prepare-starts fetch there may =
      elim (Option-cases (first (λ s. s.id == fetch.source_id) store.sources)) [
        | inl l ↦ inl (stop "source deleted", rw (there, may, l, prepare) refl)
        | inr (source, l) ↦
            elim (Outcome-cases
              (plan_claimed by_external by_id load build true fetch source store)) [
                | inr (x, m) ↦ inl (x, rw (there, may, l, m, prepare) refl)
                | inl (plan, m) ↦
                    let claim : SourceFetch → SourceFetch =
                      λ f. claimed by_external by_id load build fetch started in
                    let mine = first_holds (λ f. f.id == fetch_id) store.fetches fetch there in
                    inr (
                      plan,
                      record store { fetches = update (λ f. f.id == fetch_id) claim store.fetches },
                      rw (there, may, l, m, prepare) refl,
                      (
                        claim fetch,
                        first-update_self (λ f. f.id == fetch_id) claim (λ f h. mine) store.fetches
                            fetch there,
                        refl,
                      ),
                    )
              ]
      ]

  failed-IsFinal :
      (e : Stop) → IsFinal (record (new_outcome FetchStatus.failed) { error = some e.message })
  failed-IsFinal e = record {
    not_queued = λ h. cc;
    not_running = λ h. cc;
    retried = λ h. cc;
    explained = (λ h. cc, λ h. refl);
  }

  -- A fetch that is there, queued or left partial, is executed to an end, whatever its source, its
  -- connector and the cache do: its row gets the outcome's status and error and the time of the end,
  -- and is neither queued nor running; a success has no error and any other end has one; an end that
  -- asks for a retry leaves the row partial, so that the retry can take it up.
  pub execute_fetch-IsEnded :
      (fetch : SourceFetch)
      → row_of fetch_id store ≡ some fetch
      → may_start fetch.status ≡ true
      → (o : FetchOutcome) × (row : SourceFetch) × (executed.0 ≡ some o)
        × (row_of fetch_id executed.1 ≡ some row)
        × IsEnded o row ended_at
  unfolding execute_fetch
  execute_fetch-IsEnded fetch there may = elim (prepare-starts fetch there may) [
    | inl (e, k) ↦
        let o : FetchOutcome = record (new_outcome FetchStatus.failed) { error = some e.message } in
        let (row, found, end) =
          finish-IsEnded fetch_id ended_at o store (fetch, there) (failed-IsFinal e) in
        (o, row, rw (k, execute_fetch) refl, rw (k, execute_fetch) found, end)
    | inr (plan, s, k, here) ↦
        let ran =
          run_calls has_cache turns plan fetch_id 0 plan.calls (new_outcome FetchStatus.running)
            s in
        let o = outcome_of with_points ran in
        let unmarked =
          run_calls-Unmarked has_cache plan fetch_id turns 0 plan.calls
            (new_outcome FetchStatus.running) s (refl, refl) in
        let kept =
          run_calls-HasStatus has_cache plan fetch_id FetchStatus.running turns 0 plan.calls
            (new_outcome FetchStatus.running) s here in
        let (row, found, end) =
          finish-IsEnded fetch_id ended_at o ran.store (kept.0, kept.1)
            (outcome_of-IsFinal with_points ran.why ran.outcome unmarked) in
        (o, row, rw (k, execute_fetch) refl, rw (k, execute_fetch) found, end)
  ]

  -- A fetch that may not be executed is skipped.
  pub execute_fetch_skips : may_execute (row_of fetch_id store) ≡ false → executed ≡ (none, store)
  unfolding execute_fetch prepare
  execute_fetch_skips h = rw (prepare_skips (row_of fetch_id store) refl h, execute_fetch) refl
    where
      prepare_skips :
          (o : Option SourceFetch)
          → row_of fetch_id store ≡ o
          → may_execute o ≡ false
          → planned ≡ ok (none, store)
      prepare_skips none k h = rw (k, prepare) refl
      prepare_skips (some f) k h = rw (k, h, prepare) refl
