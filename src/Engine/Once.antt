-- ===== src/Engine/Once.antt =====
-- A fetch is executed once (`execute_fetch` of api/src/tabayyun/services/fetches.py).
use tabayyun.Prelude.{
  ℕ, ◌≡◌, ◌≢◌, refl, sym, subst, ◌∙◌, Bool, true, false, Option, none, some, some-injective, String,
  List, Outcome, ok, inl, inr,
}
use tabayyun.Fetch.Plan.{PointRef, Call}
use tabayyun.Engine.Tables.{Source, Series, SourceFetch, FetchStatus, Store}
use tabayyun.Engine.Prepare.{Connector, Loaded, JobPlan, may_start, prepare, Stop}
use tabayyun.Engine.Call.{FetchOutcome, Turn}
use tabayyun.Engine.Execute.{run_calls, execute_fetch}
use tabayyun.Engine.Final.{row_of, HasStatus, run_calls-HasStatus}
use tabayyun.Engine.Ended.{prepare-starts, execute_fetch-IsEnded, may_execute, execute_fetch_skips}

not_startable :
    (s : FetchStatus) → s ≢ FetchStatus.queued → s ≢ FetchStatus.partial → may_start s ≡ false
not_startable FetchStatus.queued q p = absurd (q refl)
not_startable FetchStatus.partial q p = absurd (p refl)
not_startable FetchStatus.running q p = refl
not_startable FetchStatus.succeeded q p = refl
not_startable FetchStatus.failed q p = refl

same_store :
    (r : Outcome Stop (Option JobPlan × Store)) (p q : JobPlan) (s t : Store)
    → r ≡ ok (some p, s)
    → r ≡ ok (some q, t)
    → s ≡ t
same_store r p q s t h k = cc

module _ (by_external : Series → Series → Bool) (by_id : PointRef → PointRef → Bool)
    (load : Source → Loaded) (build : Source → Option String → Outcome String Connector)
    (with_points : ℕ → String → String) (has_cache : Bool) (turns : ℕ → Turn)
    (fetch_id started ended_at : ℕ) (store : Store) where
  -- The stores that an execution leaves while it runs, behind its claim and any of its calls, and when it
  -- has ended with no retry to come.
  pub data Taken : Store → Type 0 where
    running :
        (plan : JobPlan) (s : Store) (n : ℕ) (calls : List Call) (o : FetchOutcome)
        → prepare by_external by_id load build true fetch_id started store ≡ ok (some plan, s)
        → Taken (run_calls has_cache turns plan fetch_id n calls o s).store
    ended :
        (o : FetchOutcome)
        → (execute_fetch by_external by_id load build with_points has_cache turns fetch_id started
            ended_at store).0
          ≡ some o
        → o.status ≢ FetchStatus.partial
        → Taken
            (execute_fetch by_external by_id load build with_points has_cache turns fetch_id started
              ended_at store).1

  -- No row that has the status of an execution or of an end is taken up again.
  HasStatus-skipped :
      (status : FetchStatus) (t : Store)
      → status ≢ FetchStatus.queued
      → status ≢ FetchStatus.partial
      → HasStatus status fetch_id t
      → may_execute (row_of fetch_id t) ≡ false
  HasStatus-skipped status t q p (f, e, st) =
      subst (λ (r : Option SourceFetch). may_execute r ≡ false) (sym e)
        (subst (λ (z : FetchStatus). may_start z ≡ false) (sym st) (not_startable status q p))

  claimed-HasStatus :
      (fetch : SourceFetch) (plan : JobPlan) (s : Store)
      → row_of fetch_id store ≡ some fetch
      → may_start fetch.status ≡ true
      → prepare by_external by_id load build true fetch_id started store ≡ ok (some plan, s)
      → HasStatus FetchStatus.running fetch_id s
  claimed-HasStatus fetch plan s there may e =
      elim (prepare-starts by_external by_id load build with_points has_cache turns fetch_id started
        ended_at store fetch there may) [
          | inl (x, k) ↦ absurd (cc)
          | inr (plan', s', k, has) ↦
              let same : s' ≡ s = same_store _ plan' plan s' s k e in
              subst (HasStatus FetchStatus.running fetch_id) same has
        ]

  Taken-skipped :
      (fetch : SourceFetch) (t : Store)
      → row_of fetch_id store ≡ some fetch
      → may_start fetch.status ≡ true
      → Taken t
      → may_execute (row_of fetch_id t) ≡ false
  Taken-skipped fetch t there may (running plan s n calls o e) =
      HasStatus-skipped FetchStatus.running
        (run_calls has_cache turns plan fetch_id n calls o s).store (λ h. cc) (λ h. cc)
        (run_calls-HasStatus has_cache plan fetch_id FetchStatus.running turns n calls o s
          (claimed-HasStatus fetch plan s there may e))
  Taken-skipped fetch t there may (ended o e whole) =
      let (o', row, e', found, end) =
        execute_fetch-IsEnded by_external by_id load build with_points has_cache turns fetch_id
          started ended_at store fetch there may in
      let same : o' ≡ o = some-injective o' o (sym e' ∙ e) in
      let after =
        (execute_fetch by_external by_id load build with_points has_cache turns fetch_id started
          ended_at store).1 in
      HasStatus-skipped o'.status after end.not_queued
        (subst (λ (x : FetchOutcome). x.status ≢ FetchStatus.partial) (sym same) whole)
        (row, found, end.status)

  -- A fetch that an execution has taken is not executed a second time: neither while the first one runs, from
  -- its claim on and behind any of its calls, nor when that one has ended as something else than partial. The
  -- second execution has no outcome and changes nothing, with whatever connectors, cache, calls and times.
  pub execute_fetch-once :
      (fetch : SourceFetch) (t : Store)
      → row_of fetch_id store ≡ some fetch
      → may_start fetch.status ≡ true
      → Taken t
      → (load' : Source → Loaded) (build' : Source → Option String → Outcome String Connector)
        (has_cache' : Bool) (turns' : ℕ → Turn) (started' ended_at' : ℕ)
      → execute_fetch by_external by_id load' build' with_points has_cache' turns' fetch_id started'
          ended_at' t
        ≡ (none, t)
  execute_fetch-once fetch t there may taken load' build' has_cache' turns' started' ended_at' =
      execute_fetch_skips by_external by_id load' build' with_points has_cache' turns' fetch_id
        started' ended_at' t (Taken-skipped fetch t there may taken)
