-- ===== src/Runs/Once.antt =====
-- A run is executed once (`execute_run` of api/src/tabayyun/services/runs.py).
use tabayyun.Prelude.{
  ℕ, ◌≡◌, sym, subst, ◌∙◌, true, false, Option, some, some-injective, String, List, first, Outcome,
}
use tabayyun.Db.{Host}
use tabayyun.Series.Values.{SeriesMetaIn}
use tabayyun.Runs.Tables.{is_queued, RunParams, Run, Store, ParsedCsv, CheckReport, Written, Raised}
use tabayyun.Runs.Transactions.{is_run, claim_run}
use tabayyun.Runs.Execute.{CsvError, Times, execute_run}
use tabayyun.Runs.Steps.{Reach}
use tabayyun.Runs.Done.{HasStarted, Reach-HasStarted, claim_run-HasStarted, execute_run_skips}

started_skips :
    (i : ℕ) (t : Store) (r : Run)
    → HasStarted i t
    → first (is_run i) t.runs ≡ some r
    → is_queued r.status ≡ false
started_skips i t r (r', e, k) f =
    let same : r' ≡ r = some-injective r' r (sym e ∙ f) in
    subst (λ (z : Run). is_queued z.status ≡ false) same k

module _ (host : Host) (read_csv : List ℕ → RunParams → Outcome CsvError ParsedCsv)
    (run_checks : ParsedCsv → SeriesMetaIn → RunParams → Outcome Raised CheckReport)
    (write : Option (ℕ → ℕ → ParsedCsv → Outcome String Written)) (meanwhile : ℕ → Store → Store)
    (i : ℕ) (at : Times) where
  -- A queued run is taken up once: behind the claim of a worker, and whatever transactions on runs are
  -- committed after it, the end and the reaper's included, an execution by another worker changes nothing.
  pub claim_run-execute_run :
      (now : ℕ) (s t : Store) (r : Run)
      → first (is_run i) s.runs ≡ some r
      → is_queued r.status ≡ true
      → Reach (claim_run i now s).1 t
      → execute_run ⦃host = host⦄ read_csv run_checks write meanwhile i at t ≡ t
  claim_run-execute_run now s t r e k go =
      let (c, taken, started) = claim_run-HasStarted i now s r e k in
      let later = Reach-HasStarted i (claim_run i now s).1 t go started in
      execute_run_skips host read_csv run_checks write meanwhile i at t
        (λ x f. started_skips i t x later f)
