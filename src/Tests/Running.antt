-- ===== src/Tests/Running.antt =====
-- Runs of uploads (api/src/tabayyun/services/runs.py).
use tabayyun.Prelude.{
  arith, ℕ, ◌≡◌, refl, Option, none, some, String, List, [], ◌∷◌, first, any, count, Outcome, ok,
  err,
}
use tabayyun.Authz.Roles.{Scope}
use tabayyun.Tests.Samples.{machine}
use tabayyun.Series.Tables.{real, nan}
use tabayyun.Series.Uploads.{database}
use tabayyun.Series.Values.{SeriesMetaIn}
use tabayyun.Runs.Tables.{RunParams, Run, Store, ParsedCsv, CheckReport, Written, Raised}
use tabayyun.Runs.Transactions.{
  is_run, new_run, upload_of, create_run, claim_run, mark_failed, reap_stale_runs,
}
use tabayyun.Runs.Execute.{CsvError, Times, execute_run}
use tabayyun.Runs.Progress.{Progress}
use tabayyun.Runs.Steps.{Reach, stay, step, created, claimed, failed, reaped}
use tabayyun.Runs.Advance.{Reach-Progressed}
use tabayyun.Runs.Done.{HasEnded, execute_run-HasEnded}
use tabayyun.Runs.Once.{claim_run-execute_run}
use tabayyun.Runs.Reaped.{claim_run-reap_stale_runs}
use tabayyun.Runs.Life.{IsLived}
use tabayyun.Runs.Kept.{Reach-IsLived}

abbrev scope : Scope
scope = record { org_id = 1; workspace_id = 2 }

abbrev params : RunParams
params = record {
  series_id = "ti-101";
  unit = some "bar";
  ts_col = "ts";
  value_col = "value";
  quality_col = none;
  ingest_col = none;
  physical_min = some (real 10);
  physical_max = none;
  now_ns = none;
  ts_unit = "auto";
}

abbrev no_runs : Store
no_runs = record {
  runs = [];
  uploads = [];
  scores = [];
  jobs = [];
  series = record { sources = []; series = []; drawn = 0 };
  reported = record { findings = []; metrics = []; drawn = 0 };
  coverage = [];
  drawn = 0;
}

abbrev run : Run
run = new_run scope params (machine.uuid4 0) 3

abbrev one_run : Store
one_run = record no_runs {
  runs = run ∷ [];
  uploads = upload_of scope (104 ∷ []) "a.csv" none params (machine.uuid4 0) 3 ∷ [];
  drawn = 1;
}

create_one : create_run scope (104 ∷ []) "a.csv" none params 3 no_runs ≡ ok (run, one_run)
unfolding create_run
create_one = refl

refuse_nan :
    create_run scope (104 ∷ []) "a.csv" none (record params { physical_max = some nan }) 3 no_runs
    ≡ err (database "invalid input syntax for type json")
unfolding create_run
refuse_nan = refl

no_runs-IsLived : (i : ℕ) → IsLived i no_runs
unfolding first any count
no_runs-IsLived i = record {
  absent = λ e. (refl, refl);
  ended = λ r e over. refl;
  scored = λ r e. absurd (cc);
}

abbrev failed_run : Store
failed_run = mark_failed run.id "boom" 6 (claim_run run.id 5 one_run).1

abbrev fails : Reach one_run failed_run
fails = step one_run (claim_run run.id 5 one_run).1 failed_run (claimed run.id 5 one_run) (
    step (claim_run run.id 5 one_run).1 failed_run failed_run
      (failed run.id "boom" 6 (claim_run run.id 5 one_run).1) (stay failed_run))

Reach-IsLived_example : IsLived run.id failed_run
Reach-IsLived_example =
    Reach-IsLived run.id no_runs failed_run
      (step no_runs one_run failed_run
        (created machine scope (104 ∷ []) "a.csv" none params 3 no_runs one_run run create_one)
        fails)
      (no_runs-IsLived run.id)

first-one_run : first (is_run run.id) one_run.runs ≡ some run
unfolding first
first-one_run = refl

Reach-Progressed_example :
    (r : Run) × (first (is_run run.id) failed_run.runs ≡ some r) × Progress run r
Reach-Progressed_example = Reach-Progressed run.id one_run failed_run fails run first-one_run

claim_run-reap_stale_runs_example :
    HasEnded run.id (reap_stale_runs 30 40 (claim_run run.id 5 one_run).1).1
claim_run-reap_stale_runs_example =
    claim_run-reap_stale_runs run.id 5 30 40 one_run (claim_run run.id 5 one_run).1 run
      first-one_run refl (stay (claim_run run.id 5 one_run).1) (omega arith)

abbrev read_csv : List ℕ → RunParams → Outcome CsvError ParsedCsv
read_csv content p = ok (record { table = "104"; ts_unit = "s" })

abbrev checks : ParsedCsv → SeriesMetaIn → RunParams → Outcome Raised CheckReport
checks parsed meta p = ok (record {
  window = (0, 1000);
  now_ns = 1000;
  n_samples = 1;
  score = record { method_version = "1"; overall = 90; dimensions = "{}"; n_findings = 0 };
  found = record { metrics = []; findings = [] };
  skipped = [];
})

abbrev write : Option (ℕ → ℕ → ParsedCsv → Outcome String Written)
write =
    some (λ source_id series_id parsed.
      ok (record { rows = 1; files = 1; start_ns = 0; end_ns = 1000 }))

abbrev at : Times
at = record { claimed = 5; failed = 9; finished = 8; db_now = 8; stored = 9 }

-- The reaper runs in the meantime.
abbrev reaper : ℕ → Store → Store
reaper n s = (reap_stale_runs 2 6 s).1

abbrev only_reaps : (n : ℕ) (s : Store) → Reach s (reaper n s)
only_reaps n s = step s (reaper n s) (reaper n s) (reaped 2 6 s) (stay (reaper n s))

execute_run-HasEnded_example :
    HasEnded run.id (execute_run read_csv checks write reaper run.id at one_run)
execute_run-HasEnded_example =
    execute_run-HasEnded machine read_csv checks write reaper only_reaps run.id at one_run run
      first-one_run refl

claim_run-execute_run_example :
    execute_run read_csv checks write reaper run.id at failed_run ≡ failed_run
claim_run-execute_run_example =
    claim_run-execute_run machine read_csv checks write reaper run.id at 5 one_run failed_run run
      first-one_run refl
      (step (claim_run run.id 5 one_run).1 failed_run failed_run
        (failed run.id "boom" 6 (claim_run run.id 5 one_run).1) (stay failed_run))
