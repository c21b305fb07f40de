-- ===== src/Runs/Completion.antt =====
-- The completion of a run and what follows it (api/src/tabayyun/services/runs.py).
use tabayyun.Prelude.{
  ℕ, Bool, ◌&&◌, none, some, String, [], ◌∷◌, ◌++◌, ◌==◌, str_eq, if◌then◌else◌, length, any, first,
  update, delete, Outcome, ok, err, Tx,
}
use tabayyun.Authz.Roles.{Scope}
use tabayyun.Db.{Host}
use tabayyun.Fetch.Instants.{ns_to_datetime, ns_to_datetime_ceil}
use tabayyun.Fetch.Coverage.{record_range}
use tabayyun.Findings.Report.{PersistOutcome, persist_report}
use tabayyun.Series.Tables as SeriesTables
use tabayyun.Series.Values.{Overrides}
use tabayyun.Series.Uploads.{Fault, database, upsert_upload_series}
use tabayyun.Runs.Tables.{
  RunStatus, is_running, cached, not_cached, Stats, Run, Score, Store, ParsedCsv, CheckReport,
  Written,
}
use tabayyun.Runs.Transactions.{is_run, is_upload}

-- How the completion went: the ids of the series and its source, or the run no longer ran.
pub data Completion : Type 0 where
  completed : (series_id source_id : ℕ) → Completion
  skipped : Completion

abbrev pub as_succeeded : CheckReport → Stats → (now : ℕ) → Run → Run
as_succeeded report stats now r = record r {
  status = RunStatus.succeeded;
  finished_at = some now;
  window_start = some (ns_to_datetime report.window.0);
  window_end = some (ns_to_datetime_ceil report.window.1);
  now_ns = some report.now_ns;
  error = none;
  stats = some stats;
  cache = none;
}

abbrev pub stats_of : ParsedCsv → CheckReport → PersistOutcome → SeriesTables.Series → Stats
stats_of parsed report outcome series = record {
  n_samples = report.n_samples;
  n_findings = length report.found.findings;
  n_metrics = outcome.metrics;
  n_findings_new = outcome.new;
  n_findings_merged = outcome.merged;
  skipped_checks = report.skipped;
  ts_unit = parsed.ts_unit;
  window = report.window;
  series = (series.id, series.external_id, report.score.overall);
}

abbrev pub is_score : ℕ → ℕ → Score → Bool
is_score series_id now s = s.series_id == series_id && str_eq s.layer "raw" && s.computed_at == now

abbrev pub score_of : Scope → (run_id series_id : ℕ) → CheckReport → (now : ℕ) → Score
score_of scope run_id series_id report now = record {
  series_id = series_id;
  org_id = scope.org_id;
  run_id = run_id;
  layer = "raw";
  method_version = report.score.method_version;
  overall = report.score.overall;
  dimensions = report.score.dimensions;
  n_findings = report.score.n_findings;
  computed_at = now;
}

module _ ⦃host : Host⦄ (scope : Scope) (run_id : ℕ) (parsed : ParsedCsv) (report : CheckReport)
    (now : ℕ) where
  -- The completion behind the series: score, findings, statistics; a second score of the series at one
  -- instant violates the primary key.
  unfoldable pub persist : SeriesTables.Series → SeriesTables.Store → Tx Fault Store Completion
  unfolding persist_report update delete any
  persist series table store =
      let (outcome, reported) =
        persist_report scope run_id series.id now report.found store.reported in
      if any (is_score series.id now) store.scores
      then err (database "duplicate key value violates unique constraint")
      else ok (
        completed series.id series.source_id,
        record store {
          runs =
              update (is_run run_id)
                (as_succeeded report (stats_of parsed report outcome series) now) store.runs;
          uploads = delete (is_upload run_id) store.uploads;
          scores = store.scores ++ score_of scope run_id series.id report now ∷ [];
          series = table;
          reported = reported;
        },
      )

  -- The completion transaction; an error rolls it back.
  unfoldable pub complete_run :
      (external_id : String) → Overrides → (db_now : ℕ) → Tx Fault Store Completion
  unfolding first upsert_upload_series persist
  complete_run external_id overrides db_now store = elim (first (is_run run_id) store.runs) [
    | none ↦ ok (skipped, store)
    | some r ↦
        if is_running r.status
        then elim (upsert_upload_series scope external_id overrides now db_now store.series) [
          | err e ↦ err e
          | ok (series, table) ↦ persist series table store
        ]
        else ok (skipped, store)
  ]

-- The transaction of `_cache_upload`, with what the cache wrote or its error.
unfoldable pub record_cached :
    (run_id org_id series_id : ℕ) → Outcome String Written → (now : ℕ) → Store → Store
unfolding update record_range
record_cached run_id org_id series_id (err e) now store = record store {
  runs = update (is_run run_id) (λ r. record r { cache = some (not_cached e) }) store.runs;
}
record_cached run_id org_id series_id (ok w) now store =
    let covered =
      record_range org_id series_id w.start_ns w.end_ns w.rows now "raw" store.coverage in
    record store {
      coverage = if w.rows == 0 then store.coverage else covered;
      runs =
          update (is_run run_id) (λ r. record r { cache = some (cached w.rows w.files) })
            store.runs;
    }
