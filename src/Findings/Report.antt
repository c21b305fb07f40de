-- ===== src/Findings/Report.antt =====
-- `persist_report` (api/src/tabayyun/services/findings.py), in the caller's transaction. The advisory
-- lock on the series makes reports of one series go one after the other.
use Prim.Native.Nat.{◌+◌}
use tabayyun.Prelude.{
  ℕ, Bool, true, false, ◌&&◌, Option, none, some, String, List, [], ◌∷◌, ◌++◌, ◌==◌, str_eq,
  if◌then◌else◌, ltb, length, any, map, update,
}
use tabayyun.Authz.Roles.{Scope}
use tabayyun.Db.{Host}
use tabayyun.Fetch.Instants.{ns_to_datetime}
use tabayyun.Findings.Store.{Status, Finding, Incoming, window_of, best_candidate, merge}

-- A metric of a report; a value that is not a number is missing.
pub record ReportMetric : Type 0 where
  pub check_id : String
  pub name : String
  pub ts_ns : ℕ
  pub value : Option ℕ

-- A row of `metrics`; the double `value` is the number that its bits are.
pub record Metric : Type 0 where
  pub series_id : ℕ
  pub org_id : ℕ
  pub run_id : ℕ
  pub check_id : String
  pub name : String
  pub ts : ℕ
  pub value : ℕ

pub record Report : Type 0 where
  pub metrics : List ReportMetric
  pub findings : List Incoming

pub record Store : Type 0 where
  pub findings : List Finding
  pub metrics : List Metric
  pub drawn : ℕ

pub record PersistOutcome : Type 0 where
  pub new : ℕ
  pub merged : ℕ
  pub metrics : ℕ

abbrev pub is_metric : Metric → Metric → Bool
is_metric a b =
    a.series_id == b.series_id
    && str_eq a.check_id b.check_id
    && str_eq a.name b.name
    && a.ts == b.ts

-- A row with the nanosecond that it is of: the dicts `rows` and `latest_ns`, which have one set of
-- keys.
abbrev pub put_row : Metric → ℕ → List (Metric × ℕ) → List (Metric × ℕ)
put_row m ns [] = (m, ns) ∷ []
put_row m ns ((n, latest) ∷ rest) =
    let later = put_row m ns rest in
    if is_metric m n
    then (if ltb ns latest then (n, latest) ∷ rest else (m, ns) ∷ rest)
    else (n, latest) ∷ later

module _ (org_id run_id series_id : ℕ) where
  unfoldable pub add_rows : List ReportMetric → List (Metric × ℕ) → List (Metric × ℕ)
  add_rows [] rows = rows
  add_rows (m ∷ ms) rows = elim m.value [
    | none ↦ add_rows ms rows
    | some value ↦ add_rows ms (
        put_row
          (record {
            series_id = series_id;
            org_id = org_id;
            run_id = run_id;
            check_id = m.check_id;
            name = m.name;
            ts = ns_to_datetime m.ts_ns;
            value = value;
          })
          m.ts_ns rows)
  ]

  -- `_metric_rows`
  unfoldable pub metric_rows : List ReportMetric → List Metric
  unfolding add_rows
  metric_rows metrics = map (λ r. r.0) (add_rows metrics [])

-- INSERT .. ON CONFLICT DO UPDATE SET value, run_id
unfoldable pub upsert_metrics : List Metric → List Metric → List Metric
upsert_metrics [] table = table
upsert_metrics (m ∷ ms) table = upsert_metrics ms (
    if any (is_metric m) table
    then update (is_metric m) (λ n. record n { value = m.value; run_id = m.run_id }) table
    else table ++ m ∷ [])

module _ ⦃host : Host⦄ (scope : Scope) (run_id series_id now : ℕ) where
  unfoldable pub new_finding : Incoming → ℕ → Finding
  new_finding incoming drawn =
      let window = window_of incoming in
      record {
        id = host.uuid4 drawn;
        org_id = scope.org_id;
        workspace_id = scope.workspace_id;
        series_id = series_id;
        check_id = incoming.check_id;
        dimension = incoming.dimension;
        severity = incoming.severity;
        window_start = window.0;
        window_end = window.1;
        score_impact = incoming.score_impact;
        summary = incoming.summary;
        evidence = incoming.evidence;
        status = Status.opened;
        status_reason = none;
        status_at = none;
        first_run_id = some run_id;
        last_run_id = some run_id;
        occurrences = 1;
        created_at = now;
        updated_at = now;
      }

  -- One turn of the loop: whether the finding is new, and the table after it.
  unfoldable pub persist_finding : Incoming → ℕ → List Finding → Bool × List Finding
  unfolding new_finding
  persist_finding incoming drawn findings =
      elim (best_candidate scope run_id series_id incoming findings) [
        | none ↦ (true, findings ++ new_finding incoming drawn ∷ [])
        | some existing ↦ (false, merge run_id incoming now existing findings)
      ]

  -- The loop, from the counts (`new`, `merged`) and the uuids drawn so far.
  unfoldable pub persist_findings :
      List Incoming → ℕ × ℕ → ℕ → List Finding → (ℕ × ℕ) × ℕ × List Finding
  unfolding persist_finding
  persist_findings [] counts drawn findings = (counts, drawn, findings)
  persist_findings (f ∷ fs) (new, merged) drawn findings =
      let (is_new, after) = persist_finding f drawn findings in
      if is_new
      then persist_findings fs (new + 1, merged) (drawn + 1) after
      else persist_findings fs (new, merged + 1) drawn after

  unfoldable pub persist_report : Report → Store → PersistOutcome × Store
  unfolding persist_findings metric_rows upsert_metrics
  persist_report report store =
      let rows = metric_rows scope.org_id run_id series_id report.metrics in
      let ((new, merged), drawn, findings) =
        persist_findings report.findings (0, 0) store.drawn store.findings in
      (
        record { new = new; merged = merged; metrics = length rows },
        record { findings = findings; metrics = upsert_metrics rows store.metrics; drawn = drawn },
      )
