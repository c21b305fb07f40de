-- ===== src/Tests/Reporting.antt =====
-- Findings, at an example: a report with one gap, persisted twice.

use Prim.Native.Nat.{◌+◌}
use tabayyun.Prelude.{◌≡◌, refl, some, [], ◌∷◌, length, select, any, first}
use tabayyun.Authz.Roles.{Scope}
use tabayyun.Rows.{placed, update_at}
use tabayyun.Findings.Store.{Status, Finding, Incoming}
use tabayyun.Findings.Report.{Report, Store, new_finding, persist_report}
use tabayyun.Findings.Again.{persist_report-again}
use tabayyun.Findings.Closed.{is_closed, persist_report-closed}
use tabayyun.Findings.Status.{
  status_named, may_become, get_finding, with_status, move_status, change_status, Moved,
  change_status-Moved,
}
use tabayyun.Tests.Samples.{machine}

abbrev scope : Scope
scope = record { org_id = 1; workspace_id = 5 }

abbrev gap : Incoming
gap = record {
  check_id = "gaps";
  dimension = "completeness";
  severity = "high";
  start_ns = 1000;
  end_ns = 5000;
  score_impact = 0;
  summary = "a gap";
  evidence = ("group_id", "g") ∷ ("seconds", "4") ∷ [];
}

abbrev report : Report
report = record { metrics = []; findings = gap ∷ [] }

abbrev empty : Store
empty = record { findings = []; metrics = []; drawn = 0 }

persist_report-again_example :
    (persist_report scope 71 7 20 report (persist_report scope 70 7 10 report empty).1).0.new ≡ 0
unfolding any
persist_report-again_example = persist_report-again scope 70 71 7 10 20 report empty refl refl

persist_report-closed_example :
    (select is_closed (persist_report scope 70 7 10 report empty).1.findings
      ≡ select is_closed empty.findings)
    × (length (persist_report scope 70 7 10 report empty).1.findings
        ≡ length empty.findings + (persist_report scope 70 7 10 report empty).0.new)
    × ((persist_report scope 70 7 10 report empty).0.new
          + (persist_report scope 70 7 10 report empty).0.merged
        ≡ length report.findings)
persist_report-closed_example = persist_report-closed scope 70 7 10 report empty

abbrev stored : Finding
stored = new_finding scope 70 7 10 gap 0

abbrev muted : Finding
muted = with_status Status.muted (some "known") 30 stored

change_status-Moved_example :
    (status : Status) × (status_named "muted" ≡ some status)
    × Moved scope 100 status (stored ∷ []) (muted ∷ []) muted
unfolding change_status move_status get_finding placed first new_finding with_status may_become
    status_named update_at
change_status-Moved_example =
    change_status-Moved scope 100 (some "known") 30 (stored ∷ []) (muted ∷ []) muted "muted" refl
