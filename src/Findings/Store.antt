-- ===== src/Findings/Store.antt =====
-- The tables and operations of api/src/tabayyun/services/findings.py that persist a report.

use Prim.Native.Nat.{◌+◌, ◌*◌, ◌-◌}
use tabayyun.Prelude.{
  ℕ, Bool, true, false, ◌&&◌, ◌||◌, not, Option, none, some, String, List, [], ◌∷◌, ◌++◌, ◌==◌,
  str_eq, if◌then◌else◌, ltb, min, max, select, sort_by,
}
use tabayyun.Authz.Roles.{Scope}
use tabayyun.Fetch.Instants.{ns_to_datetime, ns_to_datetime_ceil}
use tabayyun.Findings.Evidence.{Evidence, same_kind}
use tabayyun.Rows.{placed, update_at, remove_at}

-- `FINDING_STATUSES`
pub data Status : Type 0 where
  opened acked muted resolved : Status

-- `status in ABSORBING_STATUSES`
abbrev pub is_absorbing : Status → Bool
is_absorbing Status.opened = true
is_absorbing Status.acked = true
is_absorbing Status.muted = false
is_absorbing Status.resolved = false

-- A row of `findings`; the double `score_impact` is the number that its bits are.
pub record Finding : Type 0 where
  pub id : ℕ
  pub org_id : ℕ
  pub workspace_id : ℕ
  pub series_id : ℕ
  pub check_id : String
  pub dimension : String
  pub severity : String
  pub window_start : ℕ
  pub window_end : ℕ
  pub score_impact : ℕ
  pub summary : String
  pub evidence : Evidence
  pub status : Status
  pub status_reason : Option String
  pub status_at : Option ℕ
  pub first_run_id : Option ℕ
  pub last_run_id : Option ℕ
  pub occurrences : ℕ
  pub created_at : ℕ
  pub updated_at : ℕ

-- `core.Finding`, as the core reports it.
pub record Incoming : Type 0 where
  pub check_id : String
  pub dimension : String
  pub severity : String
  pub start_ns : ℕ
  pub end_ns : ℕ
  pub score_impact : ℕ
  pub summary : String
  pub evidence : Evidence

abbrev pub Window : Type 0
Window = ℕ × ℕ

-- `_window`
unfoldable pub window_of : Incoming → Window
window_of finding =
    let start = ns_to_datetime finding.start_ns in
    (start, max (ns_to_datetime_ceil finding.end_ns) (start + 1))

-- `_overlap_ratio`, as intersection and union, compared without the rounding of doubles.
unfoldable pub overlap : Window → Window → ℕ × ℕ
overlap a b = (min a.1 b.1 - max a.0 b.0, max a.1 b.1 - min a.0 b.0)

abbrev pub is_run : Option ℕ → ℕ → Bool
is_run none run_id = false
is_run (some r) run_id = r == run_id

-- The WHERE clause of `_best_candidate` with the test on the evidence.
unfoldable pub absorbs : Scope → ℕ → ℕ → Incoming → Finding → Bool
absorbs scope run_id series_id incoming f =
    let window = window_of incoming in
    f.workspace_id == scope.workspace_id
    && f.series_id == series_id
    && str_eq f.check_id incoming.check_id
    && is_absorbing f.status
    && ltb f.window_start window.1
    && ltb window.0 f.window_end
    && not (is_run f.first_run_id run_id)
    && same_kind f.evidence incoming.evidence

-- A row, with where it stands in the table.
abbrev pub Placed : Type 0
Placed = ℕ × Finding

-- ORDER BY window_start, created_at
abbrev pub earlier : Placed → Placed → Bool
earlier a b =
    ltb a.1.window_start b.1.window_start
    || a.1.window_start == b.1.window_start && ltb a.1.created_at b.1.created_at

abbrev pub overlaps_less : Window → Placed → Placed → Bool
overlaps_less window a b =
    let (inter_a, union_a) = overlap (a.1.window_start, a.1.window_end) window in
    let (inter_b, union_b) = overlap (b.1.window_start, b.1.window_end) window in
    ltb (inter_a * union_b) (inter_b * union_a)

-- `max` by the ratio, which keeps the first of equals.
unfoldable pub best_of : Window → Placed → List Placed → Placed
best_of window best [] = best
best_of window best (p ∷ ps) = best_of window (if overlaps_less window best p then p else best) ps

abbrev pub max_overlap : Window → List Placed → Option Placed
max_overlap window [] = none
max_overlap window (p ∷ ps) = some (best_of window p ps)

-- `_best_candidate`
unfoldable pub best_candidate : Scope → ℕ → ℕ → Incoming → List Finding → Option Placed
best_candidate scope run_id series_id incoming findings =
    max_overlap (window_of incoming) (
      sort_by earlier (select (λ p. absorbs scope run_id series_id incoming p.1) (placed findings)))

-- The row that `_merge` leaves: the union of the windows, the newest facts, one occurrence for each
-- run.
unfoldable pub merged : ℕ → Incoming → ℕ → Finding → Finding
merged run_id incoming now f =
    let window = window_of incoming in
    record f {
      window_start = min f.window_start window.0;
      window_end = max f.window_end window.1;
      severity = incoming.severity;
      dimension = incoming.dimension;
      score_impact = incoming.score_impact;
      summary = incoming.summary;
      evidence = incoming.evidence;
      occurrences = f.occurrences + (if is_run f.last_run_id run_id then 0 else 1);
      last_run_id = some run_id;
      updated_at = now;
    }

-- `_merge`: an update in place, or where the window grows backwards a delete and an insert.
unfoldable pub merge : ℕ → Incoming → ℕ → Placed → List Finding → List Finding
unfolding merged
merge run_id incoming now (at, f) findings =
    let new = merged run_id incoming now f in
    if new.window_start == f.window_start
    then update_at at new findings
    else remove_at at findings ++ new ∷ []
