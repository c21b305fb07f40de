-- ===== src/Tests/Filling.antt =====
-- The fetch engine at a source with two series, over ten microseconds.
use tabayyun.Prelude.{
  sort_by, select, all, insert_by, update, clip, ℕ, ◌≡◌, refl, Bool, true, false, Option, none,
  some, String, List, [], ◌∷◌, arith, any, first, Outcome, ok,
}
use tabayyun.Fetch.Instants.{ns_to_datetime, ns_to_datetime_ceil, datetime_to_ns}
use tabayyun.Fetch.Coverage.{gap_to, fill, record_range, holds, covered_ranges, missing_ranges}
use tabayyun.Fetch.Plan.{
  plan_calls, limits_within, limits_of, add_gaps, add_ranges, add_spans, append_point, calls_of,
  chunk_calls, cut, settled_end, spans, Call,
}
use tabayyun.Engine.Tables.{Trigger, FetchStatus, HealthStatus, Source, Series, SourceFetch, Store}
use tabayyun.Engine.Health.{
  judged, next_health, no_health, Ended, after_fetches, after_fetches-verdict,
}
use tabayyun.Engine.Prepare.{
  prepare, plan_claimed, calls_for, gaps, gaps_of, missing_of, Connector, Loaded, JobPlan,
}
use tabayyun.Engine.Call.{
  checked_rows, collect, finish_call, get_or, put, record_call, record_points, with_errors,
  write_tables, Batch, failure, fetched, cast, complete, FetchOutcome, Turn, run_call,
}
use tabayyun.Engine.Execute.{note_points, run_calls, finish, execute_fetch}
use tabayyun.Engine.Covers.{is_cached}
use tabayyun.Engine.Planned.{Builds}
use tabayyun.Engine.Filled.{execute_fetch-filled}
use tabayyun.Engine.Final.{row_of, IsEnded}
use tabayyun.Engine.Ended.{execute_fetch-IsEnded}
use tabayyun.Engine.Once.{ended, execute_fetch-once}
use tabayyun.Engine.Failing.{run_call-uncovered}

abbrev plant : Source
plant = record {
  id = 1;
  org_id = 1;
  workspace_id = 5;
  source_type = "synthetic";
  config = "{}";
  backfill_s = none;
  enabled = true;
  health = no_health;
}

abbrev flow : Series
flow = record { id = 7; source_id = 1; external_id = "flow" }

abbrev level : Series
level = record { id = 8; source_id = 1; external_id = "level" }

abbrev empty_store : Store
empty_store = record {
  sources = plant ∷ [];
  series = flow ∷ level ∷ [];
  fetches = [];
  coverage = [];
  jobs = [];
  drawn = 0;
}

abbrev window : SourceFetch
window = record {
  id = 0;
  org_id = 1;
  workspace_id = 5;
  source_id = 1;
  trigger = Trigger.manual;
  status = FetchStatus.queued;
  window_start = 1000;
  window_end = 1010;
  series_ids = none;
  force = false;
  calls = 0;
  rows = 0;
  error = none;
  requested_by = none;
  run_id = none;
  params = none;
  outcome = none;
  started_at = none;
  finished_at = none;
}

abbrev queued_store : Store
queued_store = record empty_store { fetches = window ∷ []; drawn = 1 }

abbrev connector : Connector
connector = record {
  limits = record { max_points = 10; max_span_ns = 60000000000 };
  settle_s = 5;
  max_points = 10;
  max_span_s = 60;
}

abbrev build : Source → Option String → Outcome String Connector
build source c = ok connector

abbrev load : Source → Loaded
load source = Loaded.credentials none

abbrev answers : List Batch
answers = fetched 7 (cast 3 ("good" ∷ [])) ∷ fetched 8 (cast 2 ("bad" ∷ [])) ∷ []

abbrev turn : List Batch → Turn
turn batches = record {
  spent = false;
  batches = batches;
  ending = complete;
  write = λ s n. ok n;
  now = 100000000;
}

abbrev any_order : {A : Type 0} → A → A → Bool
any_order a b = true

abbrev message : ℕ → String → String
message n first = first

abbrev executed : List Batch → Option FetchOutcome × Store
executed batches =
    execute_fetch any_order any_order load build message true (λ n. turn batches) 0 100000000
      100000001 queued_store

abbrev succeeded_outcome : FetchOutcome
succeeded_outcome = record {
  status = FetchStatus.succeeded;
  calls = 1;
  rows = 5;
  error = none;
  retryable = false;
  series_rows = (7, 3) ∷ (8, 2) ∷ [];
  point_errors = [];
  outcome = none;
}

builds : Builds build 5
builds = record {
  points = λ s c k e. ground arith;
  span = λ s c k e. ground arith;
  config_points = λ s c k e. ground arith;
  config_span = λ s c k e. ground arith;
  settle = λ s c k e. ground arith;
}

execute_fetch-filled_example :
    any
      (holds 1000500)
      (missing_ranges (covered_ranges 8 "raw" (executed answers).1.coverage) 1000000 1010000)
    ≡ false
unfolding execute_fetch first datetime_to_ns prepare plan_claimed note_points run_calls calls_for
    finish plan_calls sort_by gaps select missing_ranges covered_ranges gap_to limits_within
    limits_of run_call checked_rows collect finish_call get_or put record_call record_points
    with_errors write_tables judged next_health gaps_of missing_of fill record_range ns_to_datetime
    ns_to_datetime_ceil add_gaps add_ranges add_spans append_point calls_of chunk_calls cut
    settled_end spans all any insert_by update clip
execute_fetch-filled_example =
    execute_fetch-filled any_order any_order load build message true (λ n. turn answers) 0 100000000
      100000001 5 queued_store (executed answers).1 window level succeeded_outcome 1000500 builds
      refl refl refl (λ n. omega arith) refl refl

execute_fetch-IsEnded_example :
    (o : FetchOutcome) × (row : SourceFetch) × ((executed answers).0 ≡ some o)
    × (row_of 0 (executed answers).1 ≡ some row)
    × IsEnded o row 100000001
unfolding first
execute_fetch-IsEnded_example =
    execute_fetch-IsEnded any_order any_order load build message true (λ n. turn answers) 0
      100000000 100000001 queued_store window refl refl

execute_fetch-once_example :
    execute_fetch any_order any_order load build message false
      (λ n. turn [])
      0
      100000002
      100000003
      (executed answers).1
    ≡ (none, (executed answers).1)
unfolding execute_fetch first datetime_to_ns prepare plan_claimed note_points run_calls calls_for
    finish plan_calls sort_by gaps select missing_ranges covered_ranges gap_to limits_within
    limits_of run_call checked_rows collect finish_call get_or put record_call record_points
    with_errors write_tables judged next_health gaps_of missing_of fill record_range ns_to_datetime
    ns_to_datetime_ceil add_gaps add_ranges add_spans append_point calls_of chunk_calls cut
    settled_end spans all any insert_by update clip
execute_fetch-once_example =
    execute_fetch-once any_order any_order load build message true (λ n. turn answers) 0 100000000
      100000001 queued_store window (executed answers).1 refl refl
      (ended succeeded_outcome refl (λ h. cc)) load build false (λ n. turn []) 100000002 100000003

abbrev plan : JobPlan
plan = record {
  source_id = 1;
  org_id = 1;
  connector = connector;
  calls = [];
  settle_ns = 5000000000;
  trigger = Trigger.manual;
  params = none;
  series_ids = none;
  workspace_id = 5;
}

abbrev call : Call
call = record {
  start_ns = 1000000;
  end_ns = 1010000;
  points =
      record { series_id = 7; external_id = "flow" }
      ∷ record { series_id = 8; external_id = "level" }
      ∷ [];
}

abbrev half_failed : List Batch
half_failed = fetched 7 (cast 3 ("good" ∷ [])) ∷ failure 8 "no such point" ∷ []

run_call-uncovered_example :
    is_cached 1000500 8
      (run_call true plan 0 call (turn half_failed) succeeded_outcome queued_store).store.coverage
    ≡ is_cached 1000500 8 queued_store.coverage
unfolding run_call any checked_rows collect finish_call get_or put record_call with_errors
    write_tables all clip
run_call-uncovered_example =
    run_call-uncovered true plan 0 call (turn half_failed) succeeded_outcome queued_store 1000500 8
      refl

abbrev ended_as : FetchStatus → Ended
ended_as status = record { fetch = record window { status = status }; now = 9; retryable = false }

after_fetches-verdict_example :
    (after_fetches no_health (
      ended_as FetchStatus.succeeded
      ∷ ended_as FetchStatus.failed
      ∷ ended_as FetchStatus.partial
      ∷ ended_as FetchStatus.failed
      ∷ [])).status
    ≡ some HealthStatus.failing
after_fetches-verdict_example =
    after_fetches-verdict no_health (ended_as FetchStatus.succeeded ∷ [])
      (ended_as FetchStatus.failed) (ended_as FetchStatus.partial) (ended_as FetchStatus.failed)
