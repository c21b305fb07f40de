-- ===== src/Engine/Create.antt =====
-- Creating and enqueueing fetches (api/src/tabayyun/services/fetches.py). `reads_windows` is what the
-- registry of connectors knows of a type of source.
use Prim.Native.Nat.{◌+◌, ◌-◌, ◌*◌}
use tabayyun.Prelude.{
  ℕ, Bool, true, false, ◌&&◌, Option, none, some, String, List, [], ◌∷◌, ◌++◌, ◌==◌, if◌then◌else◌,
  first, count,
}
use tabayyun.Engine.Tables.{Trigger, FetchStatus, Source, SourceFetch, Params, Task, Store}

-- The arguments of `create_fetch` that have defaults.
pub record Options : Type 0 where
  pub series_ids : Option (List ℕ)
  pub force : Bool
  pub user_id : Option ℕ
  pub run_id : Option ℕ
  pub status : FetchStatus
  pub params : Option Params

abbrev pub defaults : Options
defaults = record {
  series_ids = none;
  force = false;
  user_id = none;
  run_id = none;
  status = FetchStatus.queued;
  params = none;
}

unfoldable pub create_fetch :
    Source → Trigger → (start end : ℕ) → Options → Store → SourceFetch × Store
create_fetch source trigger start end options store =
    let fetch : SourceFetch = record {
      id = store.drawn;
      org_id = source.org_id;
      workspace_id = source.workspace_id;
      source_id = source.id;
      trigger = trigger;
      status = options.status;
      window_start = start;
      window_end = end;
      series_ids = options.series_ids;
      force = options.force;
      calls = 0;
      rows = 0;
      error = none;
      requested_by = options.user_id;
      run_id = options.run_id;
      params = options.params;
      outcome = none;
      started_at = none;
      finished_at = none;
    } in
    (fetch, record store { fetches = store.fetches ++ fetch ∷ []; drawn = store.drawn + 1 })

abbrev pub task_of : Trigger → Task
task_of Trigger.check = Task.check_source
task_of Trigger.search_points = Task.check_source
task_of Trigger.metadata = Task.check_source
task_of Trigger.ingest = Task.ingest_source
task_of _ = Task.fetch_window

unfoldable pub enqueue : SourceFetch → Store → Store
enqueue fetch store = record store {
  jobs =
      store.jobs
      ++ record {
        task = task_of fetch.trigger;
        lock = fetch.source_id;
        fetch_id = fetch.id;
        org_id = fetch.org_id;
      }
        ∷ [];
}

-- `cls is not None and not cls.reads_windows`
abbrev pub drops_files : Option Bool → Bool
drops_files (some false) = true
drops_files _ = false

abbrev pub backfill : Option ℕ → ℕ
backfill none = 86400
backfill (some s) = s

unfoldable pub queue_poll :
    (reads_windows : String → Option Bool)
    → (source_id now : ℕ) → (inline : Bool) → Store
    → Option ℕ × Store
unfolding create_fetch enqueue
queue_poll reads_windows source_id now inline store =
    elim (first (λ s. s.id == source_id) store.sources) [
      | none ↦ (none, store)
      | some source ↦
          let made =
            if drops_files (reads_windows source.source_type)
            then create_fetch source Trigger.ingest now now defaults store
            else create_fetch source Trigger.poll (now - backfill source.backfill_s * 1000000) now
                defaults store in
          (some made.0.id, if inline then made.1 else enqueue made.0 made.1)
    ]

abbrev pub is_waiting : FetchStatus → Bool
is_waiting FetchStatus.queued = true
is_waiting FetchStatus.running = true
is_waiting _ = false

unfoldable pub in_flight : ℕ → Store → ℕ
in_flight source_id store =
    count (λ f. f.source_id == source_id && is_waiting f.status) store.fetches
