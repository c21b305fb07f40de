-- ===== src/Runs/Transactions.antt =====
-- The transactions of a run (api/src/tabayyun/services/runs.py, the function `tabayyun_reap_stale_runs` of
-- api/src/tabayyun/db/migrations/versions/0004_rls_memberships_roles.py). The id of a run is the primary
-- key of its table, that of its upload's table too.
use Prim.Native.Nat.{◌+◌}
use tabayyun.Prelude.{
  ℕ, Bool, true, false, ◌&&◌, not, Option, none, some, String, List, [], ◌∷◌, ◌++◌, ◌==◌, str_eq,
  if◌then◌else◌, ltb, length, any, count, first, update, delete, clip, ok, err, Tx,
}
use tabayyun.Authz.Roles.{Scope}
use tabayyun.Db.{Host}
use tabayyun.Series.Tables as SeriesTables
use tabayyun.Series.Tables.{Double, is_finite}
use tabayyun.Series.Uploads.{Fault, database, find_upload_series}
use tabayyun.Runs.Tables.{
  RunTrigger, RunStatus, is_queued, is_running, is_live, RunParams, Run, Upload, Store,
}

abbrev pub worker_lost : String
worker_lost = "worker lost"

abbrev pub is_run : ℕ → Run → Bool
is_run run_id r = r.id == run_id

abbrev pub is_upload : ℕ → Upload → Bool
is_upload run_id u = u.run_id == run_id

-- A run as it is created.
abbrev pub new_run : Scope → RunParams → (id now : ℕ) → Run
new_run scope params id now = record {
  id = id;
  org_id = scope.org_id;
  workspace_id = scope.workspace_id;
  trigger = RunTrigger.upload;
  status = RunStatus.queued;
  window_start = none;
  window_end = none;
  now_ns = params.now_ns;
  started_at = none;
  finished_at = none;
  stats = none;
  cache = none;
  error = none;
  created_at = now;
}

-- Its upload.
abbrev pub upload_of : Scope → List ℕ → String → Option String → RunParams → (id now : ℕ) → Upload
upload_of scope content filename content_type params id now = record {
  run_id = id;
  org_id = scope.org_id;
  filename = filename;
  content_type = content_type;
  size_bytes = length content;
  content = content;
  params = params;
  created_at = now;
}

abbrev pub is_json : Option Double → Bool
is_json none = true
is_json (some d) = is_finite d

-- An id that is taken violates the primary key, and JSONB holds neither NaN nor an infinity.
unfoldable pub create_run :
    ⦃host : Host⦄
    → Scope
    → (content : List ℕ) → (filename : String) → (content_type : Option String) → RunParams
    → (now : ℕ) → Tx Fault Store Run
unfolding any
create_run ⦃host⦄ scope content filename content_type params now store =
    let run = new_run scope params (host.uuid4 store.drawn) now in
    if any (is_run run.id) store.runs
    then err (database "duplicate key value violates unique constraint")
    else if not (is_json params.physical_min && is_json params.physical_max)
    then err (database "invalid input syntax for type json")
    else if any (is_upload run.id) store.uploads
    then err (database "duplicate key value violates unique constraint")
    else ok (
      run,
      record store {
        runs = store.runs ++ run ∷ [];
        uploads =
            store.uploads ++ upload_of scope content filename content_type params run.id now ∷ [];
        drawn = store.drawn + 1;
      },
    )

abbrev pub enqueue_run : (run_id org_id : ℕ) → Store → Store
enqueue_run run_id org_id store = record store {
  jobs = store.jobs ++ record { run_id = run_id; org_id = org_id } ∷ [];
}

-- `UPDATE .. SET status = 'failed'`
abbrev pub as_failed : (message : String) → (now : ℕ) → Run → Run
as_failed message now r = record r {
  status = RunStatus.failed;
  error = some message;
  finished_at = some now;
}

unfoldable pub mark_failed : (run_id : ℕ) → (message : String) → (now : ℕ) → Store → Store
unfolding update delete clip
mark_failed run_id message now store = record store {
  runs =
      update (λ r. is_run run_id r && is_live r.status) (as_failed (clip 1000 message) now)
        store.runs;
  uploads = delete (is_upload run_id) store.uploads;
}

-- What the worker takes from its first transaction.
pub record Claim : Type 0 where
  pub scope : Scope
  pub payload : Option (List ℕ × RunParams)
  pub stored : Option SeriesTables.Series

abbrev pub payload_of : Option Upload → Option (List ℕ × RunParams)
payload_of none = none
payload_of (some u) = some (u.content, u.params)

abbrev pub stored_for : Scope → Option (List ℕ × RunParams) → Store → Option SeriesTables.Series
stored_for scope none store = none
stored_for scope (some (content, params)) store =
    find_upload_series scope params.series_id store.series

abbrev pub as_running : (now : ℕ) → Run → Run
as_running now r = record r { status = RunStatus.running; started_at = some now }

-- The first transaction of `execute_run`; nothing for a run that is not queued.
unfoldable pub claim_run : (run_id now : ℕ) → Store → Option Claim × Store
unfolding first update find_upload_series
claim_run run_id now store = elim (first (is_run run_id) store.runs) [
  | none ↦ (none, store)
  | some r ↦
      let scope : Scope = record { org_id = r.org_id; workspace_id = r.workspace_id } in
      let payload = payload_of (first (is_upload run_id) store.uploads) in
      if is_queued r.status
      then (
        some (record { scope = scope; payload = payload; stored = stored_for scope payload store }),
        record store { runs = update (is_run run_id) (as_running now) store.runs },
      )
      else (none, store)
]

-- The runs that the reaper fails.
abbrev pub is_stale : (older_than now : ℕ) → Run → Bool
is_stale older_than now r =
    is_running r.status
    && (elim r.started_at [ none ↦ false | some started ↦ ltb (started + older_than) now ])

abbrev pub is_lost : Run → Bool
is_lost r = elim r.status [
  | RunStatus.failed ↦ elim r.error [ none ↦ false | some e ↦ str_eq e worker_lost ]
  | _ ↦ false
]

-- Whether the run of an upload is lost.
abbrev pub is_orphan : List Run → Upload → Bool
is_orphan runs u = any (λ r. r.id == u.run_id && is_lost r) runs

unfoldable pub reap_stale_runs : (older_than now : ℕ) → Store → ℕ × Store
unfolding update delete any count
reap_stale_runs older_than now store =
    let stale = is_stale older_than now in
    let runs = update stale (as_failed worker_lost now) store.runs in
    (
      count stale store.runs,
      record store { runs = runs; uploads = delete (is_orphan runs) store.uploads },
    )
