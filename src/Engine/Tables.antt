-- ===== src/Engine/Tables.antt =====
-- The tables that the fetch engine works on (api/src/tabayyun/db/models.py), its constants
-- (api/src/tabayyun/services/fetches.py) and what it uses of the connectors, as parameters.
use Prim.Native.Nat.{◌*◌}
use tabayyun.Prelude.{ℕ, Bool, true, false, Option, String, List}
use tabayyun.Fetch.Coverage.{Coverage}

-- `FETCH_TRIGGERS`
pub data Trigger : Type 0 where
  manual poll run ingest check search_points metadata : Trigger

-- `FETCH_STATUSES`
pub data FetchStatus : Type 0 where
  queued running succeeded partial failed : FetchStatus

-- The key `status` of a source's `health`.
pub data HealthStatus : Type 0 where
  healthy degraded failing : HealthStatus

pub record LastError : Type 0 where
  pub at : ℕ
  pub message : Option String
  pub retryable : Bool

pub record LastFetch : Type 0 where
  pub id : ℕ
  pub status : FetchStatus
  pub finished_at : ℕ
  pub rows : ℕ

-- The dict `health`: each key may be missing.
pub record Health : Type 0 where
  pub status : Option HealthStatus
  pub checked_at : Option ℕ
  pub consecutive_failures : Option ℕ
  pub last_success_at : Option ℕ
  pub last_error : Option LastError
  pub last_fetch : Option LastFetch

-- The engine reads `backfill_s` of the stored config; the rest of it is for `build`.
pub record Source : Type 0 where
  pub id : ℕ
  pub org_id : ℕ
  pub workspace_id : ℕ
  pub source_type : String
  pub config : String
  pub backfill_s : Option ℕ
  pub enabled : Bool
  pub health : Health

pub record Series : Type 0 where
  pub id : ℕ
  pub source_id : ℕ
  pub external_id : String

pub record RemotePoint : Type 0 where
  pub external_id : String
  pub name : String
  pub unit : Option String
  pub description : Option String

-- The dict `result` of a fetch: points that failed, what a search found, or what a check answered.
pub data FetchResult : Type 0 where
  point_errors : List (ℕ × String) → FetchResult
  found : (items : List RemotePoint) → (truncated : Bool) → FetchResult
  checked : String → FetchResult

-- The dict `params` of a search; the other triggers have none.
pub record Params : Type 0 where
  pub query : Option String
  pub limit : Option ℕ

pub record SourceFetch : Type 0 where
  pub id : ℕ
  pub org_id : ℕ
  pub workspace_id : ℕ
  pub source_id : ℕ
  pub trigger : Trigger
  pub status : FetchStatus
  pub window_start : ℕ
  pub window_end : ℕ
  pub series_ids : Option (List ℕ)
  pub force : Bool
  pub calls : ℕ
  pub rows : ℕ
  pub error : Option String
  pub requested_by : Option ℕ
  pub run_id : Option ℕ
  pub params : Option Params
  pub outcome : Option FetchResult
  pub started_at : Option ℕ
  pub finished_at : Option ℕ

-- The tasks of jobs/names.py that a fetch is deferred as.
pub data Task : Type 0 where
  check_source ingest_source fetch_window : Task

-- A deferred job of the queue `fetches`, locked to its source.
pub record Job : Type 0 where
  pub task : Task
  pub lock : ℕ
  pub fetch_id : ℕ
  pub org_id : ℕ

-- `drawn` counts the ids that the database gave out.
pub record Store : Type 0 where
  pub sources : List Source
  pub series : List Series
  pub fetches : List SourceFetch
  pub coverage : List Coverage
  pub jobs : List Job
  pub drawn : ℕ

abbrev pub failing_after : ℕ
failing_after = 3

abbrev pub keep_for : ℕ
keep_for = 30 * 86400000000

abbrev pub internal_error : String
internal_error = "internal connector error"

abbrev pub budget_spent : String
budget_spent = "fetch budget spent"

abbrev pub no_master_key : String
no_master_key = "credentials unavailable: TABAYYUN_MASTER_KEY is not set"

-- `DATA_TRIGGERS`
abbrev pub is_data : Trigger → Bool
is_data Trigger.manual = true
is_data Trigger.poll = true
is_data Trigger.run = true
is_data Trigger.ingest = true
is_data _ = false

-- `TASK_TRIGGERS`
abbrev pub is_task : Trigger → Bool
is_task Trigger.check = true
is_task Trigger.search_points = true
is_task Trigger.metadata = true
is_task _ = false
