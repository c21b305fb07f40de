-- ===== src/Runs/Tables.antt =====
-- The tables of runs (api/src/tabayyun/db/models.py) and what a run reads and leaves
-- (api/src/tabayyun/services/runs.py, core.py).
use tabayyun.Prelude.{
  ℕ, Bool, true, false, ◌&&◌, ◌||◌, Option, String, List, if◌then◌else◌, leb, ◌==◌, is_empty, strip,
}
use Prim.Native.Char.{code}
use Prim.Native.String.{◌∷◌ as add_char, [] as no_text}
use tabayyun.Fetch.Coverage.{Coverage}
use tabayyun.Series.Tables as SeriesTables
use tabayyun.Series.Tables.{Double}
use tabayyun.Findings.Report as Findings

-- `RUN_TRIGGERS`
pub data RunTrigger : Type 0 where
  upload suite by_hand : RunTrigger

-- `RUN_STATUSES`
pub data RunStatus : Type 0 where
  queued running succeeded failed : RunStatus

abbrev pub is_queued : RunStatus → Bool
is_queued RunStatus.queued = true
is_queued _ = false

abbrev pub is_running : RunStatus → Bool
is_running RunStatus.running = true
is_running _ = false

abbrev pub is_live : RunStatus → Bool
is_live s = is_queued s || is_running s

pub record RunParams : Type 0 where
  pub series_id : String
  pub unit : Option String
  pub ts_col : String
  pub value_col : String
  pub quality_col : Option String
  pub ingest_col : Option String
  pub physical_min : Option Double
  pub physical_max : Option Double
  pub now_ns : Option ℕ
  pub ts_unit : String

-- The key `cache` of the statistics.
pub data CacheInfo : Type 0 where
  cached : (rows files : ℕ) → CacheInfo
  not_cached : (error : String) → CacheInfo

-- The dict `stats` of a run of one series.
pub record Stats : Type 0 where
  pub n_samples : ℕ
  pub n_findings : ℕ
  pub n_metrics : ℕ
  pub n_findings_new : ℕ
  pub n_findings_merged : ℕ
  pub skipped_checks : List String
  pub ts_unit : String
  pub window : ℕ × ℕ
  pub series : ℕ × String × ℕ

-- `stats` starts out as {}; the key `cache` comes last.
pub record Run : Type 0 where
  pub id : ℕ
  pub org_id : ℕ
  pub workspace_id : ℕ
  pub trigger : RunTrigger
  pub status : RunStatus
  pub window_start : Option ℕ
  pub window_end : Option ℕ
  pub now_ns : Option ℕ
  pub started_at : Option ℕ
  pub finished_at : Option ℕ
  pub stats : Option Stats
  pub cache : Option CacheInfo
  pub error : Option String
  pub created_at : ℕ

pub record Upload : Type 0 where
  pub run_id : ℕ
  pub org_id : ℕ
  pub filename : String
  pub content_type : Option String
  pub size_bytes : ℕ
  pub content : List ℕ
  pub params : RunParams
  pub created_at : ℕ

pub record Score : Type 0 where
  pub series_id : ℕ
  pub org_id : ℕ
  pub run_id : ℕ
  pub layer : String
  pub method_version : String
  pub overall : ℕ
  pub dimensions : String
  pub n_findings : ℕ
  pub computed_at : ℕ

-- A deferred job: the run and its org.
pub record Job : Type 0 where
  pub run_id : ℕ
  pub org_id : ℕ

-- `drawn` counts the uuids drawn for runs.
pub record Store : Type 0 where
  pub runs : List Run
  pub uploads : List Upload
  pub scores : List Score
  pub jobs : List Job
  pub series : SeriesTables.Store
  pub reported : Findings.Store
  pub coverage : List Coverage
  pub drawn : ℕ

-- A table of the core and the unit of its times.
pub record ParsedCsv : Type 0 where
  pub table : String
  pub ts_unit : String

pub record ReportScore : Type 0 where
  pub method_version : String
  pub overall : ℕ
  pub dimensions : String
  pub n_findings : ℕ

-- `CheckReport` of the core.
pub record CheckReport : Type 0 where
  pub window : ℕ × ℕ
  pub now_ns : ℕ
  pub n_samples : ℕ
  pub score : ReportScore
  pub found : Findings.Report
  pub skipped : List String

-- What the cache wrote.
pub record Written : Type 0 where
  pub rows : ℕ
  pub files : ℕ
  pub start_ns : ℕ
  pub end_ns : ℕ

-- An exception, as its message and the name of its type.
pub record Raised : Type 0 where
  pub message : String
  pub type_name : String

-- The characters at which `str.splitlines` cuts.
unfoldable pub is_break : ℕ → Bool
is_break c = leb 10 c && leb c 13 || leb 28 c && leb c 30 || c == 133 || c == 8232 || c == 8233

-- `text.splitlines()[0]`
unfoldable pub first_line : String → String
unfolding is_break
first_line no_text = ""
first_line (add_char c s) =
    let rest = first_line s in if is_break (code c) then "" else add_char c rest

unfoldable pub error_line : Raised → String
unfolding first_line strip is_empty
error_line e =
    let message = strip e.message in if is_empty message then e.type_name else first_line message
