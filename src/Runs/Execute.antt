-- ===== src/Runs/Execute.antt =====
-- `execute_run` and `parse_upload` (api/src/tabayyun/services/runs.py). `read_csv` is the core's parser and
-- `run_checks` its checks with the
-- validation of the metadata they get; `meanwhile` is what others commit between the transactions of a run.
use Prim.Native.Nat.{◌*◌}
use Prim.Native.String.{◌++◌ as append_text}
use tabayyun.Prelude.{
  ℕ, Option, none, some, String, List, ◌==◌, if◌then◌else◌, ltb, length, is_empty, Outcome, ok, err,
}
use tabayyun.Authz.Roles.{Scope}
use tabayyun.Db.{Host}
use tabayyun.Series.Tables.{MetadataError}
use tabayyun.Series.Values.{Overrides, SeriesMetaIn, merged_for_run, meta_for_core}
use tabayyun.Series.Uploads.{Fault, invalid, database}
use tabayyun.Runs.Tables.{RunParams, Store, ParsedCsv, CheckReport, Written, Raised, error_line}
use tabayyun.Runs.Completion.{Completion, completed, skipped, complete_run, record_cached}
use tabayyun.Runs.Transactions.{Claim, claim_run, mark_failed}

abbrev pub max_upload_bytes : ℕ
max_upload_bytes = 50 * 1024 * 1024

pub record UploadError : Type 0 where
  pub status_code : ℕ
  pub detail : String

-- How the core's parser fails: on the unit of the times, or in any other way.
pub data CsvError : Type 0 where
  timestamp_unit : (message : String) → CsvError
  not_csv : (message : String) → CsvError

-- `value or None`
abbrev pub or_none : Option String → Option String
or_none none = none
or_none (some s) = if is_empty s then none else some s

-- The names of the columns for the core.
abbrev pub cleaned : RunParams → RunParams
cleaned p = record p { quality_col = or_none p.quality_col; ingest_col = or_none p.ingest_col }

abbrev pub upload_error : CsvError → UploadError
upload_error (timestamp_unit message) = record { status_code = 422; detail = message }
upload_error (not_csv message) = record {
  status_code = 422;
  detail = append_text "cannot parse CSV: " message;
}

module _ (read_csv : List ℕ → RunParams → Outcome CsvError ParsedCsv) where
  unfoldable pub parse_upload : List ℕ → RunParams → Outcome UploadError ParsedCsv
  unfolding is_empty
  parse_upload content params =
      if ltb max_upload_bytes (length content)
      then err (record { status_code = 413; detail = "upload larger than 50 MiB" })
      else if length content == 0
      then err (record { status_code = 400; detail = "empty upload" })
      else elim (read_csv content (cleaned params)) [
        | ok parsed ↦ ok parsed
        | err e ↦ err (upload_error e)
      ]

-- `upload_overrides` of the parameters.
abbrev pub overrides_of : RunParams → Overrides
overrides_of p = record {
  unit = p.unit;
  physical_min = p.physical_min;
  physical_max = p.physical_max;
}

-- `invalid series metadata: {exc}`
abbrev pub invalid_metadata : MetadataError → String
invalid_metadata e =
    append_text "invalid series metadata: " (append_text e.field (append_text ": " e.message))

-- The parameters of the run with what the core made of its upload.
pub record Computed : Type 0 where
  pub params : RunParams
  pub parsed : ParsedCsv
  pub report : CheckReport

module _ (read_csv : List ℕ → RunParams → Outcome CsvError ParsedCsv)
    (run_checks : ParsedCsv → SeriesMetaIn → RunParams → Outcome Raised CheckReport) where
  -- The part between the transactions: the message of its failure, or what it computed.
  unfoldable pub compute : Claim → Outcome String Computed
  unfolding merged_for_run parse_upload meta_for_core error_line
  compute claim = elim claim.payload [
    | none ↦ err "upload missing"
    | some (content, params) ↦ elim (merged_for_run claim.stored (overrides_of params)) [
      | err e ↦ err (invalid_metadata e)
      | ok values ↦ elim (parse_upload read_csv content params) [
        | err e ↦ err e.detail
        | ok parsed ↦
            elim (run_checks parsed (meta_for_core params.series_id values) (cleaned params)) [
              | err e ↦ err (append_text "core error: " (error_line e))
              | ok report ↦ ok (record { params = params; parsed = parsed; report = report })
            ]
      ]
    ]
  ]

-- The message on a run whose completion was rolled back.
abbrev pub fault_message : Fault → String
fault_message (invalid e) = invalid_metadata e
fault_message (database message) = append_text "persist error: " message

-- The clock at the transactions of one execution.
pub record Times : Type 0 where
  pub claimed : ℕ
  pub failed : ℕ
  pub finished : ℕ
  pub db_now : ℕ
  pub stored : ℕ

module _ ⦃host : Host⦄ (read_csv : List ℕ → RunParams → Outcome CsvError ParsedCsv)
    (run_checks : ParsedCsv → SeriesMetaIn → RunParams → Outcome Raised CheckReport)
    (write : Option (ℕ → ℕ → ParsedCsv → Outcome String Written)) (meanwhile : ℕ → Store → Store)
    (run_id : ℕ) (at : Times) where
  -- `_cache_upload`, if there is a cache.
  unfoldable pub cache_upload : (org_id : ℕ) → ParsedCsv → Completion → Store → Store
  unfolding record_cached
  cache_upload org_id parsed skipped store = store
  cache_upload org_id parsed (completed series_id source_id) store = elim write [
    | none ↦ store
    | some into ↦
        record_cached run_id org_id series_id (into source_id series_id parsed) at.stored
          (meanwhile 2 store)
  ]

  -- The completion and what follows it.
  unfoldable pub finish_run : Scope → Computed → Store → Store
  unfolding complete_run mark_failed cache_upload
  finish_run scope c store =
      elim (complete_run scope run_id c.parsed c.report at.finished c.params.series_id
        (overrides_of c.params) at.db_now store) [
          | err e ↦ mark_failed run_id (fault_message e) at.failed (meanwhile 1 store)
          | ok (how, after) ↦ cache_upload scope.org_id c.parsed how after
        ]

  unfoldable pub execute_run : Store → Store
  unfolding claim_run compute mark_failed finish_run
  execute_run store =
      let (taken, claimed) = claim_run run_id at.claimed store in
      elim taken [
        | none ↦ claimed
        | some claim ↦ elim (compute read_csv run_checks claim) [
          | err message ↦ mark_failed run_id message at.failed (meanwhile 0 claimed)
          | ok c ↦ finish_run claim.scope c (meanwhile 0 claimed)
        ]
      ]
