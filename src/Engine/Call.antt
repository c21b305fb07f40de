-- ===== src/Engine/Call.antt =====
-- One call of a connector (`_run_call` and `_checked` of api/src/tabayyun/services/fetches.py). What
-- the connector, the cache and the clock answer is a parameter of the call.
use Prim.Native.Nat.{◌+◌}
use Prim.Native.String.{◌++◌ as append_text}
use tabayyun.Prelude.{
  ℕ, Bool, true, false, ◌&&◌, ◌||◌, not, Option, none, some, String, List, [], ◌∷◌, ◌==◌, str_eq,
  if◌then◌else◌, ltb, any, all, update, clip, Outcome, ok, err,
}
use tabayyun.Fetch.Instants.{datetime_to_ns}
use tabayyun.Fetch.Coverage.{Coverage, record_range}
use tabayyun.Fetch.Plan.{PointRef, Call, settled_end}
use tabayyun.Engine.Tables.{FetchStatus, FetchResult, Store, internal_error}
use tabayyun.Engine.Prepare.{Stop, stop, JobPlan}

pub record FetchOutcome : Type 0 where
  pub status : FetchStatus
  pub calls : ℕ
  pub rows : ℕ
  pub error : Option String
  pub retryable : Bool
  pub series_rows : List (ℕ × ℕ)
  pub point_errors : List (ℕ × String)
  pub outcome : Option FetchResult

-- A connector's table: one that does not cast to `BATCH_SCHEMA`, or its number of rows and the
-- qualities that stand in it.
pub data Table : Type 0 where
  malformed : Table
  cast : (n : ℕ) → (qualities : List String) → Table

pub data Batch : Type 0 where
  failure : (series_id : ℕ) → (message : String) → Batch
  fetched : (series_id : ℕ) → (table : Table) → Batch

-- How the connector's iterator ends.
pub data Ending : Type 0 where
  complete : Ending
  connector_error : (message : String) → (retryable : Bool) → Ending
  crashed : Ending

-- What a call meets: whether the deadline has passed when it would start, the batches and the end of
-- the iterator, the cache's answer to a write (the rows written, or its error), and the time after it.
pub record Turn : Type 0 where
  pub spent : Bool
  pub batches : List Batch
  pub ending : Ending
  pub write : (series_id : ℕ) → (rows : ℕ) → Outcome String ℕ
  pub now : ℕ

-- `QUALITIES`
abbrev pub is_quality : String → Bool
is_quality q = str_eq q "good" || str_eq q "uncertain" || str_eq q "bad" || str_eq q "estimated"

-- `_checked`: the rows of the table.
unfoldable pub checked_rows : Table → Outcome Stop ℕ
checked_rows malformed = err (stop "connector returned a malformed batch")
checked_rows (cast n qualities) =
    if all is_quality qualities then ok n else err (stop "connector returned an unknown quality")

-- A dict on the order of its insertions: `d[k] = v`, and `d[k] = d.get(k, 0) + n`.
unfoldable pub put : {V : Type 0} → ℕ → V → List (ℕ × V) → List (ℕ × V)
put k v [] = (k, v) ∷ []
put k v ((j, w) ∷ d) = let rest = put k v d in if j == k then (k, v) ∷ d else (j, w) ∷ rest

unfoldable pub get_or : ℕ → List (ℕ × ℕ) → ℕ
get_or k [] = 0
get_or k ((j, n) ∷ d) = if j == k then n else get_or k d

abbrev pub add_to : ℕ → ℕ → List (ℕ × ℕ) → List (ℕ × ℕ)
add_to k n d = put k (get_or k d + n) d

-- `tables` holds the rows of a series' tables together, as `concat_tables` joins them.
pub record Collected : Type 0 where
  pub tables : List (ℕ × ℕ)
  pub failed : List ℕ
  pub errors : List (ℕ × String)

abbrev pub is_asked : ℕ → List PointRef → Bool
is_asked series_id points = any (λ p. p.series_id == series_id) points

-- The loop over the batches; what was collected before it stops stays.
unfoldable pub collect : List PointRef → List Batch → Collected → Collected × Option Stop
unfolding checked_rows put get_or
collect points [] c = (c, none)
collect points (failure series_id message ∷ bs) c =
    let rest = collect points bs (record c {
      failed = series_id ∷ c.failed;
      errors = put series_id (clip 500 message) c.errors;
    }) in
    if is_asked series_id points
    then rest
    else (c, some (stop "connector returned rows for a point it was not asked for"))
collect points (fetched series_id table ∷ bs) c =
    if not (is_asked series_id points)
    then (c, some (stop "connector returned rows for a point it was not asked for"))
    else elim (checked_rows table) [
      | err e ↦ (c, some e)
      | ok n ↦ collect points bs (record c { tables = add_to series_id n c.tables })
    ]

-- The exceptions of the connector.
abbrev pub ended : Ending → Option Stop
ended complete = none
ended (connector_error message retryable) =
    some (record { message = message; retryable = retryable })
ended crashed = some (stop internal_error)

abbrev pub is_failed : List ℕ → ℕ → Bool
is_failed failed series_id = any (λ f. f == series_id) failed

-- `cache write failed: {exc}`
abbrev pub write_failed : String → Stop
write_failed message = record {
  message = append_text "cache write failed: " message;
  retryable = true;
}

-- The loop over the tables: the rows written, each series' rows, and why it stopped.
unfoldable pub write_tables :
    Turn → List ℕ → List (ℕ × ℕ) → ℕ → List (ℕ × ℕ) → ℕ × List (ℕ × ℕ) × Option Stop
unfolding put get_or
write_tables turn failed [] rows series_rows = (rows, series_rows, none)
write_tables turn failed ((series_id, n) ∷ tables) rows series_rows =
    if is_failed failed series_id || n == 0
    then write_tables turn failed tables rows series_rows
    else elim (turn.write series_id n) [
      | err e ↦ (rows, series_rows, some (write_failed e))
      | ok written ↦
          write_tables turn failed tables (rows + written) (add_to series_id written series_rows)
    ]

-- The coverage of the points that did not fail.
module _ (org_id start_ns end_ns now : ℕ) (failed : List ℕ) (series_rows : List (ℕ × ℕ)) where
  unfoldable pub record_points : List PointRef → List Coverage → List Coverage
  unfolding record_range get_or
  record_points [] table = table
  record_points (p ∷ ps) table =
      let after =
        record_range org_id p.series_id start_ns end_ns (get_or p.series_id series_rows) now "raw"
          table in
      record_points ps (if is_failed failed p.series_id then table else after)

abbrev pub is_none_list : List (ℕ × ℕ) → Bool
is_none_list [] = true
is_none_list (t ∷ ts) = false

-- The transaction behind a call.
unfoldable pub record_call :
    JobPlan → ℕ → Call → Turn → List ℕ → List (ℕ × ℕ) → (rows : ℕ) → Store → Store
unfolding record_points
record_call plan fetch_id call turn failed series_rows rows store =
    let covered_end = settled_end call.end_ns (datetime_to_ns turn.now) plan.settle_ns in
    record store {
      coverage =
          if ltb call.start_ns covered_end
          then record_points plan.org_id call.start_ns covered_end turn.now failed series_rows
              call.points store.coverage
          else store.coverage;
      fetches =
          update (λ f. f.id == fetch_id)
            (λ f. record f { calls = f.calls + 1; rows = f.rows + rows }) store.fetches;
    }

pub data CallEnd : Type 0 where
  done : (rows : ℕ) → CallEnd
  stopped : Stop → CallEnd

pub record AfterCall : Type 0 where
  pub result : CallEnd
  pub outcome : FetchOutcome
  pub store : Store

-- The errors of points that a call adds to the outcome.
unfoldable pub with_errors : List (ℕ × String) → FetchOutcome → FetchOutcome
with_errors errors o = record o { point_errors = errors }

-- The part behind the batches.
unfoldable pub finish_call :
    (has_cache : Bool) → JobPlan → ℕ → Call → Turn → Collected → FetchOutcome → Store → AfterCall
unfolding write_tables record_call
finish_call has_cache plan fetch_id call turn c outcome store =
    if not has_cache && not (is_none_list c.tables)
    then record { result = stopped (stop "no cache configured"); outcome = outcome; store = store }
    else let (written, series_rows, why) =
        write_tables turn c.failed c.tables 0 outcome.series_rows in
      let wrote : FetchOutcome = record outcome { series_rows = series_rows } in
      elim why [
        | some e ↦ record { result = stopped e; outcome = wrote; store = store }
        | none ↦ record {
          result = done written;
          outcome = wrote;
          store = record_call plan fetch_id call turn c.failed series_rows written store;
        }
      ]

abbrev pub or_else : Option Stop → Option Stop → Option Stop
or_else none e = e
or_else (some e) e' = some e

-- `_run_call`
unfoldable pub run_call :
    (has_cache : Bool) → JobPlan → (fetch_id : ℕ) → Call → Turn → FetchOutcome → Store → AfterCall
unfolding collect finish_call with_errors
run_call has_cache plan fetch_id call turn outcome store =
    let (c, why) =
      collect call.points turn.batches
        (record { tables = []; failed = []; errors = outcome.point_errors }) in
    let noted = with_errors c.errors outcome in
    elim (or_else why (ended turn.ending)) [
      | some e ↦ record { result = stopped e; outcome = noted; store = store }
      | none ↦ finish_call has_cache plan fetch_id call turn c noted store
    ]
