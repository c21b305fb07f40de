-- ===== src/Engine/Prepare.antt =====
-- Claiming a fetch and planning its calls (`prepare` and `_gaps` of
-- api/src/tabayyun/services/fetches.py). What `secrets.load` and `connectors.build` answer, and the
-- orders of texts, are parameters.
use Prim.Native.Nat.{◌*◌}
use tabayyun.Prelude.{
  ℕ, Bool, true, false, ◌&&◌, not, Option, none, some, String, List, [], ◌∷◌, ◌==◌, if◌then◌else◌,
  first, any, select, update, sort_by, Outcome, ok, err, Tx,
}
use tabayyun.Fetch.Instants.{datetime_to_ns}
use tabayyun.Fetch.Coverage.{Range, covered_ranges, missing_ranges}
use tabayyun.Fetch.Plan.{Limits, PointRef, Call, second_ns, limits_of, limits_within, plan_calls}
use tabayyun.Engine.Tables.{
  Trigger, FetchStatus, Source, Series, SourceFetch, Params, Store, no_master_key, is_data,
}

-- `StopError`
pub record Stop : Type 0 where
  pub message : String
  pub retryable : Bool

abbrev pub stop : String → Stop
stop message = record { message = message; retryable = false }

-- A connector with its config: what the engine reads of them.
pub record Connector : Type 0 where
  pub limits : Limits
  pub settle_s : ℕ
  pub max_points : ℕ
  pub max_span_s : ℕ

-- What `secrets.load` does: the credentials, if the source has any, or an error.
pub data Loaded : Type 0 where
  credentials : Option String → Loaded
  unavailable : Loaded
  undecryptable : (message : String) → Loaded

pub record JobPlan : Type 0 where
  pub source_id : ℕ
  pub org_id : ℕ
  pub connector : Connector
  pub calls : List Call
  pub settle_ns : ℕ
  pub trigger : Trigger
  pub params : Option Params
  pub series_ids : Option (List ℕ)
  pub workspace_id : ℕ

abbrev pub may_start : FetchStatus → Bool
may_start FetchStatus.queued = true
may_start FetchStatus.partial = true
may_start _ = false

abbrev pub or_now : Option ℕ → ℕ → Option ℕ
or_now none now = some now
or_now (some at) now = some at

-- Whether the fetch is over the series.
abbrev pub is_wanted : SourceFetch → Series → Bool
is_wanted fetch s =
    s.source_id == fetch.source_id
    && elim fetch.series_ids [ none ↦ true | some ids ↦ any (λ id. id == s.id) ids ]

abbrev pub is_empty_list : List Range → Bool
is_empty_list [] = true
is_empty_list (r ∷ rs) = false

-- What the cache lacks of a series in the window of the fetch.
unfoldable pub missing_of : SourceFetch → Store → Series → List Range
missing_of fetch store s =
    let start_ns = datetime_to_ns fetch.window_start in
    let end_ns = datetime_to_ns fetch.window_end in
    missing_ranges (covered_ranges s.id "raw" store.coverage) start_ns end_ns

abbrev pub point_of : Series → PointRef
point_of s = record { series_id = s.id; external_id = s.external_id }

-- The loop over the series.
unfoldable pub gaps_of : SourceFetch → Store → List Series → List (PointRef × List Range)
unfolding missing_of
gaps_of fetch store [] = []
gaps_of fetch store (s ∷ ss) =
    let rest = gaps_of fetch store ss in
    let missing = missing_of fetch store s in
    if fetch.force
    then (point_of s, (datetime_to_ns fetch.window_start, datetime_to_ns fetch.window_end) ∷ [])
      ∷ rest
    else if is_empty_list missing
    then rest
    else (point_of s, missing) ∷ rest

module _ (by_external : Series → Series → Bool) (by_id : PointRef → PointRef → Bool) where
  -- `_gaps`; `by_external` is the database's order on `external_id`.
  unfoldable pub gaps : SourceFetch → Store → List (PointRef × List Range)
  unfolding gaps_of
  gaps fetch store =
      gaps_of fetch store (sort_by by_external (select (is_wanted fetch) store.series))

  unfoldable pub calls_for : Bool → SourceFetch → Connector → Store → List Call
  calls_for with_calls fetch connector store =
      if with_calls
      then plan_calls by_id (gaps fetch store)
          (limits_within connector.limits (limits_of connector.max_points connector.max_span_s))
      else []

  module _ (load : Source → Loaded)
      (build : Source → Option String → Outcome String Connector) where
    abbrev pub credentials_of : Source → Outcome Stop (Option String)
    credentials_of source = elim (load source) [
      | credentials c ↦ ok c
      | unavailable ↦ err (stop no_master_key)
      | undecryptable message ↦ err (stop message)
    ]

    abbrev pub connector_of : Source → Option String → Outcome Stop Connector
    connector_of source c = elim (build source c) [
      | ok connector ↦ ok connector
      | err message ↦ err (stop message)
    ]

    -- The part behind the claim.
    unfoldable pub plan_claimed : Bool → SourceFetch → Source → Store → Outcome Stop JobPlan
    plan_claimed with_calls fetch source store =
        if not source.enabled && is_data fetch.trigger
        then err (stop "source disabled")
        else elim (credentials_of source) [
          | err e ↦ err e
          | ok c ↦ elim (connector_of source c) [
            | err e ↦ err e
            | ok connector ↦ ok (record {
              source_id = source.id;
              org_id = source.org_id;
              connector = connector;
              calls = calls_for with_calls fetch connector store;
              settle_ns = connector.settle_s * second_ns;
              trigger = fetch.trigger;
              params = fetch.params;
              series_ids = fetch.series_ids;
              workspace_id = source.workspace_id;
            })
          ]
        ]

    abbrev pub claimed : SourceFetch → ℕ → SourceFetch
    claimed fetch now = record fetch {
      status = FetchStatus.running;
      started_at = or_now fetch.started_at now;
    }

    unfoldable pub prepare :
        (with_calls : Bool) → (fetch_id now : ℕ) → Tx Stop Store (Option JobPlan)
    prepare with_calls fetch_id now store = elim (first (λ f. f.id == fetch_id) store.fetches) [
      | none ↦ ok (none, store)
      | some fetch ↦
          if not (may_start fetch.status)
          then ok (none, store)
          else elim (first (λ s. s.id == fetch.source_id) store.sources) [
            | none ↦ err (stop "source deleted")
            | some source ↦ elim (plan_claimed with_calls fetch source store) [
              | err e ↦ err e
              | ok plan ↦ ok (
                some plan,
                record store {
                  fetches = update (λ f. f.id == fetch_id) (λ f. claimed fetch now) store.fetches;
                },
              )
            ]
          ]
    ]
