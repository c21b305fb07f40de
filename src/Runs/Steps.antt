-- ===== src/Runs/Steps.antt =====
-- The transactions on runs, in any order (api/src/tabayyun/services/runs.py): the api's, the workers', and
-- the reaper's.
use tabayyun.Prelude.{
  ℕ, ◌≡◌, refl, sym, subst, ◌∙◌, true, false, ◌&&◌, not, Option, some, String, List, [], ◌∷◌, ◌++◌,
  any, first, update, delete, some-injective, Outcome, ok, Outcome-cases, Option-cases, Bool-cases,
  ◌⊎◌, inl, inr,
}
use tabayyun.Authz.Roles.{Scope}
use tabayyun.Db.{Host}
use tabayyun.Findings.Report.{persist_report}
use tabayyun.Series.Tables as SeriesTables
use tabayyun.Series.Values.{Overrides}
use tabayyun.Series.Uploads.{upsert_upload_series}
use tabayyun.Runs.Tables.{
  is_running, Stats, Run, Upload, Score, Store, Written, RunParams, CheckReport, ParsedCsv,
}
use tabayyun.Runs.Completion.{
  is_score, score_of, Completion, complete_run, persist, as_succeeded, stats_of, record_cached,
}
use tabayyun.Runs.Transactions.{
  is_run, is_upload, is_json, create_run, enqueue_run, new_run, upload_of, mark_failed, claim_run,
  reap_stale_runs,
}

-- One transaction.
pub data Step : Store → Store → Type 0 where
  created :
      (host : Host) (scope : Scope) (content : List ℕ) (filename : String)
      (content_type : Option String) (params : RunParams) (now : ℕ) (s t : Store) (r : Run)
      → create_run ⦃host = host⦄ scope content filename content_type params now s ≡ ok (r, t)
      → Step s t
  enqueued : (run_id org_id : ℕ) (s : Store) → Step s (enqueue_run run_id org_id s)
  claimed : (run_id now : ℕ) (s : Store) → Step s (claim_run run_id now s).1
  failed :
      (run_id : ℕ) (message : String) (now : ℕ) (s : Store)
      → Step s (mark_failed run_id message now s)
  finished :
      (host : Host) (scope : Scope) (run_id : ℕ) (parsed : ParsedCsv) (report : CheckReport)
      (now : ℕ) (external_id : String) (o : Overrides) (db_now : ℕ) (s t : Store) (how : Completion)
      → complete_run ⦃host = host⦄ scope run_id parsed report now external_id o db_now s
        ≡ ok (how, t)
      → Step s t
  stored :
      (run_id org_id series_id : ℕ) (written : Outcome String Written) (now : ℕ) (s : Store)
      → Step s (record_cached run_id org_id series_id written now s)
  reaped : (older_than now : ℕ) (s : Store) → Step s (reap_stale_runs older_than now s).1

-- What transactions lead to, one after the other.
pub data Reach : Store → Store → Type 0 where
  stay : (s : Store) → Reach s s
  step : (s t u : Store) → Step s t → Reach t u → Reach s u

-- A completion: the run no longer ran and nothing happened, or it ran and what `persist` stored is left.
pub record IsFinished (host : Host) (scope : Scope) (run_id : ℕ) (parsed : ParsedCsv)
    (report : CheckReport) (now : ℕ) (s t : Store) : Type 0 where
  pub run : Run
  pub stats : Stats
  pub score : Score
  pub found : first (is_run run_id) s.runs ≡ some run
  pub was_running : is_running run.status ≡ true
  pub is_of_run : score.run_id ≡ run_id
  pub runs : t.runs ≡ update (is_run run_id) (as_succeeded report stats now) s.runs
  pub uploads : t.uploads ≡ delete (is_upload run_id) s.uploads
  pub scores : t.scores ≡ s.scores ++ score ∷ []

pub create_run-runs :
    ⦃host : Host⦄ (scope : Scope) (content : List ℕ) (filename : String)
    (content_type : Option String) (params : RunParams) (now : ℕ) (s t : Store) (r : Run)
    → create_run scope content filename content_type params now s ≡ ok (r, t)
    → (any (is_run (host.uuid4 s.drawn)) s.runs ≡ false)
      × (any (is_upload (host.uuid4 s.drawn)) s.uploads ≡ false)
      × (t.runs ≡ s.runs ++ new_run scope params (host.uuid4 s.drawn) now ∷ [])
      × (t.scores ≡ s.scores)
      × ((u : Upload) × (u.run_id ≡ host.uuid4 s.drawn) × (t.uploads ≡ s.uploads ++ u ∷ []))
unfolding create_run
create_run-runs ⦃host⦄ scope content filename content_type params now s t r h =
    let id = host.uuid4 s.drawn in
    elim (Bool-cases (any (is_run id) s.runs)) [
      | inl e ↦ absurd (cc (rw (e, create_run) at h))
      | inr e ↦
          elim (Bool-cases (not (is_json params.physical_min && is_json params.physical_max))) [
            | inl j ↦ absurd (cc (rw (e, j, create_run) at h))
            | inr j ↦ elim (Bool-cases (any (is_upload id) s.uploads)) [
              | inl k ↦ absurd (cc (rw (e, j, k, create_run) at h))
              | inr k ↦
                  let same = rw (e, j, k, create_run) at h in
                  (
                    e,
                    k,
                    cc,
                    cc,
                    (upload_of scope content filename content_type params id now, refl, cc),
                  )
            ]
          ]
    ]

module _ (host : Host) (scope : Scope) (run_id : ℕ) (parsed : ParsedCsv) (report : CheckReport)
    (now : ℕ) where
  persist-IsFinished :
      (series : SeriesTables.Series) (table : SeriesTables.Store) (s t : Store) (how : Completion)
      (r : Run)
      → first (is_run run_id) s.runs ≡ some r
      → is_running r.status ≡ true
      → persist ⦃host = host⦄ scope run_id parsed report now series table s ≡ ok (how, t)
      → IsFinished host scope run_id parsed report now s t
  unfolding persist
  persist-IsFinished series table s t how r e running h =
      elim (Bool-cases (any (is_score series.id now) s.scores)) [
        | inl k ↦ absurd (cc (rw (k, persist) at h))
        | inr k ↦
            let same = rw (k, persist) at h in
            let outcome =
              (persist_report ⦃host = host⦄ scope run_id series.id now report.found s.reported).0 in
            record {
              run = r;
              stats = stats_of parsed report outcome series;
              score = score_of scope run_id series.id report now;
              found = e;
              was_running = running;
              is_of_run = refl;
              runs = cc;
              uploads = cc;
              scores = cc;
            }
      ]

  pub complete_run-cases :
      (external_id : String) (o : Overrides) (db_now : ℕ) (s t : Store) (how : Completion)
      → complete_run ⦃host = host⦄ scope run_id parsed report now external_id o db_now s
        ≡ ok (how, t)
      → ((s ≡ t)
          × ((r : Run) → first (is_run run_id) s.runs ≡ some r → is_running r.status ≡ false))
        ⊎ IsFinished host scope run_id parsed report now s t
  unfolding complete_run
  complete_run-cases external_id o db_now s t how h =
      elim (Option-cases (first (is_run run_id) s.runs)) [
        | inl e ↦ inl (cc (rw (e, complete_run) at h), λ r f. absurd (cc))
        | inr (r, e) ↦ elim (Bool-cases (is_running r.status)) [
          | inr k ↦
              let idle = λ (x : Run) (f : first (is_run run_id) s.runs ≡ some x).
                subst (λ (z : Run). is_running z.status ≡ false) (some-injective r x (sym e ∙ f))
                  k in
              inl (cc (rw (e, k, complete_run) at h), idle)
          | inl k ↦
              elim (Outcome-cases
                (upsert_upload_series ⦃host = host⦄ scope external_id o now db_now s.series)) [
                  | inr (x, l) ↦ absurd (cc (rw (e, k, l, complete_run) at h))
                  | inl ((series, table), l) ↦ inr (
                      persist-IsFinished series table s t how r e k
                        (rw (e, k, l, complete_run) at h))
                ]
        ]
      ]
