-- ===== src/Runs/Advance.antt =====
-- How each transaction moves a run (api/src/tabayyun/services/runs.py).
use tabayyun.Prelude.{
  ℕ, ◌≡◌, refl, sym, subst, ◌∙◌, true, false, ◌&&◌, some, String, List, [], ◌∷◌, ◌++◌, any, first,
  first-append_other, first-none, Outcome, ok, err, Option-cases, Bool-cases, inl, inr, arith,
}
use tabayyun.Runs.Tables.{
  RunStatus, is_queued, is_running, is_live, Run, Store, Written, cached, not_cached,
}
use tabayyun.Runs.Completion.{as_succeeded, record_cached}
use tabayyun.Runs.Transactions.{
  is_run, new_run, mark_failed, as_failed, worker_lost, claim_run, as_running, is_stale,
  reap_stale_runs,
}
use tabayyun.Runs.Progress.{
  Progressed, Progress-refl, Progress-cached, live-Progress, queued-Progress, Progress-trans,
  update-Progressed, at-Progressed,
}
use tabayyun.Runs.Steps.{
  Step, Reach, stay, step, created, enqueued, claimed, failed, finished, stored, reaped,
  create_run-runs, complete_run-cases,
}

running-is_live : (s : RunStatus) → is_running s ≡ true → is_live s ≡ true
running-is_live s e = ground arith

append-Progressed :
    (i : ℕ) (runs : List Run) (x : Run)
    → any (is_run x.id) runs ≡ false
    → Progressed i runs (runs ++ x ∷ [])
append-Progressed i runs x fresh r e = elim (Bool-cases (is_run i x)) [
  | inr k ↦ (r, first-append_other (is_run i) runs x k ∙ e, Progress-refl r)
  | inl k ↦
      let same : x.id ≡ i = ground (arith, k) in
      absurd (cc (first-none (is_run i) runs (subst (λ n. any (is_run n) runs ≡ false) same fresh)))
]

claim_run-Progressed :
    (i run_id now : ℕ) (s : Store) → Progressed i s.runs (claim_run run_id now s).1.runs
unfolding claim_run
claim_run-Progressed i run_id now s = elim (Option-cases (first (is_run run_id) s.runs)) [
  | inl e ↦ rw (e, claim_run) (λ r f. (r, f, Progress-refl r))
  | inr (x, e) ↦ elim (Bool-cases (is_queued x.status)) [
    | inr k ↦ rw (e, k, claim_run) (λ r f. (r, f, Progress-refl r))
    | inl k ↦
        rw (e, k, claim_run)
          (at-Progressed i run_id (as_running now) s.runs x (λ r. refl) e
            (queued-Progress x (as_running now x) k))
  ]
]

record_cached-Progressed :
    (i run_id org_id series_id : ℕ) (written : Outcome String Written) (now : ℕ) (s : Store)
    → Progressed i s.runs (record_cached run_id org_id series_id written now s).runs
unfolding record_cached
record_cached-Progressed i run_id org_id series_id (err e) now s =
    update-Progressed i (is_run run_id) (λ r. record r { cache = some (not_cached e) }) s.runs
      (λ r. refl) (λ r f k. Progress-cached r (record r { cache = some (not_cached e) }) refl)
record_cached-Progressed i run_id org_id series_id (ok w) now s =
    update-Progressed i (is_run run_id) (λ r. record r { cache = some (cached w.rows w.files) })
      s.runs (λ r. refl)
      (λ r f k. Progress-cached r (record r { cache = some (cached w.rows w.files) }) refl)

mark_failed-Progressed :
    (i run_id : ℕ) (message : String) (now : ℕ) (s : Store)
    → Progressed i s.runs (mark_failed run_id message now s).runs
unfolding mark_failed
mark_failed-Progressed i run_id message now s =
    update-Progressed i (λ r. is_run run_id r && is_live r.status) _ s.runs (λ r. refl)
      (λ r f k. live-Progress r _ (ground (arith, k)) refl)

reap_stale_runs-Progressed :
    (i older_than now : ℕ) (s : Store)
    → Progressed i s.runs (reap_stale_runs older_than now s).1.runs
unfolding reap_stale_runs
reap_stale_runs-Progressed i older_than now s =
    update-Progressed i (is_stale older_than now) (as_failed worker_lost now) s.runs (λ r. refl)
      (λ r f k. live-Progress r (as_failed worker_lost now r) (ground (arith, k)) refl)

Step-Progressed : (i : ℕ) (s t : Store) → Step s t → Progressed i s.runs t.runs
Step-Progressed i s t (created host scope content filename content_type params now _ _ r h) =
    let (fresh, none_uploaded, runs, scores, uploads) =
      create_run-runs ⦃host = host⦄ scope content filename content_type params now s t r h in
    subst (Progressed i s.runs) (sym runs)
      (append-Progressed i s.runs (new_run scope params (host.uuid4 s.drawn) now) fresh)
Step-Progressed i s t (enqueued run_id org_id _) = λ r f. (r, f, Progress-refl r)
Step-Progressed i s t (claimed run_id now _) = claim_run-Progressed i run_id now s
Step-Progressed i s t (failed run_id message now _) = mark_failed-Progressed i run_id message now s
Step-Progressed i s t
      (finished host scope run_id parsed report now external_id o db_now _ _ how h) =
    elim (complete_run-cases host scope run_id parsed report now external_id o db_now s t how h) [
      | inl (same, idle) ↦
          subst (λ (u : Store). Progressed i s.runs u.runs) same (λ r f. (r, f, Progress-refl r))
      | inr done ↦ subst (Progressed i s.runs) (sym done.runs) (
          at-Progressed i run_id (as_succeeded report done.stats now) s.runs done.run (λ r. refl)
            done.found
            (live-Progress done.run (as_succeeded report done.stats now done.run)
              (running-is_live done.run.status done.was_running) refl))
    ]
Step-Progressed i s t (stored run_id org_id series_id written now _) =
    record_cached-Progressed i run_id org_id series_id written now s
Step-Progressed i s t (reaped older_than now _) = reap_stale_runs-Progressed i older_than now s

-- Whatever the api, any number of workers and the reaper do to a store of runs, in whatever order: a run
-- that is there stays, its status never moves back from running to queued or from an end to anything before
-- it; a run that ran has ended or still runs since the same time; and a run that has ended keeps its status,
-- error, times and statistics for good, only the note on the cache may still come.
pub Reach-Progressed : (i : ℕ) (s t : Store) → Reach s t → Progressed i s.runs t.runs
Reach-Progressed i s t (stay _) = λ r f. (r, f, Progress-refl r)
Reach-Progressed i s t (step _ u _ one rest) = λ r f.
    let (a, e, p) = Step-Progressed i s u one r f in
    let (b, k, q) = Reach-Progressed i u t rest a e in (b, k, Progress-trans r a b p q)
