-- ===== src/Runs/Kept.antt =====
-- Runs from their creation to their end (api/src/tabayyun/services/runs.py).
use Prim.Native.Nat.{◌+◌}
use tabayyun.Prelude.{
  ℕ, ◌≡◌, refl, sym, subst, ap, ◌∙◌, true, false, ◌||◌, some, List, [], ◌∷◌, ◌++◌, ◌==◌,
  if◌then◌else◌, any, count, first, first-update, first-append_other, first-append_new, first-none,
  first_holds, some-injective, any-append, any-delete_le, any-delete_self, count-append, Bool-cases,
  inl, inr, arith,
}
use tabayyun.Db.{Host}
use tabayyun.Authz.Roles.{Scope}
use tabayyun.Runs.Tables.{
  ParsedCsv, CheckReport, RunStatus, is_running, is_live, Run, Upload, Score, Store,
}
use tabayyun.Runs.Completion.{as_succeeded}
use tabayyun.Runs.Transactions.{is_run, is_upload, new_run}
use tabayyun.Runs.Steps.{
  Step, Reach, stay, step, created, enqueued, claimed, failed, finished, stored, reaped, IsFinished,
  create_run-runs, complete_run-cases,
}
use tabayyun.Runs.Life.{has_succeeded, scores_of, IsLived}
use tabayyun.Runs.Moves.{
  Moved-IsLived, update-Moved, claim_run-Moved, mark_failed-Moved, record_cached-Moved,
  reap_stale_runs-Moved,
}

any_one :
    (us : List Upload) (u : Upload) (i : ℕ)
    → any (is_upload i) us ≡ false
    → is_upload i u ≡ false
    → (any (is_upload i) us || any (is_upload i) (u ∷ [])) ≡ false
unfolding any
any_one us u i a b = ground arith

-- A run that is added, with its upload, where there is none of its id.
added-IsLived :
    (i : ℕ) (s t : Store) (x : Run) (u : Upload)
    → any (is_run x.id) s.runs ≡ false
    → x.status ≡ RunStatus.queued
    → u.run_id ≡ x.id
    → t.runs ≡ s.runs ++ x ∷ []
    → t.uploads ≡ s.uploads ++ u ∷ []
    → t.scores ≡ s.scores
    → IsLived i s
    → IsLived i t
added-IsLived i s t x u fresh queued mine runs uploads scores l =
    let same_scores = ap (count (λ y. y.run_id == i)) scores in
    elim (Bool-cases (is_run i x)) [
      | inr k ↦
          let first_same = ap (first (is_run i)) runs ∙ first-append_other (is_run i) s.runs x k in
          let other : is_upload i u ≡ false = ground (arith, k, mine) in
          let fewer = λ (e : any (is_upload i) s.uploads ≡ false).
            ap (any (is_upload i)) uploads
            ∙ any-append (is_upload i) s.uploads (u ∷ [])
            ∙ any_one s.uploads u i e other in
          Moved-IsLived i s t
            (record {
              same_scores = same_scores;
              fewer = fewer;
              away = λ e. first_same ∙ e;
              there = λ r e. (r, first_same ∙ e, refl, λ f. inl f);
            })
            l
      | inl k ↦
          let here : x.id ≡ i = ground (arith, k) in
          let none_before =
            first-none (is_run i) s.runs (subst (λ n. any (is_run n) s.runs ≡ false) here fresh) in
          let now =
            ap (first (is_run i)) runs ∙ first-append_new (is_run i) s.runs x none_before k in
          let no_score = (l.absent none_before).1 in
          record {
            absent = λ e. absurd (cc);
            ended = λ r e over.
                let same = some-injective x r (sym now ∙ e) in
                absurd (
                  cc (
                    subst (λ (z : RunStatus). is_live z ≡ false) queued
                      (subst (λ (z : Run). is_live z.status ≡ false) (sym same) over)));
            scored = λ r e.
                let same = some-injective x r (sym now ∙ e) in
                same_scores
                ∙ no_score
                ∙ ap (λ (z : RunStatus). if has_succeeded z then 1 else 0) (sym queued)
                ∙ ap (λ (z : Run). if has_succeeded z.status then 1 else 0) same;
          }
    ]

running_not_succeeded : (s : RunStatus) → is_running s ≡ true → has_succeeded s ≡ false
running_not_succeeded RunStatus.queued e = absurd (cc)
running_not_succeeded RunStatus.running e = refl
running_not_succeeded RunStatus.succeeded e = absurd (cc)
running_not_succeeded RunStatus.failed e = absurd (cc)

one_more : (x : Score) (i : ℕ) → (x.run_id == i) ≡ true → count (λ y. y.run_id == i) (x ∷ []) ≡ 1
unfolding count
one_more x i e = ground arith

none_more : (x : Score) (i : ℕ) → (x.run_id == i) ≡ false → count (λ y. y.run_id == i) (x ∷ []) ≡ 0
unfolding count
none_more x i e = ground arith

module _ (host : Host) (scope : Scope) (i run_id : ℕ) (parsed : ParsedCsv) (report : CheckReport)
    (now : ℕ) (s t : Store) (done : IsFinished host scope run_id parsed report now s t) where
  abbrev scores_after : scores_of i t ≡ scores_of i s + count (λ y. y.run_id == i) (done.score ∷ [])
  scores_after =
      ap (count (λ y. y.run_id == i)) done.scores
      ∙ count-append (λ y. y.run_id == i) s.scores (done.score ∷ [])

  -- The completion of another run.
  other-IsLived : (run_id == i) ≡ false → IsLived i s → IsLived i t
  other-IsLived k l =
      let not_mine = none_more done.score i (ground (arith, done.is_of_run, k)) in
      let fewer = λ (e : any (is_upload i) s.uploads ≡ false).
        ap (any (is_upload i)) done.uploads
        ∙ any-delete_le (is_upload i) (is_upload run_id) s.uploads e in
      Moved-IsLived i s t
        (update-Moved i (is_run run_id) (as_succeeded report done.stats now) s t (λ r. refl)
          (omega (arith, scores_after, not_mine)) fewer done.runs
          (λ r found at. absurd (ground (arith, k, at, first_holds (is_run i) s.runs r found))))
        l

  -- The completion of the run itself.
  own-IsLived : run_id ≡ i → IsLived i s → IsLived i t
  own-IsLived same l =
      let succeeded = as_succeeded report done.stats now in
      let found = subst (λ n. first (is_run n) s.runs ≡ some done.run) same done.found in
      let at = first_holds (is_run run_id) s.runs done.run done.found in
      let after : first (is_run i) t.runs ≡ some (succeeded done.run) =
        ap (first (is_run i)) done.runs
        ∙ rw at at
            (first-update (is_run i) (is_run run_id) succeeded (λ x. refl) s.runs done.run found) in
      let before = l.scored done.run found in
      let fresh = running_not_succeeded done.run.status done.was_running in
      let mine = one_more done.score i (ground (arith, done.is_of_run, same)) in
      record {
        absent = λ e. absurd (cc);
        ended = λ r e over.
            subst (λ n. any (is_upload n) t.uploads ≡ false) same
              (ap (any (is_upload run_id)) done.uploads
                ∙ any-delete_self (is_upload run_id) s.uploads);
        scored = λ r e.
            let is_it = some-injective (succeeded done.run) r (sym after ∙ e) in
            ground (arith, scores_after, before, fresh, mine)
            ∙ ap (λ (z : Run). if has_succeeded z.status then 1 else 0) is_it;
      }

Step-IsLived : (i : ℕ) (s t : Store) → Step s t → IsLived i s → IsLived i t
Step-IsLived i s t (created host scope content filename content_type params now _ _ r h) l =
    let (fresh, none_uploaded, runs, scores, (u, mine, uploads)) =
      create_run-runs ⦃host = host⦄ scope content filename content_type params now s t r h in
    added-IsLived i s t (new_run scope params (host.uuid4 s.drawn) now) u fresh refl mine runs
      uploads scores l
Step-IsLived i s t (enqueued run_id org_id _) l = record {
  absent = l.absent;
  ended = l.ended;
  scored = l.scored;
}
Step-IsLived i s t (claimed run_id now _) l = Moved-IsLived i s t (claim_run-Moved i run_id now s) l
Step-IsLived i s t (failed run_id message now _) l =
    Moved-IsLived i s t (mark_failed-Moved i run_id message now s) l
Step-IsLived i s t (finished host scope run_id parsed report now external_id o db_now _ _ how h) l =
    elim (complete_run-cases host scope run_id parsed report now external_id o db_now s t how h) [
      | inl (same, idle) ↦ subst (IsLived i) same l
      | inr done ↦ elim (Bool-cases (run_id == i)) [
        | inl k ↦ own-IsLived host scope i run_id parsed report now s t done (ground (arith, k)) l
        | inr k ↦ other-IsLived host scope i run_id parsed report now s t done k l
      ]
    ]
Step-IsLived i s t (stored run_id org_id series_id written now _) l =
    Moved-IsLived i s t (record_cached-Moved i run_id org_id series_id written now s) l
Step-IsLived i s t (reaped older_than now _) l =
    Moved-IsLived i s t (reap_stale_runs-Moved i older_than now s) l

-- Whatever the api, any number of workers and the reaper do, in whatever order, starting from a store that
-- is so: no upload outlives its run's end, and a run of an upload has exactly one score if it succeeded and
-- none otherwise, so that no result is stored twice and none of a run that failed.
pub Reach-IsLived : (i : ℕ) (s t : Store) → Reach s t → IsLived i s → IsLived i t
Reach-IsLived i s t (stay _) l = l
Reach-IsLived i s t (step _ u _ one rest) l = Reach-IsLived i u t rest (Step-IsLived i s u one l)
