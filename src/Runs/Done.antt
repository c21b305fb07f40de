-- ===== src/Runs/Done.antt =====
-- An execution ends its run (`execute_run` of api/src/tabayyun/services/runs.py).
use tabayyun.Prelude.{
  ℕ, ◌≡◌, ◌≤◌, refl, sym, subst, ap, ◌∙◌, true, false, ◌&&◌, Option, none, some, String, List,
  first, first-update, first_holds, clip, Outcome, ok, Option-cases, Outcome-cases, Bool-cases, inl,
  inr, arith,
}
use tabayyun.Authz.Roles.{Scope}
use tabayyun.Db.{Host}
use tabayyun.Series.Values.{SeriesMetaIn, Overrides}
use tabayyun.Runs.Tables.{
  RunStatus, is_queued, is_running, is_live, RunParams, Run, Store, ParsedCsv, CheckReport, Written,
  Raised,
}
use tabayyun.Runs.Completion.{Completion, completed, skipped, complete_run, as_succeeded}
use tabayyun.Runs.Transactions.{is_run, mark_failed, as_failed, claim_run, as_running, Claim}
use tabayyun.Runs.Execute.{
  CsvError, Computed, Times, compute, cache_upload, finish_run, execute_run, fault_message,
  overrides_of,
}
use tabayyun.Runs.Progress.{stage}
use tabayyun.Runs.Steps.{Reach, stay, step, stored, complete_run-cases}
use tabayyun.Runs.Advance.{Reach-Progressed}

-- The run is there and has ended.
abbrev pub HasEnded : ℕ → Store → Type 0
HasEnded i store = (r : Run) × (first (is_run i) store.runs ≡ some r) × (is_live r.status ≡ false)

-- The run is there and is no longer queued.
abbrev pub HasStarted : ℕ → Store → Type 0
HasStarted i store =
    (r : Run) × (first (is_run i) store.runs ≡ some r) × (is_queued r.status ≡ false)

not_queued : (s : RunStatus) → 1 ≤ stage s → is_queued s ≡ false
not_queued RunStatus.queued e = absurd (omega (arith, e))
not_queued RunStatus.running e = refl
not_queued RunStatus.succeeded e = refl
not_queued RunStatus.failed e = refl

queued_stage : (s : RunStatus) → is_queued s ≡ false → 1 ≤ stage s
queued_stage RunStatus.queued e = absurd (cc)
queued_stage RunStatus.running e = omega arith
queued_stage RunStatus.succeeded e = omega arith
queued_stage RunStatus.failed e = omega arith

pub Reach-HasStarted : (i : ℕ) (s t : Store) → Reach s t → HasStarted i s → HasStarted i t
Reach-HasStarted i s t go (r, e, k) =
    let (after, f, p) = Reach-Progressed i s t go r e in
    (after, f, not_queued after.status (omega (arith, p.forward, queued_stage r.status k)))

pub Reach-HasEnded : (i : ℕ) (s t : Store) → Reach s t → HasEnded i s → HasEnded i t
Reach-HasEnded i s t go (r, e, k) =
    let (after, f, p) = Reach-Progressed i s t go r e in
    (after, f, subst (λ (z : Run). is_live z.status ≡ false) (sym (p.ended k)) k)

mark_failed-HasEnded :
    (i : ℕ) (message : String) (now : ℕ) (s : Store)
    → HasStarted i s
    → HasEnded i (mark_failed i message now s)
unfolding mark_failed
mark_failed-HasEnded i message now s (r, e, k) =
    let found = first_holds (is_run i) s.runs r e in
    let after =
      first-update (is_run i) (λ x. is_run i x && is_live x.status)
        (as_failed (clip 1000 message) now) (λ x. refl) s.runs r e in
    elim (Bool-cases (is_live r.status)) [
      | inl l ↦ (as_failed (clip 1000 message) now r, rw (found, l) at after, refl)
      | inr l ↦ (r, rw (found, l) at after, l)
    ]

neither_live : (s : RunStatus) → is_queued s ≡ false → is_running s ≡ false → is_live s ≡ false
neither_live s a b = ground arith

complete_run-HasEnded :
    (host : Host) (scope : Scope) (i : ℕ) (parsed : ParsedCsv) (report : CheckReport) (now : ℕ)
    (external_id : String) (o : Overrides) (db_now : ℕ) (s t : Store) (how : Completion)
    → complete_run ⦃host = host⦄ scope i parsed report now external_id o db_now s ≡ ok (how, t)
    → HasStarted i s
    → HasEnded i t
complete_run-HasEnded host scope i parsed report now external_id o db_now s t how h (r, e, k) =
    elim (complete_run-cases host scope i parsed report now external_id o db_now s t how h) [
      | inl (same, idle) ↦ subst (HasEnded i) same (r, e, neither_live r.status k (idle r e))
      | inr done ↦
          let found = first_holds (is_run i) s.runs r e in
          let after =
            first-update (is_run i) (is_run i) (as_succeeded report done.stats now) (λ x. refl)
              s.runs r e in
          (
            as_succeeded report done.stats now r,
            ap (first (is_run i)) done.runs ∙ rw found at after,
            refl,
          )
    ]

-- A claim that is given leaves the run started.
pub claim_run-HasStarted :
    (i now : ℕ) (s : Store) (r : Run)
    → first (is_run i) s.runs ≡ some r
    → is_queued r.status ≡ true
    → (c : Claim) × ((claim_run i now s).0 ≡ some c) × HasStarted i (claim_run i now s).1
unfolding claim_run
claim_run-HasStarted i now s r e k =
    let found = first_holds (is_run i) s.runs r e in
    let after = first-update (is_run i) (is_run i) (as_running now) (λ x. refl) s.runs r e in
    rw (e, k, claim_run) (_, refl, (as_running now r, rw found at after, refl))

module _ (host : Host) (read_csv : List ℕ → RunParams → Outcome CsvError ParsedCsv)
    (run_checks : ParsedCsv → SeriesMetaIn → RunParams → Outcome Raised CheckReport)
    (write : Option (ℕ → ℕ → ParsedCsv → Outcome String Written)) (meanwhile : ℕ → Store → Store)
    (others : (n : ℕ) (s : Store) → Reach s (meanwhile n s)) (i : ℕ) (at : Times) where
  cache_upload-HasEnded :
      (org_id : ℕ) (parsed : ParsedCsv) (how : Completion) (s : Store)
      → HasEnded i s
      → HasEnded i
          (cache_upload ⦃host = host⦄ read_csv run_checks write meanwhile i at org_id parsed how s)
  unfolding cache_upload
  cache_upload-HasEnded org_id parsed skipped s h = h
  cache_upload-HasEnded org_id parsed (completed series_id source_id) s h =
      elim (Option-cases write) [
        | inl e ↦ rw (e, cache_upload) h
        | inr (into, e) ↦
            let before = Reach-HasEnded i s (meanwhile 2 s) (others 2 s) h in
            let last =
              step (meanwhile 2 s) _ _
                (stored i org_id series_id (into source_id series_id parsed) at.stored
                  (meanwhile 2 s))
                (stay _) in
            rw (e, cache_upload) (Reach-HasEnded i (meanwhile 2 s) _ last before)
      ]

  finish_run-HasEnded :
      (scope : Scope) (c : Computed) (s : Store)
      → HasStarted i s
      → HasEnded i (finish_run ⦃host = host⦄ read_csv run_checks write meanwhile i at scope c s)
  unfolding finish_run
  finish_run-HasEnded scope c s h =
      elim (Outcome-cases (
        complete_run ⦃host = host⦄ scope i c.parsed c.report at.finished c.params.series_id
          (overrides_of c.params) at.db_now s)) [
            | inr (e, k) ↦
                rw (k, finish_run)
                  (mark_failed-HasEnded i (fault_message e) at.failed (meanwhile 1 s)
                    (Reach-HasStarted i s (meanwhile 1 s) (others 1 s) h))
            | inl ((how, after), k) ↦
                rw (k, finish_run)
                  (cache_upload-HasEnded scope.org_id c.parsed how after (
                    complete_run-HasEnded host scope i c.parsed c.report at.finished
                      c.params.series_id (overrides_of c.params) at.db_now s after how k h))
          ]

  -- The execution of a queued run always ends it: whatever the parser, the checks, the store of metadata and
  -- the cache answer, errors included, and whatever transactions on runs others commit in the meantime, the
  -- run is there behind it, succeeded or failed.
  pub execute_run-HasEnded :
      (s : Store) (r : Run)
      → first (is_run i) s.runs ≡ some r
      → is_queued r.status ≡ true
      → HasEnded i (execute_run ⦃host = host⦄ read_csv run_checks write meanwhile i at s)
  unfolding execute_run
  execute_run-HasEnded s r e k =
      let (c, taken, started) = claim_run-HasStarted i at.claimed s r e k in
      let mine = (claim_run i at.claimed s).1 in
      let later = Reach-HasStarted i mine (meanwhile 0 mine) (others 0 mine) started in
      elim (Outcome-cases (compute read_csv run_checks c)) [
        | inr (message, l) ↦
            rw (taken, l, execute_run)
              (mark_failed-HasEnded i message at.failed (meanwhile 0 mine) later)
        | inl (computed, l) ↦
            rw (taken, l, execute_run)
              (finish_run-HasEnded c.scope computed (meanwhile 0 mine) later)
      ]

not_claimed :
    (i now : ℕ) (s : Store)
    → ((r : Run) → first (is_run i) s.runs ≡ some r → is_queued r.status ≡ false)
    → claim_run i now s ≡ (none, s)
unfolding claim_run
not_claimed i now s h = elim (Option-cases (first (is_run i) s.runs)) [
  | inl e ↦ rw (e, claim_run) refl
  | inr (r, e) ↦ rw (e, h r e, claim_run) refl
]

-- A run that is not queued, and one that is not there, is left alone: nothing of the store changes.
pub execute_run_skips :
    (host : Host) (read_csv : List ℕ → RunParams → Outcome CsvError ParsedCsv)
    (run_checks : ParsedCsv → SeriesMetaIn → RunParams → Outcome Raised CheckReport)
    (write : Option (ℕ → ℕ → ParsedCsv → Outcome String Written)) (meanwhile : ℕ → Store → Store)
    (i : ℕ) (at : Times) (s : Store)
    → ((r : Run) → first (is_run i) s.runs ≡ some r → is_queued r.status ≡ false)
    → execute_run ⦃host = host⦄ read_csv run_checks write meanwhile i at s ≡ s
unfolding execute_run
execute_run_skips host read_csv run_checks write meanwhile i at s h =
    let same = not_claimed i at.claimed s h in
    rw (ap (λ p. p.0) same, execute_run) (ap (λ p. p.1) same)
