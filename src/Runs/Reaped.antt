-- ===== src/Runs/Reaped.antt =====
-- Runs whose worker is lost (`reap_stale_runs` of api/src/tabayyun/services/runs.py).
use Prim.Native.Nat.{◌+◌}
use tabayyun.Prelude.{
  ℕ, ◌≡◌, ◌<◌, refl, true, some, first, first-update, first_holds, inl, inr, arith,
}
use tabayyun.Runs.Tables.{is_queued, is_running, Run, Store}
use tabayyun.Runs.Transactions.{
  is_run, claim_run, as_running, as_failed, worker_lost, is_stale, reap_stale_runs,
}
use tabayyun.Runs.Steps.{Reach, stay, step, reaped}
use tabayyun.Runs.Advance.{Reach-Progressed}
use tabayyun.Runs.Done.{HasEnded, Reach-HasEnded}

-- A run that has been running for too long is failed.
stale-HasEnded :
    (i older_than now started : ℕ) (s : Store) (r : Run)
    → first (is_run i) s.runs ≡ some r
    → is_running r.status ≡ true
    → r.started_at ≡ some started
    → started + older_than < now
    → HasEnded i (reap_stale_runs older_than now s).1
unfolding reap_stale_runs
stale-HasEnded i older_than now started s r e running since late =
    let stale : is_stale older_than now r ≡ true = rw (running, since) (ground (arith, late)) in
    let lost = as_failed worker_lost now in
    let after = first-update (is_run i) (is_stale older_than now) lost (λ x. refl) s.runs r e in
    (lost r, rw stale at after, refl)

claim_run-running :
    (i now : ℕ) (s : Store) (r : Run)
    → first (is_run i) s.runs ≡ some r
    → is_queued r.status ≡ true
    → first (is_run i) (claim_run i now s).1.runs ≡ some (as_running now r)
unfolding claim_run
claim_run-running i now s r e k =
    let found = first_holds (is_run i) s.runs r e in
    let after = first-update (is_run i) (is_run i) (as_running now) (λ x. refl) s.runs r e in
    rw (e, k, claim_run) (rw found at after)

-- No run runs forever: a queued run that a worker claims has ended once the reaper has come by later than
-- its limit after the claim, whatever the worker and the others did or left undone in between.
pub claim_run-reap_stale_runs :
    (i started older_than now : ℕ) (s t : Store) (r : Run)
    → first (is_run i) s.runs ≡ some r
    → is_queued r.status ≡ true
    → Reach (claim_run i started s).1 t
    → started + older_than < now
    → HasEnded i (reap_stale_runs older_than now t).1
claim_run-reap_stale_runs i started older_than now s t r e k go late =
    let swept = (reap_stale_runs older_than now t).1 in
    let (x, found, p) =
      Reach-Progressed i (claim_run i started s).1 t go (as_running started r)
        (claim_run-running i started s r e k) in
    elim (p.held refl) [
      | inl over ↦
          Reach-HasEnded i t swept (step t swept swept (reaped older_than now t) (stay swept))
            (x, found, over)
      | inr (running, since) ↦ stale-HasEnded i older_than now started t x found running since late
    ]
