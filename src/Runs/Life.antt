-- ===== src/Runs/Life.antt =====
-- What a run has while it lives and behind its end (api/src/tabayyun/services/runs.py).
use tabayyun.Prelude.{ℕ, ◌≡◌, Bool, true, false, none, some, ◌==◌, if◌then◌else◌, any, count, first}
use tabayyun.Runs.Tables.{RunStatus, is_live, Run, Store}
use tabayyun.Runs.Transactions.{is_run, is_upload}

abbrev pub has_succeeded : RunStatus → Bool
has_succeeded RunStatus.succeeded = true
has_succeeded _ = false

abbrev pub scores_of : ℕ → Store → ℕ
scores_of i s = count (λ x. x.run_id == i) s.scores

-- A run that is not there has nothing, a run that has ended has no upload, and a run has one score if it
-- succeeded and none otherwise.
pub record IsLived (i : ℕ) (s : Store) : Type 0 where
  pub absent :
      first (is_run i) s.runs ≡ none → (any (is_upload i) s.uploads ≡ false) × (scores_of i s ≡ 0)
  pub ended :
      (r : Run)
      → first (is_run i) s.runs ≡ some r
      → is_live r.status ≡ false
      → any (is_upload i) s.uploads ≡ false
  pub scored :
      (r : Run)
      → first (is_run i) s.runs ≡ some r
      → scores_of i s ≡ (if has_succeeded r.status then 1 else 0)
