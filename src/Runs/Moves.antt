-- ===== src/Runs/Moves.antt =====
-- Transactions that complete no run (api/src/tabayyun/services/runs.py).
use tabayyun.Prelude.{
  ℕ, ◌≡◌, refl, sym, subst, ap, ◌∙◌, Bool, true, false, ◌&&◌, none, some, String, ◌==◌,
  if◌then◌else◌, any, first, update, delete, first-update, first-update-none, first_holds,
  some-injective, any-delete_le, any-delete_all, any-delete_self, any_at_first, Outcome, ok, err,
  Option-cases, Bool-cases, ◌⊎◌, inl, inr, arith, clip,
}
use tabayyun.Runs.Tables.{
  RunStatus, is_queued, is_live, Run, Upload, Store, Written, cached, not_cached,
}
use tabayyun.Runs.Completion.{record_cached}
use tabayyun.Runs.Transactions.{
  is_run, is_upload, mark_failed, as_failed, worker_lost, claim_run, as_running, is_stale, is_lost,
  is_orphan, reap_stale_runs,
}
use tabayyun.Runs.Progress.{first-same_key}
use tabayyun.Runs.Life.{has_succeeded, scores_of, IsLived}

-- What a transaction that completes no run does to the run: it stays away, or it stays there, no more and no
-- less succeeded, and without its upload if it has ended.
pub record Moved (i : ℕ) (s t : Store) : Type 0 where
  pub same_scores : scores_of i t ≡ scores_of i s
  pub fewer : any (is_upload i) s.uploads ≡ false → any (is_upload i) t.uploads ≡ false
  pub away : first (is_run i) s.runs ≡ none → first (is_run i) t.runs ≡ none
  pub there :
      (r : Run)
      → first (is_run i) s.runs ≡ some r
      → (r' : Run) × (first (is_run i) t.runs ≡ some r')
        × (has_succeeded r'.status ≡ has_succeeded r.status)
        × (is_live r'.status ≡ false
            → (is_live r.status ≡ false) ⊎ (any (is_upload i) t.uploads ≡ false))

pub Moved-IsLived : (i : ℕ) (s t : Store) → Moved i s t → IsLived i s → IsLived i t
Moved-IsLived i s t m l = elim (Option-cases (first (is_run i) s.runs)) [
  | inl e ↦
      let (no_upload, no_score) = l.absent e in
      record {
        absent = λ f. (m.fewer no_upload, m.same_scores ∙ no_score);
        ended = λ r f over. m.fewer no_upload;
        scored = λ r f. absurd (cc (m.away e, f));
      }
  | inr (r, e) ↦
      let (after, f, alike, ends) = m.there r e in
      record {
        absent = λ g. absurd (cc);
        ended = λ x g over.
            let same = some-injective after x (sym f ∙ g) in
            elim (ends (subst (λ (z : Run). is_live z.status ≡ false) (sym same) over)) [
              | inl before ↦ m.fewer (l.ended r e before)
              | inr gone ↦ gone
            ];
        scored = λ x g.
            let same = some-injective after x (sym f ∙ g) in
            m.same_scores
            ∙ l.scored r e
            ∙ ap (λ b. if b then 1 else 0)
                (sym alike ∙ ap (λ (z : Run). has_succeeded z.status) same);
      }
]

pub Moved-refl : (i : ℕ) (s : Store) → Moved i s s
Moved-refl i s = record {
  same_scores = refl;
  fewer = λ e. e;
  away = λ e. e;
  there = λ r e. (r, e, refl, λ f. inl f);
}

-- Where an update changes the runs, each that it touches to no more and no less succeeded.
pub update-Moved :
    (i : ℕ) (q : Run → Bool) (f : Run → Run) (s t : Store)
    → ((r : Run) → (f r).id ≡ r.id)
    → scores_of i t ≡ scores_of i s
    → (any (is_upload i) s.uploads ≡ false → any (is_upload i) t.uploads ≡ false)
    → t.runs ≡ update q f s.runs
    → ((r : Run)
        → first (is_run i) s.runs ≡ some r
        → q r ≡ true
        → (has_succeeded (f r).status ≡ has_succeeded r.status)
          × (is_live (f r).status ≡ false
              → (is_live r.status ≡ false) ⊎ (any (is_upload i) t.uploads ≡ false)))
    → Moved i s t
update-Moved i q f s t same scores fewer runs moves =
    let keep = λ (x : Run). ap (λ n. n == i) (same x) in
    record {
      same_scores = scores;
      fewer = fewer;
      away = λ e. ap (first (is_run i)) runs ∙ first-update-none (is_run i) q f keep s.runs e;
      there = λ r e.
          let after = ap (first (is_run i)) runs ∙ first-update (is_run i) q f keep s.runs r e in
          elim (Bool-cases (q r)) [
            | inl k ↦ let (alike, ends) = moves r e k in (f r, rw k at after, alike, ends)
            | inr k ↦ (r, rw k at after, refl, λ g. inl g)
          ];
    }

queued_not_succeeded : (s : RunStatus) → is_queued s ≡ true → false ≡ has_succeeded s
queued_not_succeeded RunStatus.queued e = refl
queued_not_succeeded RunStatus.running e = refl
queued_not_succeeded RunStatus.succeeded e = absurd (cc)
queued_not_succeeded RunStatus.failed e = refl

live_not_succeeded : (s : RunStatus) → is_live s ≡ true → false ≡ has_succeeded s
live_not_succeeded RunStatus.queued e = refl
live_not_succeeded RunStatus.running e = refl
live_not_succeeded RunStatus.succeeded e = absurd (cc)
live_not_succeeded RunStatus.failed e = refl

pub claim_run-Moved : (i run_id now : ℕ) (s : Store) → Moved i s (claim_run run_id now s).1
unfolding claim_run
claim_run-Moved i run_id now s = elim (Option-cases (first (is_run run_id) s.runs)) [
  | inl e ↦ rw (e, claim_run) (Moved-refl i s)
  | inr (x, e) ↦ elim (Bool-cases (is_queued x.status)) [
    | inr k ↦ rw (e, k, claim_run) (Moved-refl i s)
    | inl k ↦
        rw (e, k, claim_run)
          (update-Moved i (is_run run_id) (as_running now) s
            (record s { runs = update (is_run run_id) (as_running now) s.runs }) (λ r. refl) refl
            (λ u. u) refl
            (λ r found at.
              let same = first-same_key i run_id s.runs x r e found at in
              (
                subst (λ (z : Run). false ≡ has_succeeded z.status) same
                    (queued_not_succeeded x.status k),
                λ f. absurd (cc),
              )))
  ]
]

pub mark_failed-Moved :
    (i run_id : ℕ) (message : String) (now : ℕ) (s : Store)
    → Moved i s (mark_failed run_id message now s)
unfolding mark_failed
mark_failed-Moved i run_id message now s =
    update-Moved i (λ r. is_run run_id r && is_live r.status) (as_failed (clip 1000 message) now) s
      (mark_failed run_id message now s) (λ r. refl) refl
      (any-delete_le (is_upload i) (is_upload run_id) s.uploads) refl
      (λ r found at.
        let here : r.id ≡ run_id = ground (arith, at) in
        let there : r.id ≡ i = ground (arith, first_holds (is_run i) s.runs r found) in
        (
          live_not_succeeded r.status (ground (arith, at)),
          λ f. inr (
              subst (λ n. any (is_upload n) (delete (is_upload run_id) s.uploads) ≡ false)
                (sym here ∙ there) (any-delete_self (is_upload run_id) s.uploads)),
        ))

pub record_cached-Moved :
    (i run_id org_id series_id : ℕ) (written : Outcome String Written) (now : ℕ) (s : Store)
    → Moved i s (record_cached run_id org_id series_id written now s)
unfolding record_cached
record_cached-Moved i run_id org_id series_id (err e) now s =
    update-Moved i (is_run run_id) (λ r. record r { cache = some (not_cached e) }) s _ (λ r. refl)
      refl (λ u. u) refl (λ r found at. (refl, λ f. inl f))
record_cached-Moved i run_id org_id series_id (ok w) now s =
    update-Moved i (is_run run_id) (λ r. record r { cache = some (cached w.rows w.files) }) s
      (record_cached run_id org_id series_id (ok w) now s) (λ r. refl) refl (λ u. u) refl
      (λ r found at. (refl, λ f. inl f))

pub reap_stale_runs-Moved :
    (i older_than now : ℕ) (s : Store) → Moved i s (reap_stale_runs older_than now s).1
unfolding reap_stale_runs
reap_stale_runs-Moved i older_than now s =
    let stale = is_stale older_than now in
    let lost = as_failed worker_lost now in
    let runs = update stale lost s.runs in
    update-Moved i stale lost s (reap_stale_runs older_than now s).1 (λ r. refl) refl
      (any-delete_le (is_upload i) (is_orphan runs) s.uploads) refl
      (λ r found at.
        let there = first_holds (is_run i) s.runs r found in
        let after : first (is_run i) runs ≡ some (lost r) =
          rw at at (first-update (is_run i) stale lost (λ x. refl) s.runs r found) in
        let orphan = λ (u : Upload) (k : is_upload i u ≡ true).
          any_at_first (is_run i) (λ x. x.id == u.run_id && is_lost x) runs (lost r) after
            (ground (arith, k, there)) in
        (
          live_not_succeeded r.status (ground (arith, at)),
          λ f. inr (any-delete_all (is_upload i) (is_orphan runs) orphan s.uploads),
        ))
