-- ===== src/Findings/Closed.antt =====
-- What persisting a report leaves alone, and how it counts (api/src/tabayyun/services/findings.py).

use Prim.Native.Nat.{◌+◌}
use tabayyun.Prelude.{
  ℕ, ◌≡◌, refl, sym, ap, subst, ◌∙◌, Bool, not, some, List, [], ◌∷◌, ◌++◌, ◌==◌, if◌then◌else◌,
  arith, select, length, Bool-cases, inl, inr, length-append,
}
use tabayyun.Authz.Roles.{Scope}
use tabayyun.Db.{Host}
use tabayyun.Rows.{row_at, select-append_none, length-update_at, length-remove_at}
use tabayyun.Findings.Store.{Finding, Incoming, is_absorbing, absorbs, merged, merge}
use tabayyun.Findings.Report.{
  Report, Store, new_finding, persist_finding, persist_findings, persist_report,
}
use tabayyun.Findings.Again.{added, absorbed, merge-select, persist_finding-Landed}

abbrev pub is_closed : Finding → Bool
is_closed f = not (is_absorbing f.status)

length-merge :
    (run_id now n : ℕ) (i : Incoming) (f : Finding) (xs : List Finding)
    → row_at n xs ≡ some f
    → length (merge run_id i now (n, f) xs) ≡ length xs
unfolding merge
length-merge run_id now n i f xs here =
    let new = merged run_id i now f in
    elim (Bool-cases (new.window_start == f.window_start)) [
      | inl e ↦ rw (e, merge) (length-update_at n new xs)
      | inr e ↦ rw (e, merge) (length-remove_at n new xs f here)
    ]

module _ ⦃host : Host⦄ (scope : Scope) (run_id series_id now : ℕ) where
  persist_finding-closed :
      (i : Incoming) (drawn : ℕ) (xs : List Finding)
      → select is_closed (persist_finding scope run_id series_id now i drawn xs).1
        ≡ select is_closed xs
  unfolding new_finding absorbs merged
  persist_finding-closed i drawn xs =
      elim (persist_finding-Landed scope run_id series_id now i drawn xs) [
        | added absent e ↦
            ap (λ r. select is_closed r.1) e
            ∙ select-append_none is_closed xs (new_finding scope run_id series_id now i drawn) refl
        | absorbed n f here mine e ↦
            ap (λ r. select is_closed r.1) e
            ∙ merge-select run_id now i n f xs here is_closed (ground arith) (ground arith)
      ]

  -- The rows, the new and the merged findings of a run of the loop, against those before it.
  pub record Counted (fs : List Incoming) (counts : ℕ × ℕ) (before after : List Finding)
      (counts' : ℕ × ℕ) : Type 0 where
    pub rows : length after + counts.0 ≡ length before + counts'.0
    pub all_land : counts'.0 + counts'.1 ≡ counts.0 + counts.1 + length fs
    pub closed : select is_closed after ≡ select is_closed before

  persist_findings-Counted :
      (fs : List Incoming) (counts : ℕ × ℕ) (drawn : ℕ) (xs : List Finding)
      → let r = persist_findings scope run_id series_id now fs counts drawn xs in
        Counted fs counts xs r.2 r.0
  unfolding persist_findings
  persist_findings-Counted [] counts drawn xs = record {
    rows = refl;
    all_land = ground arith;
    closed = refl;
  }
  persist_findings-Counted (f ∷ fs) (new, old) drawn xs =
      let go : Bool × List Finding → (ℕ × ℕ) × ℕ × List Finding = λ r.
        if r.0
        then persist_findings scope run_id series_id now fs (new + 1, old) (drawn + 1) r.1
        else persist_findings scope run_id series_id now fs (new, old + 1) drawn r.1 in
      let kept = persist_finding-closed f drawn xs in
      elim (persist_finding-Landed scope run_id series_id now f drawn xs) [
        | added absent e ↦
            let ys = xs ++ new_finding scope run_id series_id now f drawn ∷ [] in
            let rest = persist_findings-Counted fs (new + 1, old) (drawn + 1) ys in
            let longer = length-append xs (new_finding scope run_id series_id now f drawn ∷ []) in
            subst (λ r. Counted (f ∷ fs) (new, old) xs r.2 r.0) (sym (ap go e))
              (record {
                rows = omega (arith, rest.rows, longer);
                all_land = omega (arith, rest.all_land);
                closed = rest.closed ∙ sym (ap (λ r. select is_closed r.1) e) ∙ kept;
              })
        | absorbed n g here mine e ↦
            let ys = merge run_id f now (n, g) xs in
            let rest = persist_findings-Counted fs (new, old + 1) drawn ys in
            let same = length-merge run_id now n f g xs here in
            subst (λ r. Counted (f ∷ fs) (new, old) xs r.2 r.0) (sym (ap go e))
              (record {
                rows = omega (arith, rest.rows, same);
                all_land = omega (arith, rest.all_land);
                closed = rest.closed ∙ sym (ap (λ r. select is_closed r.1) e) ∙ kept;
              })
      ]

  -- Persisting a report leaves every muted and resolved finding as it is, adds as many rows as it counts
  -- new findings, and counts each finding of the report as new or as merged.
  pub persist_report-closed :
      (report : Report) (store : Store)
      → let outcome = (persist_report scope run_id series_id now report store).0 in
        let after = (persist_report scope run_id series_id now report store).1 in
        (select is_closed after.findings ≡ select is_closed store.findings)
        × (length after.findings ≡ length store.findings + outcome.new)
        × (outcome.new + outcome.merged ≡ length report.findings)
  unfolding persist_report
  persist_report-closed report store =
      let c = persist_findings-Counted report.findings (0, 0) store.drawn store.findings in
      (c.closed, omega (arith, c.rows), omega (arith, c.all_land))
