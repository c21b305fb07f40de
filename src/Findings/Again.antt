-- ===== src/Findings/Again.antt =====
-- A report that is persisted again (api/src/tabayyun/services/findings.py) merges into what is there.

use Prim.Native.Nat.{◌+◌}
use tabayyun.Prelude.{
  ℕ, zero, suc, ◌≡◌, refl, sym, ap, ◌∙◌, Bool, true, false, ◌||◌, some, List, [], ◌∷◌, ◌++◌, ◌==◌,
  arith, select, any, All, All-weaken, Bool-cases, Option-cases, inl, inr, any-append, is_some,
  some-injective,
}
use tabayyun.Authz.Roles.{Scope}
use tabayyun.Db.{Host}
use tabayyun.Rows.{row_at, any-update_at, any-remove_at, select-update_at, select-remove_at}
use tabayyun.Findings.Store.{Finding, Incoming, is_run, absorbs, best_candidate, merged, merge}
use tabayyun.Findings.Report.{
  Report, Store, new_finding, persist_finding, persist_findings, persist_report,
}
use tabayyun.Findings.Absorb.{
  any-select-true, best_candidate-absorbs, is_some-best_candidate, merged-absorbs, absorbs_other,
  new_finding-absorbs,
}

module _ (run_id now : ℕ) (i : Incoming) (n : ℕ) (f : Finding) (xs : List Finding)
    (here : row_at n xs ≡ some f) (q : Finding → Bool) where
  pub merge-any :
      (q f ≡ true → q (merged run_id i now f) ≡ true)
      → any q xs ≡ true
      → any q (merge run_id i now (n, f) xs) ≡ true
  unfolding merge
  merge-any h k =
      let new = merged run_id i now f in
      elim (Bool-cases (new.window_start == f.window_start)) [
        | inl e ↦ rw (e, merge) (any-update_at q new n xs f here h k)
        | inr e ↦ rw (e, merge) (any-remove_at q new n xs f here h k)
      ]

  pub merge-select :
      q f ≡ false
      → q (merged run_id i now f) ≡ false
      → select q (merge run_id i now (n, f) xs) ≡ select q xs
  unfolding merge
  merge-select h k =
      let new = merged run_id i now f in
      elim (Bool-cases (new.window_start == f.window_start)) [
        | inl e ↦ rw (e, merge) (select-update_at q new n xs f here h k)
        | inr e ↦ rw (e, merge) (select-remove_at q new n xs f here h k)
      ]

any-row_at :
    (q : Finding → Bool) (n : ℕ) (xs : List Finding) (f : Finding)
    → row_at n xs ≡ some f
    → q f ≡ true
    → any q xs ≡ true
unfolding row_at any
any-row_at q n [] f e h = absurd (cc)
any-row_at q zero (x ∷ xs) f e h = let same = some-injective x f e in ground (arith, ap q same)
any-row_at q (suc n) (x ∷ xs) f e h = ground (arith, any-row_at q n xs f e h)

module _ ⦃host : Host⦄ (scope : Scope) (run_id series_id now : ℕ) (i : Incoming) (drawn : ℕ)
    (xs : List Finding) where
  -- How an incoming finding lands: as a new row, or in the row at a place that absorbs it.
  pub data Landed (result : Bool × List Finding) : Type 0 where
    added :
        any (absorbs scope run_id series_id i) xs ≡ false
        → result ≡ (true, xs ++ new_finding scope run_id series_id now i drawn ∷ [])
        → Landed result
    absorbed :
        (n : ℕ) (f : Finding)
        → row_at n xs ≡ some f
        → absorbs scope run_id series_id i f ≡ true
        → result ≡ (false, merge run_id i now (n, f) xs)
        → Landed result

  pub persist_finding-Landed : Landed (persist_finding scope run_id series_id now i drawn xs)
  unfolding persist_finding
  persist_finding-Landed = elim (Option-cases (best_candidate scope run_id series_id i xs)) [
    | inl e ↦
        added (sym (is_some-best_candidate scope run_id series_id i xs) ∙ ap is_some e)
          (rw (e, persist_finding) refl)
    | inr ((n, f), e) ↦
        let (here, mine) = best_candidate-absorbs scope run_id series_id i xs n f e in
        absorbed n f here mine (rw (e, persist_finding) refl)
  ]

abbrev pub made_by : ℕ → Finding → Bool
made_by run_id f = is_run f.first_run_id run_id

unmade :
    (other : ℕ) (n : ℕ) (f : Finding) (xs : List Finding)
    → row_at n xs ≡ some f
    → any (made_by other) xs ≡ false
    → made_by other f ≡ false
unmade other n f xs here h = elim (Bool-cases (made_by other f)) [
  | inr e ↦ e
  | inl e ↦ absurd (ground (arith, any-row_at (made_by other) n xs f here e))
]

module _ ⦃host : Host⦄ (scope : Scope) (run_id other series_id now : ℕ) where
  abbrev takes : Incoming → Finding → Bool
  takes = absorbs scope other series_id

  -- What some row absorbs, some row absorbs after a turn of the loop.
  persist_finding-keeps :
      (i j : Incoming) (drawn : ℕ) (xs : List Finding)
      → any (takes j) xs ≡ true
      → any (takes j) (persist_finding scope run_id series_id now i drawn xs).1 ≡ true
  persist_finding-keeps i j drawn xs h =
      elim (persist_finding-Landed scope run_id series_id now i drawn xs) [
        | added absent e ↦
            ap (λ r. any (takes j) r.1) e
            ∙ any-append (takes j) xs (new_finding scope run_id series_id now i drawn ∷ [])
            ∙ ap (λ b. b || any (takes j) (new_finding scope run_id series_id now i drawn ∷ [])) h
        | absorbed n f here mine e ↦
            ap (λ r. any (takes j) r.1) e
            ∙ merge-any run_id now i n f xs here (takes j)
                (merged-absorbs scope run_id other series_id now i j f mine) h
      ]

  module _ (differs : (run_id == other) ≡ false) where
    -- A turn leaves no row that the other run made.
    persist_finding-made_by :
        (i : Incoming) (drawn : ℕ) (xs : List Finding)
        → any (made_by other) xs ≡ false
        → any (made_by other) (persist_finding scope run_id series_id now i drawn xs).1 ≡ false
    unfolding new_finding merged any
    persist_finding-made_by i drawn xs h =
        elim (persist_finding-Landed scope run_id series_id now i drawn xs) [
          | added absent e ↦
              let new = new_finding scope run_id series_id now i drawn in
              ap (λ r. any (made_by other) r.1) e
              ∙ any-append (made_by other) xs (new ∷ [])
              ∙ ground arith
          | absorbed n f here mine e ↦
              let not_f = unmade other n f xs here h in
              let same = merge-select run_id now i n f xs here (made_by other) not_f not_f in
              ap (λ r. any (made_by other) r.1) e
              ∙ sym (any-select-true (made_by other) (merge run_id i now (n, f) xs))
              ∙ ap (any (λ x. true)) same
              ∙ any-select-true (made_by other) xs
              ∙ h
        ]

    -- A turn leaves a row that absorbs its finding in the other run.
    persist_finding-covers :
        (i : Incoming) (drawn : ℕ) (xs : List Finding)
        → any (made_by other) xs ≡ false
        → any (takes i) (persist_finding scope run_id series_id now i drawn xs).1 ≡ true
    unfolding any
    persist_finding-covers i drawn xs h =
        elim (persist_finding-Landed scope run_id series_id now i drawn xs) [
          | added absent e ↦
              let new = new_finding scope run_id series_id now i drawn in
              let mine = new_finding-absorbs scope run_id other series_id now i i drawn differs in
              ap (λ r. any (takes i) r.1) e
              ∙ any-append (takes i) xs (new ∷ [])
              ∙ ground (arith, mine, Bool-cases (any (takes i) xs))
          | absorbed n f here mine e ↦
              let there =
                absorbs_other scope run_id other series_id now i i f mine
                  (unmade other n f xs here h) in
              ap (λ r. any (takes i) r.1) e
              ∙ merge-any run_id now i n f xs here (takes i)
                  (merged-absorbs scope run_id other series_id now i i f mine)
                  (any-row_at (takes i) n xs f here there)
        ]

  abbrev rows_of : (ℕ × ℕ) × ℕ × List Finding → List Finding
  rows_of r = r.2

  -- A turn, whether it made a row or not, then the rest of the loop.
  turn :
      (i : Incoming) (is : List Incoming) (counts : ℕ × ℕ) (drawn : ℕ) (xs : List Finding)
      (P : (ℕ × ℕ) × ℕ × List Finding → Type 0)
      → ((counts' : ℕ × ℕ) (drawn' : ℕ)
          → P (
              persist_findings scope run_id series_id now is counts' drawn'
                (persist_finding scope run_id series_id now i drawn xs).1))
      → P (persist_findings scope run_id series_id now (i ∷ is) counts drawn xs)
  unfolding persist_findings
  turn i is counts drawn xs P h =
      elim (Bool-cases (persist_finding scope run_id series_id now i drawn xs).0) [
        | inl e ↦ rw (e, persist_findings) (h (counts.0 + 1, counts.1) (drawn + 1))
        | inr e ↦ rw (e, persist_findings) (h (counts.0, counts.1 + 1) drawn)
      ]

  persist_findings-keeps :
      (is : List Incoming) (j : Incoming) (counts : ℕ × ℕ) (drawn : ℕ) (xs : List Finding)
      → any (takes j) xs ≡ true
      → any (takes j) (rows_of (persist_findings scope run_id series_id now is counts drawn xs))
        ≡ true
  unfolding persist_findings
  persist_findings-keeps [] j counts drawn xs h = h
  persist_findings-keeps (i ∷ is) j counts drawn xs h =
      turn i is counts drawn xs (λ r. any (takes j) (rows_of r) ≡ true)
        (λ c d. persist_findings-keeps is j c d _ (persist_finding-keeps i j drawn xs h))

  persist_findings-covers :
      (run_id == other) ≡ false
      → (is : List Incoming) (counts : ℕ × ℕ) (drawn : ℕ) (xs : List Finding)
      → any (made_by other) xs ≡ false
      → All
          (λ j.
            any (takes j) (rows_of (persist_findings scope run_id series_id now is counts drawn xs))
            ≡ true)
          is
        × (any
              (made_by other)
              (rows_of (persist_findings scope run_id series_id now is counts drawn xs))
            ≡ false)
  unfolding persist_findings
  persist_findings-covers differs [] counts drawn xs h = (tt, h)
  persist_findings-covers differs (i ∷ is) counts drawn xs h =
      turn i is counts drawn xs
        (λ r.
          All (λ j. any (takes j) (rows_of r) ≡ true) (i ∷ is)
          × (any (made_by other) (rows_of r) ≡ false))
        (λ c d.
          let after = (persist_finding scope run_id series_id now i drawn xs).1 in
          let rest =
            persist_findings-covers differs is c d after
              (persist_finding-made_by differs i drawn xs h) in
          (
            (
              persist_findings-keeps is i c d after (persist_finding-covers differs i drawn xs h),
              rest.0,
            ),
            rest.1,
          ))

module _ ⦃host : Host⦄ (scope : Scope) (run_id series_id now : ℕ) where
  -- Where every finding has a row that absorbs it, none is new.
  persist_findings-none_new :
      (is : List Incoming) (counts : ℕ × ℕ) (drawn : ℕ) (xs : List Finding)
      → All (λ j. any (absorbs scope run_id series_id j) xs ≡ true) is
      → (persist_findings scope run_id series_id now is counts drawn xs).0.0 ≡ counts.0
  unfolding persist_findings
  persist_findings-none_new [] counts drawn xs h = refl
  persist_findings-none_new (i ∷ is) counts drawn xs h =
      elim (persist_finding-Landed scope run_id series_id now i drawn xs) [
        | added absent e ↦ absurd (ground (arith, absent, h.0))
        | absorbed n f here mine e ↦
            rw (ap (λ r. r.0) e, persist_findings)
              (persist_findings-none_new is (counts.0, counts.1 + 1) drawn _
                (All-weaken _ _
                  (λ j k. persist_finding-keeps scope run_id run_id series_id now i j drawn xs k) is
                  h.1))
      ]

-- A report of a series that is persisted again in another run, which made no finding yet, adds no
-- finding: each merges into one that is there.
pub persist_report-again :
    ⦃host : Host⦄ (scope : Scope) (run_id other series_id now later : ℕ) (report : Report)
    (store : Store)
    → (run_id == other) ≡ false
    → any (made_by other) store.findings ≡ false
    → (persist_report scope other series_id later report
        (persist_report scope run_id series_id now report store).1).0.new
      ≡ 0
unfolding persist_report
persist_report-again scope run_id other series_id now later report store differs unmade_yet =
    let first =
      persist_findings scope run_id series_id now report.findings (0, 0) store.drawn
        store.findings in
    let covered =
      persist_findings-covers scope run_id other series_id now differs report.findings (0, 0)
        store.drawn store.findings unmade_yet in
    persist_findings-none_new scope other series_id later report.findings (0, 0) first.1 first.2
      covered.0
