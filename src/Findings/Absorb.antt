-- ===== src/Findings/Absorb.antt =====
-- What `_best_candidate` and `_merge` of api/src/tabayyun/services/findings.py keep.

use tabayyun.Prelude.{
  ℕ, ◌≡◌, refl, subst, ◌∙◌, ◌<◌, Bool, true, false, some, List, [], ◌∷◌, ◌==◌, ==_refl, str_eq_iff,
  arith, select, any, sort_by, any-sort_by, All, All-sort_by, Bool-cases, inl, inr, is_some,
  some-injective,
}
use tabayyun.Authz.Roles.{Scope}
use tabayyun.Db.{Host}
use tabayyun.Findings.Evidence.{same_kind_refl, same_kind-euclid}
use tabayyun.Rows.{placed, row_at, placed-row_at, any-placed}
use tabayyun.Findings.Store.{
  Finding, Incoming, Window, window_of, is_run, absorbs, Placed, earlier, overlaps_less, best_of,
  max_overlap, best_candidate, merged,
}
use tabayyun.Findings.Report.{new_finding}

All-select_both :
    {A : Type 0} (P : A → Type 0) (q : A → Bool) (xs : List A)
    → All P xs
    → All (λ x. P x × (q x ≡ true)) (select q xs)
unfolding select
All-select_both P q [] h = tt
All-select_both P q (x ∷ xs) h = elim (Bool-cases (q x)) [
  | inl e ↦ rw e ((h.0, e), All-select_both P q xs h.1)
  | inr e ↦ rw e (All-select_both P q xs h.1)
]

best_of-All :
    (P : Placed → Type 0) (window : Window) (best : Placed) (ps : List Placed)
    → P best
    → All P ps
    → P (best_of window best ps)
unfolding best_of
best_of-All P window best [] h hs = h
best_of-All P window best (p ∷ ps) h hs = elim (Bool-cases (overlaps_less window best p)) [
  | inl e ↦ rw e (best_of-All P window p ps hs.0 hs.1)
  | inr e ↦ rw e (best_of-All P window best ps h hs.1)
]

max_overlap-All :
    (P : Placed → Type 0) (window : Window) (ps : List Placed) (p : Placed)
    → All P ps
    → max_overlap window ps ≡ some p
    → P p
max_overlap-All P window [] p h e = absurd (cc)
max_overlap-All P window (q ∷ ps) p h e =
    subst P (some-injective _ p e) (best_of-All P window q ps h.0 h.1)

is_some-max_overlap :
    (window : Window) (ps : List Placed) → is_some (max_overlap window ps) ≡ any (λ p. true) ps
unfolding any
is_some-max_overlap window [] = refl
is_some-max_overlap window (p ∷ ps) = refl

pub any-select-true :
    {A : Type 0} (q : A → Bool) (xs : List A) → any (λ x. true) (select q xs) ≡ any q xs
unfolding any select
any-select-true q [] = refl
any-select-true q (x ∷ xs) = elim (Bool-cases (q x)) [
  | inl e ↦ rw e refl
  | inr e ↦ rw e (any-select-true q xs)
]

module _ (scope : Scope) (run_id series_id : ℕ) (incoming : Incoming)
    (findings : List Finding) where
  abbrev candidate : Finding → Bool
  candidate = absorbs scope run_id series_id incoming

  -- The candidate is a row of the table that absorbs the finding.
  pub best_candidate-absorbs :
      (n : ℕ) (f : Finding)
      → best_candidate scope run_id series_id incoming findings ≡ some (n, f)
      → (row_at n findings ≡ some f) × (candidate f ≡ true)
  unfolding best_candidate
  best_candidate-absorbs n f e =
      max_overlap-All (λ p. (row_at p.0 findings ≡ some p.1) × (candidate p.1 ≡ true))
        (window_of incoming) (sort_by earlier (select (λ p. candidate p.1) (placed findings)))
        (n, f)
        (All-sort_by earlier _ (select (λ p. candidate p.1) (placed findings)) (
          All-select_both (λ p. row_at p.0 findings ≡ some p.1) (λ p. candidate p.1)
            (placed findings) (placed-row_at findings)))
        e

  -- There is one exactly where some row absorbs the finding.
  pub is_some-best_candidate :
      is_some (best_candidate scope run_id series_id incoming findings) ≡ any candidate findings
  unfolding best_candidate
  is_some-best_candidate =
      is_some-max_overlap (window_of incoming) _
      ∙ any-sort_by earlier (λ p. true) (select (λ p. candidate p.1) (placed findings))
      ∙ any-select-true (λ p. candidate p.1) (placed findings)
      ∙ any-placed candidate findings

window_of-filled : (incoming : Incoming) → (window_of incoming).0 < (window_of incoming).1
unfolding window_of
window_of-filled incoming = omega arith

module _ (scope : Scope) (run_id other_run series_id now : ℕ) (i j : Incoming) where
  -- What a row absorbs it still absorbs after it absorbed another finding.
  pub merged-absorbs :
      (f : Finding)
      → absorbs scope run_id series_id i f ≡ true
      → absorbs scope other_run series_id j f ≡ true
      → absorbs scope other_run series_id j (merged run_id i now f) ≡ true
  unfolding absorbs merged
  merged-absorbs f h k = ground (
    arith,
    same_kind-euclid f.evidence i.evidence j.evidence,
    window_of-filled i,
    window_of-filled j,
  )

  -- What a row absorbs in one run it absorbs in any other that did not make it.
  pub absorbs_other :
      (f : Finding)
      → absorbs scope run_id series_id i f ≡ true
      → is_run f.first_run_id other_run ≡ false
      → absorbs scope other_run series_id i f ≡ true
  unfolding absorbs
  absorbs_other f h k = ground arith

  -- A row absorbs the finding that it was made of, in any other run than that which made it.
  pub new_finding-absorbs :
      ⦃host : Host⦄ (drawn : ℕ)
      → (run_id == other_run) ≡ false
      → absorbs scope other_run series_id i (new_finding scope run_id series_id now i drawn) ≡ true
  unfolding absorbs new_finding
  new_finding-absorbs drawn h = ground (
    arith,
    same_kind_refl i.evidence,
    window_of-filled i,
    ==_refl scope.workspace_id,
    ==_refl series_id,
    (str_eq_iff i.check_id i.check_id).1 refl,
  )
