-- ===== src/Findings/Status.antt =====
-- The lifecycle of a finding (`change_status` of api/src/tabayyun/services/findings.py).

use tabayyun.Prelude.{
  ℕ, zero, suc, ◌≡◌, refl, ap, subst, Bool, true, false, ◌&&◌, Option, none, some, String, List, [],
  ◌∷◌, ◌==◌, str_eq, if◌then◌else◌, arith, Outcome, ok, err, first, first_holds, first-All, strip,
  is_empty, Option-cases, Bool-cases, inl, inr,
}
use tabayyun.Authz.Roles.{Scope}
use tabayyun.Rows.{placed, row_at, placed-row_at, update_at}
use tabayyun.Findings.Store.{Status, Finding, Placed, is_absorbing}

pub data StatusError : Type 0 where
  unknown_status : String → StatusError
  finding_not_found : ℕ → StatusError
  transition : (current requested : Status) → StatusError

-- The names of `FINDING_STATUSES`.
unfoldable pub status_named : String → Option Status
status_named name =
    if str_eq name "open"
    then some Status.opened
    else if str_eq name "acked"
    then some Status.acked
    else if str_eq name "muted"
    then some Status.muted
    else if str_eq name "resolved"
    then some Status.resolved
    else none

-- `status in TRANSITIONS[current]`
unfoldable pub may_become : Status → Status → Bool
may_become Status.opened Status.acked = true
may_become Status.opened Status.muted = true
may_become Status.opened Status.resolved = true
may_become Status.acked Status.resolved = true
may_become Status.acked Status.opened = true
may_become Status.muted Status.opened = true
may_become Status.resolved Status.opened = true
may_become _ _ = false

-- `get_finding`, with where the row stands.
unfoldable pub get_finding : Scope → ℕ → List Finding → Option Placed
get_finding scope finding_id findings =
    first (λ p. p.1.id == finding_id && p.1.workspace_id == scope.workspace_id) (placed findings)

-- `reason.strip() if reason and reason.strip() else None`
unfoldable pub cleaned_reason : Option String → Option String
cleaned_reason none = none
cleaned_reason (some reason) =
    if is_empty reason then none else if is_empty (strip reason) then none else some (strip reason)

unfoldable pub with_status : Status → Option String → ℕ → Finding → Finding
unfolding cleaned_reason
with_status status reason now f = record f {
  status = status;
  status_reason = cleaned_reason reason;
  status_at = some now;
  updated_at = now;
}

-- The part behind the test on the name.
unfoldable pub move_status :
    Scope
    → ℕ
    → Status
    → Option String
    → ℕ
    → List Finding
    → Outcome StatusError (Finding × List Finding)
unfolding get_finding may_become with_status
move_status scope finding_id status reason now findings =
    elim (get_finding scope finding_id findings) [
      | none ↦ err (finding_not_found finding_id)
      | some (at, f) ↦
          if may_become f.status status
          then ok (
            with_status status reason now f,
            update_at at (with_status status reason now f) findings,
          )
          else err (transition f.status status)
    ]

unfoldable pub change_status :
    Scope
    → ℕ
    → String
    → Option String
    → ℕ
    → List Finding
    → Outcome StatusError (Finding × List Finding)
unfolding status_named move_status
change_status scope finding_id name reason now findings = elim (status_named name) [
  | none ↦ err (unknown_status name)
  | some status ↦ move_status scope finding_id status reason now findings
]

row_at-update_self :
    (n : ℕ) (y : Finding) (xs : List Finding) (x : Finding)
    → row_at n xs ≡ some x
    → row_at n (update_at n y xs) ≡ some y
unfolding row_at update_at
row_at-update_self n y [] x e = absurd (cc)
row_at-update_self zero y (z ∷ xs) x e = refl
row_at-update_self (suc n) y (z ∷ xs) x e = row_at-update_self n y xs x e

row_at-update_other :
    (n m : ℕ) (y : Finding) (xs : List Finding)
    → (m ≡ n → ⊥)
    → row_at m (update_at n y xs) ≡ row_at m xs
unfolding row_at update_at
row_at-update_other n m y [] h = refl
row_at-update_other zero zero y (z ∷ xs) h = absurd (h refl)
row_at-update_other zero (suc m) y (z ∷ xs) h = refl
row_at-update_other (suc n) zero y (z ∷ xs) h = refl
row_at-update_other (suc n) (suc m) y (z ∷ xs) h = row_at-update_other n m y xs (λ e. h (ap suc e))

-- One move of a finding of the workspace, in its row, and nothing else changed.
pub record Moved (scope : Scope) (finding_id : ℕ) (status : Status) (findings after : List Finding)
    (result : Finding) : Type 0 where
  pub place : ℕ
  pub before : Finding
  pub stood : row_at place findings ≡ some before
  pub asked : (before.id == finding_id && before.workspace_id == scope.workspace_id) ≡ true
  pub allowed : may_become before.status status ≡ true
  pub now_stands : row_at place after ≡ some result
  pub has_status : result.status ≡ status
  pub others : (m : ℕ) → (m ≡ place → ⊥) → row_at m after ≡ row_at m findings
  pub reopened : is_absorbing before.status ≡ false → status ≡ Status.opened

reopens : (a b : Status) → may_become a b ≡ true → is_absorbing a ≡ false → b ≡ Status.opened
unfolding may_become
reopens a b h k = ground arith

same_pair :
    (a b : Finding × List Finding) (r : Outcome StatusError (Finding × List Finding))
    → r ≡ ok a
    → r ≡ ok b
    → a ≡ b
same_pair a b r h k = cc

module _ (scope : Scope) (finding_id : ℕ) (reason : Option String) (now : ℕ)
    (findings after : List Finding) (result : Finding) where
  move_status-Moved :
      (status : Status)
      → move_status scope finding_id status reason now findings ≡ ok (result, after)
      → Moved scope finding_id status findings after result
  unfolding move_status get_finding with_status
  move_status-Moved status e =
      let p : Placed → Bool = λ p. p.1.id == finding_id && p.1.workspace_id == scope.workspace_id in
      elim (Option-cases (get_finding scope finding_id findings)) [
        | inl absent ↦ absurd (cc (rw (absent, move_status) at e))
        | inr ((n, f), there) ↦ elim (Bool-cases (may_become f.status status)) [
          | inr refused ↦ absurd (cc (rw (refused, move_status) at (rw (there, move_status) at e)))
          | inl fine ↦
              let stands =
                first-All (λ p. row_at p.0 findings ≡ some p.1) p (placed findings) (n, f)
                  (placed-row_at findings) there in
              let new = with_status status reason now f in
              let made : move_status scope finding_id status reason now findings
                  ≡ ok (new, update_at n new findings) =
                rw (there, move_status) (rw (fine, move_status) refl) in
              subst (λ r. Moved scope finding_id status findings r.1 r.0)
                (same_pair (new, update_at n new findings) (result, after) _ made e)
                (record {
                  place = n;
                  before = f;
                  stood = stands;
                  asked = first_holds p (placed findings) (n, f) there;
                  allowed = fine;
                  now_stands = row_at-update_self n new findings f stands;
                  has_status = refl;
                  others = λ m h. row_at-update_other n m new findings h;
                  reopened = reopens f.status status fine;
                })
        ]
      ]

  -- A change of status that is let through moves one finding of the workspace to the status named, along
  -- a transition of the lifecycle, and leaves every other row; a muted or resolved finding is reopened.
  pub change_status-Moved :
      (name : String)
      → change_status scope finding_id name reason now findings ≡ ok (result, after)
      → (status : Status) × (status_named name ≡ some status)
        × Moved scope finding_id status findings after result
  unfolding change_status
  change_status-Moved name e = elim (Option-cases (status_named name)) [
    | inl absent ↦ absurd (cc (rw (absent, change_status) at e))
    | inr (status, named) ↦
        (status, named, move_status-Moved status (rw (named, change_status) at e))
  ]
