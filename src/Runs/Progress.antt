-- ===== src/Runs/Progress.antt =====
-- What no transaction undoes of a run (api/src/tabayyun/services/runs.py).
use tabayyun.Prelude.{
  ℕ, ◌≡◌, ◌≤◌, refl, sym, subst, ap, ◌∙◌, Bool, true, false, some, List, ◌==◌, first, update,
  first-update, first_holds, some-injective, Bool-cases, inl, inr, arith,
}
use tabayyun.Prelude.{◌⊎◌}
use tabayyun.Runs.Tables.{is_running, RunStatus, is_queued, is_live, Run}
use tabayyun.Runs.Transactions.{is_run}

-- How far a status is.
abbrev pub stage : RunStatus → ℕ
stage RunStatus.queued = 0
stage RunStatus.running = 1
stage RunStatus.succeeded = 2
stage RunStatus.failed = 2

-- The run has not moved back; if it had ended only the note on the cache is new, and if it ran it has ended
-- or still runs since the same time.
pub record Progress (r r' : Run) : Type 0 where
  pub forward : stage r.status ≤ stage r'.status
  pub ended : is_live r.status ≡ false → r' ≡ record r { cache = r'.cache }
  pub held :
      is_running r.status ≡ true
      → (is_live r'.status ≡ false)
        ⊎ ((is_running r'.status ≡ true) × (r'.started_at ≡ r.started_at))

-- A run that is there still is, further on.
abbrev pub Progressed : ℕ → (runs after : List Run) → Type 0
Progressed i runs after =
    (r : Run)
    → first (is_run i) runs ≡ some r
    → (r' : Run) × (first (is_run i) after ≡ some r') × Progress r r'

stage-le : (s : RunStatus) → stage s ≤ 2
stage-le RunStatus.queued = omega arith
stage-le RunStatus.running = omega arith
stage-le RunStatus.succeeded = omega arith
stage-le RunStatus.failed = omega arith

pub Progress-refl : (r : Run) → Progress r r
Progress-refl r = record { forward = omega arith; ended = λ e. refl; held = λ e. inr (e, refl) }

pub Progress-cached : (r r' : Run) → r' ≡ record r { cache = r'.cache } → Progress r r'
Progress-cached r r' e = record {
  forward = subst (λ (z : Run). stage r.status ≤ stage z.status) (sym e) (omega arith);
  ended = λ f. e;
  held = λ f.
      inr (
        subst (λ (z : Run). is_running z.status ≡ true) (sym e) f,
        ap (λ (z : Run). z.started_at) e,
      );
}

over-stage : (s : RunStatus) → stage s ≡ 2 → is_live s ≡ false
over-stage RunStatus.queued e = absurd (omega (arith, e))
over-stage RunStatus.running e = absurd (omega (arith, e))
over-stage RunStatus.succeeded e = refl
over-stage RunStatus.failed e = refl

-- A live run that ends.
pub live-Progress : (r r' : Run) → is_live r.status ≡ true → stage r'.status ≡ 2 → Progress r r'
live-Progress r r' live over = record {
  forward = ground (arith, stage-le r.status, over);
  ended = λ e. absurd (cc);
  held = λ e. inl (over-stage r'.status over);
}

queued-stage : (s : RunStatus) → is_queued s ≡ true → stage s ≡ 0
queued-stage RunStatus.queued e = refl
queued-stage RunStatus.running e = absurd (cc)
queued-stage RunStatus.succeeded e = absurd (cc)
queued-stage RunStatus.failed e = absurd (cc)

queued_not_running : (s : RunStatus) → is_queued s ≡ true → is_running s ≡ false
queued_not_running RunStatus.queued e = refl
queued_not_running RunStatus.running e = absurd (cc)
queued_not_running RunStatus.succeeded e = refl
queued_not_running RunStatus.failed e = refl

pub queued-Progress : (r r' : Run) → is_queued r.status ≡ true → Progress r r'
queued-Progress r r' queued = record {
  forward = omega (arith, queued-stage r.status queued);
  ended = λ e. absurd (ground arith);
  held = λ e. absurd (cc (queued_not_running r.status queued, e));
}

pub Progress-trans : (a b c : Run) → Progress a b → Progress b c → Progress a c
Progress-trans a b c p q = record {
  forward = omega (arith, p.forward, q.forward);
  ended = λ e.
      let same = p.ended e in
      let still : is_live b.status ≡ false =
        subst (λ (z : Run). is_live z.status ≡ false) (sym same) e in
      q.ended still ∙ ap (λ (z : Run). record z { cache = c.cache }) same;
  held = λ e. elim (p.held e) [
    | inl over ↦ inl (subst (λ (z : Run). is_live z.status ≡ false) (sym (q.ended over)) over)
    | inr (runs, since) ↦ elim (q.held runs) [
      | inl over ↦ inl over
      | inr (still, after) ↦ inr (still, after ∙ since)
    ]
  ];
}

-- The same through an update of some rows, of what progresses with each row that it finds.
pub update-Progressed :
    (i : ℕ) (q : Run → Bool) (f : Run → Run) (runs : List Run)
    → ((r : Run) → (f r).id ≡ r.id)
    → ((r : Run) → first (is_run i) runs ≡ some r → q r ≡ true → Progress r (f r))
    → Progressed i runs (update q f runs)
update-Progressed i q f runs same moves r e =
    let after = first-update (is_run i) q f (λ x. ap (λ n. n == i) (same x)) runs r e in
    elim (Bool-cases (q r)) [
      | inl k ↦ (f r, rw k at after, moves r e k)
      | inr k ↦ (r, rw k at after, Progress-refl r)
    ]

-- The row of a key is one.
pub first-same_key :
    (i j : ℕ) (runs : List Run) (x r : Run)
    → first (is_run j) runs ≡ some x
    → first (is_run i) runs ≡ some r
    → is_run j r ≡ true
    → x ≡ r
first-same_key i j runs x r e found k =
    let here : r.id ≡ j = ground (arith, k) in
    let there : r.id ≡ i = ground (arith, first_holds (is_run i) runs r found) in
    some-injective x r
      (sym e ∙ subst (λ n. first (is_run n) runs ≡ some r) (sym there ∙ here) found)

-- An update by the primary key, of the row that it finds.
pub at-Progressed :
    (i j : ℕ) (f : Run → Run) (runs : List Run) (x : Run)
    → ((r : Run) → (f r).id ≡ r.id)
    → first (is_run j) runs ≡ some x
    → Progress x (f x)
    → Progressed i runs (update (is_run j) f runs)
at-Progressed i j f runs x same e moves =
    update-Progressed i (is_run j) f runs same
      (λ r found k. subst (λ z. Progress z (f z)) (first-same_key i j runs x r e found k) moves)
