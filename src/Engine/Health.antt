-- ===== src/Engine/Health.antt =====
-- The health of a source (`next_health` of api/src/tabayyun/services/fetches.py).
use Prim.Native.Nat.{◌+◌}
use tabayyun.Prelude.{
  ℕ, ◌≡◌, refl, Bool, true, false, ◌||◌, Option, none, some, List, [], ◌∷◌, ◌++◌, if◌then◌else◌,
  leb, arith, ap, ◌∙◌, Bool-cases, inl, inr,
}
use tabayyun.Engine.Tables.{FetchStatus, HealthStatus, Health, SourceFetch, failing_after, is_data}

abbrev pub no_health : Health
no_health = record {
  status = none;
  checked_at = none;
  consecutive_failures = none;
  last_success_at = none;
  last_error = none;
  last_fetch = none;
}

abbrev pub is_succeeded : FetchStatus → Bool
is_succeeded FetchStatus.succeeded = true
is_succeeded _ = false

abbrev pub or_zero : Option ℕ → ℕ
or_zero none = 0
or_zero (some n) = n

-- The first update of the dict.
unfoldable pub judged : Health → SourceFetch → (now : ℕ) → (retryable : Bool) → Health
judged health fetch now retryable =
    let failures = or_zero health.consecutive_failures + 1 in
    if is_succeeded fetch.status
    then record health {
      checked_at = some now;
      status = some HealthStatus.healthy;
      consecutive_failures = some 0;
      last_success_at = some now;
    }
    else record health {
      checked_at = some now;
      status =
          some (if leb failing_after failures then HealthStatus.failing else HealthStatus.degraded);
      consecutive_failures = some failures;
      last_error = some (record { at = now; message = fetch.error; retryable = retryable });
    }

unfoldable pub next_health : Health → SourceFetch → (now : ℕ) → (retryable : Bool) → Health
unfolding judged
next_health health fetch now retryable =
    let out = judged health fetch now retryable in
    if is_data fetch.trigger
    then record out {
      last_fetch =
          some
            (record { id = fetch.id; status = fetch.status; finished_at = now; rows = fetch.rows });
    }
    else out

-- A fetch as it ended.
pub record Ended : Type 0 where
  pub fetch : SourceFetch
  pub now : ℕ
  pub retryable : Bool

-- The health after fetches that ended one after the other.
unfoldable pub after_fetches : Health → List Ended → Health
after_fetches health [] = health
after_fetches health (e ∷ es) = after_fetches (next_health health e.fetch e.now e.retryable) es

after_fetches-append :
    (health : Health) (es fs : List Ended)
    → after_fetches health (es ++ fs) ≡ after_fetches (after_fetches health es) fs
unfolding after_fetches
after_fetches-append health [] fs = refl
after_fetches-append health (e ∷ es) fs =
    after_fetches-append (next_health health e.fetch e.now e.retryable) es fs

-- The verdict on the last three fetches.
abbrev pub verdict : (a b c : FetchStatus) → HealthStatus
verdict a b c =
    if is_succeeded c
    then HealthStatus.healthy
    else if is_succeeded a || is_succeeded b
    then HealthStatus.degraded
    else HealthStatus.failing

abbrev failures_of : Health → ℕ
failures_of health = or_zero health.consecutive_failures

next_health-failures :
    (health : Health) (fetch : SourceFetch) (now : ℕ) (retryable : Bool)
    → failures_of (next_health health fetch now retryable)
      ≡ (if is_succeeded fetch.status then 0 else failures_of health + 1)
unfolding next_health
next_health-failures health fetch now retryable = elim (Bool-cases (is_succeeded fetch.status)) [
  | inl e ↦ ground arith
  | inr e ↦ ground arith
]

next_health-status :
    (health : Health) (fetch : SourceFetch) (now : ℕ) (retryable : Bool)
    → (next_health health fetch now retryable).status
      ≡ some (
          if is_succeeded fetch.status
          then HealthStatus.healthy
          else if leb failing_after (failures_of health + 1)
          then HealthStatus.failing
          else HealthStatus.degraded)
unfolding next_health
next_health-status health fetch now retryable = elim (Bool-cases (is_succeeded fetch.status)) [
  | inl e ↦ ground arith
  | inr e ↦ ground arith
]

three :
    (health : Health) (a b c : Ended)
    → (after_fetches health (a ∷ b ∷ c ∷ [])).status
      ≡ some (verdict a.fetch.status b.fetch.status c.fetch.status)
unfolding after_fetches
three health a b c =
    let h1 = next_health health a.fetch a.now a.retryable in
    let h2 = next_health h1 b.fetch b.now b.retryable in
    let first = next_health-failures health a.fetch a.now a.retryable in
    let second = next_health-failures h1 b.fetch b.now b.retryable in
    let third = next_health-status h2 c.fetch c.now c.retryable in
    third ∙ ap some (ground (arith, first, second))

-- However long the history, from the third fetch on the status of a source's health is decided by how
-- the last three fetches ended: healthy if the last one succeeded, failing if none of the three did,
-- and degraded otherwise.
pub after_fetches-verdict :
    (health : Health) (history : List Ended) (a b c : Ended)
    → (after_fetches health (history ++ a ∷ b ∷ c ∷ [])).status
      ≡ some (verdict a.fetch.status b.fetch.status c.fetch.status)
after_fetches-verdict health history a b c =
    rw (after_fetches-append health history (a ∷ b ∷ c ∷ []))
      (three (after_fetches health history) a b c)
