-- ===== src/Rates/Budget.antt =====
-- What the counter of api/src/tabayyun/services/rate_limits.py promises over a run of requests.
use Prim.Native.Nat.{◌+◌, ◌-◌}
use tabayyun.Prelude.{
  ℕ, ◌≡◌, refl, sym, ◌∙◌, ◌≤◌, ◌<◌, Bool, true, false, ◌&&◌, String, List, [], ◌∷◌, ◌++◌, ◌==◌,
  ==_refl, str_eq, str_eq_iff, if◌then◌else◌, min, arith, any, update, delete, count, Bool-cases,
  inl, inr,
}
use tabayyun.Rates.Windows.{Rule, window_start, keep_for, window_start-holds}
use tabayyun.Rates.Counter.{RateLimit, is_window, hits_of, add_hit, hit, prune}

module _ (bucket key : String) (start : ℕ) where
  abbrev here : RateLimit → Bool
  here = is_window bucket key start

  hits_of-update_self :
      (rs : List RateLimit)
      → any here rs ≡ true
      → hits_of here (update here (λ r. record r { hits = r.hits + 1 }) rs) ≡ hits_of here rs + 1
  unfolding hits_of update any
  hits_of-update_self [] h = absurd (cc)
  hits_of-update_self (r ∷ rs) h = ground (arith, hits_of-update_self rs)

  hits_of-append :
      (rs : List RateLimit) (r : RateLimit)
      → any here rs ≡ false
      → here r ≡ true
      → (hits_of here (rs ++ r ∷ []) ≡ r.hits) × (hits_of here rs ≡ 0)
  unfolding hits_of any
  hits_of-append [] r h k = (ground arith, refl)
  hits_of-append (q ∷ rs) r h k =
      (ground (arith, hits_of-append rs r), ground (arith, hits_of-append rs r))

  hits_of-add_hit :
      (rs : List RateLimit) → hits_of here (add_hit bucket key start rs) ≡ hits_of here rs + 1
  unfolding add_hit
  hits_of-add_hit rs = elim (Bool-cases (any here rs)) [
    | inl e ↦ rw (e, add_hit) (hits_of-update_self rs e)
    | inr e ↦
        let row : RateLimit = record {
          bucket = bucket;
          key = key;
          window_start = start;
          hits = 1;
        } in
        let mine : here row ≡ true =
          ground (
            arith,
            (str_eq_iff bucket bucket).1 refl,
            (str_eq_iff key key).1 refl,
            ==_refl start,
          ) in
        rw (e, add_hit) (ground (arith, hits_of-append rs row e mine))
  ]

  -- Another window's row: a hit of it does not count here.
  module _ (key' : String) (start' : ℕ) (other : (str_eq key' key && start' == start) ≡ false) where
    abbrev there : RateLimit → Bool
    there = is_window bucket key' start'

    not_both : (r : RateLimit) → there r ≡ true → here r ≡ false
    not_both r h = elim (Bool-cases (here r)) [
      | inr e ↦ e
      | inl e ↦
          let k' : r.key ≡ key' = (str_eq_iff r.key key').0 (ground arith) in
          let k : r.key ≡ key = (str_eq_iff r.key key).0 (ground arith) in
          absurd (ground (arith, (str_eq_iff key' key).1 (sym k' ∙ k)))
    ]

    hits_of-update_other :
        (rs : List RateLimit)
        → hits_of here (update there (λ r. record r { hits = r.hits + 1 }) rs) ≡ hits_of here rs
    unfolding hits_of update
    hits_of-update_other [] = refl
    hits_of-update_other (r ∷ rs) = elim (Bool-cases (there r)) [
      | inl e ↦ rw e (ground (arith, hits_of-update_other rs, not_both r e))
      | inr e ↦ rw e (ground (arith, hits_of-update_other rs))
    ]

    hits_of-append_other :
        (rs : List RateLimit) (r : RateLimit)
        → here r ≡ false
        → hits_of here (rs ++ r ∷ []) ≡ hits_of here rs
    unfolding hits_of
    hits_of-append_other [] r h = ground arith
    hits_of-append_other (q ∷ rs) r h = ground (arith, hits_of-append_other rs r h)

    hits_of-add_other :
        (rs : List RateLimit) → hits_of here (add_hit bucket key' start' rs) ≡ hits_of here rs
    unfolding add_hit
    hits_of-add_other rs = elim (Bool-cases (any there rs)) [
      | inl e ↦ rw (e, add_hit) (hits_of-update_other rs)
      | inr e ↦
          let row : RateLimit = record {
            bucket = bucket;
            key = key';
            window_start = start';
            hits = 1;
          } in
          rw (e, add_hit) (hits_of-append_other rs row (ground arith))
    ]

module _ (rule : Rule) (key : String) (start : ℕ) where
  -- A request of the key in the window.
  abbrev pub is_of : String × ℕ → Bool
  is_of (k, now) = str_eq k key && window_start now rule.window == start

  -- How many requests of the key in the window are let through, of a run of requests by keys.
  unfoldable pub granted : List (String × ℕ) → List RateLimit → ℕ
  granted [] table = 0
  granted ((k, now) ∷ rest) table =
      let (decision, after) = hit true rule k now table in
      (if is_of (k, now) && decision.allowed then 1 else 0) + granted rest after

  -- While the database answers, of the requests of a key in a window, with those of others between
  -- them, exactly as many are let through as the limit leaves over what was counted before.
  pub granted-budget :
      (requests : List (String × ℕ)) (table : List RateLimit)
      → granted requests table
        ≡ min (count is_of requests) (rule.limit - hits_of (is_window rule.bucket key start) table)
  unfolding granted hit count
  granted-budget [] table = ground arith
  granted-budget ((k, now) ∷ rest) table =
      let at = window_start now rule.window in
      let after = add_hit rule.bucket k at table in
      elim (Bool-cases (is_of (k, now))) [
        | inl e ↦
            let same_key : k ≡ key = (str_eq_iff k key).0 (ground arith) in
            let same_start : at ≡ start = ground arith in
            let counted : hits_of (is_window rule.bucket key start) after
                ≡ hits_of (is_window rule.bucket key start) table + 1 =
              rw (same_key, same_start) (hits_of-add_hit rule.bucket key start table) in
            let told : hits_of (is_window rule.bucket k at) after
                ≡ hits_of (is_window rule.bucket key start) table + 1 =
              rw (same_key, same_start) (hits_of-add_hit rule.bucket key start table) in
            ground (arith, granted-budget rest after, counted, told)
        | inr e ↦
            ground (
              arith,
              granted-budget rest after,
              hits_of-add_other rule.bucket key start k at e table,
            )
      ]

-- Pruning takes no window that still runs: what the window at hand counted stays counted.
pub prune-hits :
    (rule : Rule) (key : String) (now : ℕ) (table : List RateLimit)
    → 0 < rule.window
    → rule.window ≤ keep_for
    → let here = is_window rule.bucket key (window_start now rule.window) in
      hits_of here (prune now table).1 ≡ hits_of here table
unfolding prune hits_of delete
prune-hits rule key now [] h k = refl
prune-hits rule key now (r ∷ rs) h k =
    let holds = window_start-holds now rule.window h in
    ground (arith, prune-hits rule key now rs h k, holds)
